-- ===== src/Net/NetworkState/Counts.antt =====
-- NetworkState.cpp: what the counters hold after any events.
use rxs_supported.Common.{
  ℕ, suc, ◌+◌, ◌%◌, ◌^◌, ◌≤◌, List, [], ◌∷◌, true, false, length, length-append, All, All-append,
  ◌≡◌, refl, arith,
}
use rxs_supported.Net.NetworkState.{
  NetworkState, Event, active, job, pause, result, SubmitResult, capped, add, step, run, new_state,
  on_active, on_job, on_pause, stop,
}

-- How many results were accepted, and refused, and the sum of the accepted ones' differences.
abbrev pub count_accepted : List Event → ℕ
count_accepted [] = 0
count_accepted (result submitted false ∷ es) = suc (count_accepted es)
count_accepted (_ ∷ es) = count_accepted es

abbrev pub count_rejected : List Event → ℕ
count_rejected [] = 0
count_rejected (result submitted true ∷ es) = suc (count_rejected es)
count_rejected (_ ∷ es) = count_rejected es

abbrev pub sum_diffs : List Event → ℕ
sum_diffs [] = 0
sum_diffs (result submitted false ∷ es) = sum_diffs es + submitted.diff
sum_diffs (_ ∷ es) = sum_diffs es

-- The accepted results since the last stop.
abbrev pub count_recent : List Event → ℕ
count_recent [] = 0
count_recent (pause false ∷ es) = 0
count_recent (result submitted false ∷ es) = suc (count_recent es)
count_recent (_ ∷ es) = count_recent es

pub record Counted (es : List Event) (s : NetworkState) : Type 0 where
  pub accepted : s.accepted ≡ count_accepted es % 2 ^ 64
  pub rejected : s.rejected ≡ count_rejected es % 2 ^ 64
  pub hashes : s.hashes ≡ sum_diffs es % 2 ^ 64
  pub recent : length s.latencies ≡ count_recent es
  pub bounded : All (λ t. t ≤ 0xffff) s.latencies

accepted-Counted :
    (es : List Event) (submitted : SubmitResult) (s : NetworkState)
    → Counted es s
    → Counted (result submitted false ∷ es) (add submitted false s)
unfolding add
accepted-Counted es submitted s c = record {
  accepted = omega (arith, c.accepted);
  rejected = c.rejected;
  hashes = omega (arith, c.hashes);
  recent = omega (arith, length-append s.latencies (capped submitted.elapsed ∷ []), c.recent);
  bounded =
      All-append (λ t. t ≤ 0xffff) s.latencies (capped submitted.elapsed ∷ []) (c.bounded)
        (ground arith, tt);
}

-- After any events the accepted and the rejected results and the differences of the accepted ones are
-- counted, modulo 2 ^ 64, and there is one latency of at most 65535 ms for each result accepted since the
-- strategy was last without an active client at a pause.
pub run-Counted : (es : List Event) → Counted es (run es)
unfolding step new_state on_active on_job on_pause stop add
run-Counted [] = record {
  accepted = refl;
  rejected = refl;
  hashes = refl;
  recent = refl;
  bounded = tt;
}
run-Counted (active client now ∷ es) =
    let c = run-Counted es in
    record {
      accepted = c.accepted;
      rejected = c.rejected;
      hashes = c.hashes;
      recent = c.recent;
      bounded = c.bounded;
    }
run-Counted (job algorithm diff ∷ es) =
    let c = run-Counted es in
    record {
      accepted = c.accepted;
      rejected = c.rejected;
      hashes = c.hashes;
      recent = c.recent;
      bounded = c.bounded;
    }
run-Counted (pause true ∷ es) =
    let c = run-Counted es in
    record {
      accepted = c.accepted;
      rejected = c.rejected;
      hashes = c.hashes;
      recent = c.recent;
      bounded = c.bounded;
    }
run-Counted (pause false ∷ es) =
    let c = run-Counted es in
    record {
      accepted = c.accepted;
      rejected = c.rejected;
      hashes = c.hashes;
      recent = refl;
      bounded = tt;
    }
run-Counted (result submitted true ∷ es) =
    let c = run-Counted es in
    record {
      accepted = c.accepted;
      rejected = omega (arith, c.rejected);
      hashes = c.hashes;
      recent = c.recent;
      bounded = c.bounded;
    }
run-Counted (result submitted false ∷ es) = accepted-Counted es submitted (run es) (run-Counted es)
