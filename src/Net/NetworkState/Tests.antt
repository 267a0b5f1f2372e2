-- ===== src/Net/NetworkState/Tests.antt =====
-- NetworkState.cpp at concrete input.
use rxs_supported.Common.{ℕ, List, [], ◌∷◌, ◌≡◌, refl, take, true, false, none}
use rxs_supported.Net.NetworkState.{
  Event, active, result, SubmitResult, zeros, sort_reversed, insert, run, step, add, add_top,
  new_state, on_active, latency,
}
use rxs_supported.Net.NetworkState.Top.{top_diff-sort_reversed}
use rxs_supported.Net.NetworkState.Counts.{Counted, run-Counted}

abbrev submitted : ℕ → ℕ → SubmitResult
submitted actual_diff elapsed = record { diff = 1000; actual_diff = actual_diff; elapsed = elapsed }

-- A connection, three accepted results and one refused, the latest first.
abbrev history : List Event
history =
    result (submitted 9000 70000) false
    ∷ result (submitted 8000 30) true
    ∷ result (submitted 3000 40) false
    ∷ result (submitted 5000 20) false
    ∷ active (record { name = 104 ∷ []; ip = none; tls_version = none; tls_fingerprint = none }) 10
    ∷ []

history_test :
    ((run history).top_diff ≡ 9000 ∷ 5000 ∷ 3000 ∷ 0 ∷ 0 ∷ 0 ∷ 0 ∷ 0 ∷ 0 ∷ 0 ∷ [])
    × ((run history).latencies ≡ 20 ∷ 40 ∷ 65535 ∷ [])
    × (latency (run history) ≡ 40)
unfolding step add add_top new_state on_active latency sort_reversed insert
history_test = (refl, refl, refl)

top_diff-sort_reversed_example :
    (run history).top_diff ≡ take 10 (sort_reversed (9000 ∷ 3000 ∷ 5000 ∷ zeros))
top_diff-sort_reversed_example = top_diff-sort_reversed history

run-Counted_example : Counted history (run history)
run-Counted_example = run-Counted history
