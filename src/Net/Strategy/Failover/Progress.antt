-- ===== src/Net/Strategy/Failover/Progress.antt =====
-- FailoverStrategy.cpp: which client is tried next, and which one is preferred.
use mathlib.Core.List.{append-nil}
use rxs_supported.Common.{
  ℕ, zero, suc, ◌+◌, ◌-◌, ◌<◌, ◌≤◌, List, [], ◌∷◌, ◌++◌, none, some, if◌then◌else◌, ◌≡◌, refl,
  arith, ◌≢◌,
}
use rxs_supported.Net.Strategy.Effect.{
  connected, disconnected, activated, Event, close, login_success,
}
use rxs_supported.Net.Strategy.Failover.{Failover, is, each, fail_over, disconnect_others, step}
use rxs_supported.Net.Strategy.Failover.Invariant.{IsValid, failover}
use rxs_supported.Net.Strategy.Run.{run}

module _ {P : Type 0} where
  -- Clients `c`, `c + 1`, … fail in turn, `n` of them, each after all its retries.
  abbrev pub fails : ℕ → ℕ → ℕ → List (Event P)
  fails retries c zero = []
  fails retries c (suc n) = close c (some retries) ∷ fails retries (suc c) n

  close_tried :
      (s : Failover) (failures : ℕ)
      → s.active ≡ none
      → s.retries ≤ failures
      → s.index + 1 < s.pools
      → step {P = P} s (close s.index (some failures))
        ≡ (record s { index = s.index + 1 }, connected (s.index + 1) ∷ [])
  unfolding step fail_over
  close_tried s failures e h lt = ground arith

  -- When no client is active and each client fails after its retries, the clients behind it are
  -- tried in order, each one once, up to the last.
  pub run-fails :
      (s : Failover) (n : ℕ)
      → s.active ≡ none
      → s.index + n < s.pools
      → run (failover P) s (fails s.retries s.index n)
        ≡ (record s { index = s.index + n }, each connected (s.index + 1) n)
  unfolding run each
  run-fails s zero e h = ground arith
  run-fails s (suc n) e h =
      let s' : Failover = record s { index = s.index + 1 } in
      ground (arith, close_tried s s.retries, run-fails s' n)

others-first :
    (P : Type 0) (c n : ℕ) → 0 < c → disconnect_others {P = P} (some 0) c n ≡ each disconnected c n
unfolding disconnect_others each
others-first P c zero h = refl
others-first P c (suc n) h = ground (arith, others-first P (suc c) n)

-- A login of the first client makes it the active one and the next to be tried; all others are
-- disconnected, and the listener is told unless it was active before.
first_login :
    (P : Type 0) (s : Failover)
    → IsValid s
    → step {P = P} s (login_success 0) ≡ (
      record s { index = 0; active = some 0 },
      each disconnected 1 (s.pools - 1) ++ (if is s.active 0 then [] else activated 0 ∷ []),
    )
unfolding step
first_login P s v = ground (arith, others-first P 1 (s.pools - 1))

-- A login of a backup client while another client is active changes nothing but that every backup
-- other than the active one is disconnected.
backup_login :
    (P : Type 0) (s : Failover) (client a : ℕ)
    → s.active ≡ some a
    → client ≢ 0
    → step {P = P} s (login_success client) ≡ (s, disconnect_others (some a) 1 (s.pools - 1))
unfolding step
backup_login P s client a e h =
    ground (arith, append-nil (disconnect_others {P = P} (some a) 1 (s.pools - 1)))

-- A backup whose login succeeds while no client is active becomes the active one.
backup_takes_over :
    (P : Type 0) (s : Failover) (client : ℕ)
    → s.active ≡ none
    → step {P = P} s (login_success client) ≡ (
      record s { index = client; active = some client },
      disconnect_others (some client) 1 (s.pools - 1) ++ activated client ∷ [],
    )
unfolding step
backup_takes_over P s client e = ground arith
