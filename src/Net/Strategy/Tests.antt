-- ===== src/Net/Strategy/Tests.antt =====
-- The pool strategies at concrete histories.
use rxs_supported.Common.{ℕ, List, [], ◌∷◌, some, false, ◌≡◌, refl, arith}
use rxs_supported.Net.Strategy.Effect.{
  connected, disconnected, activated, job_passed, Event, close, login_success, job_received,
  connect,
}
use rxs_supported.Net.Strategy.Run.{run, Keeps}
use rxs_supported.Net.Strategy.Histories.{failover-Keeps}
use rxs_supported.Net.Strategy.Failover.{
  Failover, empty, add, add_all, each, fail_over, disconnect_others, step,
}
use rxs_supported.Net.Strategy.Failover.Invariant.{IsValid, failover}
use rxs_supported.Net.Strategy.Failover.Progress.{run-fails, fails}
use rxs_supported.Net.Strategy.SinglePool.{SinglePool}

-- Three clients.
abbrev three : Failover
three = record (empty false 5 5) { pools = 3 }

add_all-three : (add_all {P = ℕ} 3 (empty false 5 5)).0 ≡ three
unfolding add_all add
add_all-three = refl

three-IsValid : IsValid three
three-IsValid = record { tried = omega arith; current = tt }

abbrev history : List (Event ℕ)
history =
    connect
    ∷ close 0 (some 5)
    ∷ login_success 1
    ∷ job_received 1 9
    ∷ login_success 0
    ∷ job_received 1 8
    ∷ []

switches :
    (run (failover ℕ) three history).1
    ≡ connected 0
      ∷ connected 1
      ∷ disconnected 2
      ∷ activated 1
      ∷ job_passed 1 9
      ∷ disconnected 1
      ∷ disconnected 2
      ∷ activated 0
      ∷ []
unfolding run step fail_over disconnect_others
switches = refl

failover-Keeps_example : Keeps (failover ℕ) three (run (failover ℕ) three history)
failover-Keeps_example = failover-Keeps ℕ three history three-IsValid (omega arith)

abbrev single : SinglePool
single = record { active = false }

run-fails_example :
    run (failover ℕ) three (fails 5 0 2) ≡ (record three { index = 2 }, each connected 1 2)
run-fails_example = run-fails three 2 refl (omega arith)

-- The second client is active.
abbrev backup : Failover
backup = record three { index = 1; active = some 1 }
