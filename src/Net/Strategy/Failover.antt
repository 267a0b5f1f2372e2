-- ===== src/Net/Strategy/Failover.antt =====
-- FailoverStrategy.{h,cpp}: one active client among several, the first one preferred.
pub mod Invariant
pub mod Progress
use rxs_supported.Common.{
  ℕ, zero, suc, ◌+◌, ◌-◌, ◌*◌, List, [], ◌∷◌, ◌++◌, Option, none, some, Bool, true, false, not,
  ◌&&◌, ◌||◌, ltb, ◌==◌, if◌then◌else◌,
}
use rxs_supported.Net.Strategy.Effect.{
  Effect, configured, connected, disconnected, ticked, algo_set, proxy_set, submitted, paused,
  activated, job_passed, login_passed, result_passed, verify_passed, job_resumed, Event, connect,
  resume, stop, tick, set_algo, set_proxy, submit, close, login_success, job_received, login,
  result_accepted, verify_algorithm,
}

-- `pools` is the number of clients; `active` is `none` for -1.
pub record Failover : Type 0 where
  pub quiet : Bool
  pub retries : ℕ
  pub retry_pause : ℕ
  pub active : Option ℕ
  pub index : ℕ
  pub pools : ℕ

abbrev pub is : Option ℕ → ℕ → Bool
is none c = false
is (some a) c = a == c

abbrev pub is_active : Option ℕ → Bool
is_active none = false
is_active (some a) = true

abbrev pub empty : Bool → ℕ → ℕ → Failover
empty quiet retries retry_pause = record {
  quiet = quiet;
  retries = retries;
  retry_pause = retry_pause;
  active = none;
  index = 0;
  pools = 0;
}

-- The local `active` of `onLoginSuccess`.
abbrev pub chosen : Failover → ℕ → Option ℕ
chosen s client = if client == 0 || not (is_active s.active) then some client else s.active

module _ {P : Type 0} where
  -- The loop over `m_pools`, from the client `c` on, with `n` clients left.
  unfoldable pub each : (ℕ → Effect P) → ℕ → ℕ → List (Effect P)
  each call c zero = []
  each call c (suc n) = call c ∷ each call (suc c) n

  unfoldable pub add : Failover → Failover × List (Effect P)
  add s = (
    record s { pools = s.pools + 1 },
    configured s.pools s.retries (s.retry_pause * 1000) s.quiet ∷ [],
  )

  -- The constructor's loop over `n` pools.
  unfoldable pub add_all : ℕ → Failover → Failover × List (Effect P)
  add_all zero s = (s, [])
  add_all (suc n) s = let (s', es) = add s in let (s'', fs) = add_all n s' in (s'', es ++ fs)

  -- `none` stands for the answer -1; `some` asks the active client.
  on_submit : Failover → P → List (Effect P)
  on_submit s result = elim s.active [ none ↦ [] | some a ↦ submitted a result ∷ [] ]

  on_resume : Failover → List (Effect P)
  on_resume s = elim s.active [ none ↦ [] | some a ↦ job_resumed a ∷ [] ]

  on_stop : Failover → Failover × List (Effect P)
  on_stop s = (record s { index = 0; active = none }, each disconnected 0 s.pools ++ paused ∷ [])

  -- What follows the test of `m_active` in `onClose`.
  unfoldable pub fail_over : Failover → ℕ → ℕ → Failover × List (Effect P)
  fail_over s client failures =
      if s.index == 0 && ltb failures s.retries
      then (s, [])
      else if s.index == client && ltb 1 (s.pools - s.index)
      then (record s { index = s.index + 1 }, connected (s.index + 1) ∷ [])
      else (s, [])

  on_close : Failover → ℕ → Option ℕ → Failover × List (Effect P)
  unfolding fail_over
  on_close s client none = (s, [])
  on_close s client (some failures) =
      if is s.active client
      then (let (s', es) = fail_over (record s { active = none }) client failures in
          (s', paused ∷ es))
      else fail_over s client failures

  on_job_received : Failover → ℕ → P → List (Effect P)
  on_job_received s client job = if is s.active client then job_passed client job ∷ [] else []

  -- The loop of `onLoginSuccess`: clients but the first and the active one.
  unfoldable pub disconnect_others : Option ℕ → ℕ → ℕ → List (Effect P)
  disconnect_others active c zero = []
  disconnect_others active c (suc n) =
      if is active c
      then disconnect_others active (suc c) n
      else disconnected c ∷ disconnect_others active (suc c) n

  -- `active >= 0 && active != m_active`.
  activate : Failover → ℕ → Option ℕ → Failover × List (Effect P)
  activate s client none = (s, [])
  activate s client (some a) =
      if is s.active a
      then (s, [])
      else (record s { index = a; active = some a }, activated client ∷ [])

  on_login_success : Failover → ℕ → Failover × List (Effect P)
  unfolding activate
  on_login_success s client =
      let (s', es) = activate s client (chosen s client) in
      (s', disconnect_others (chosen s client) 1 (s.pools - 1) ++ es)

  unfoldable pub step : Failover → Event P → Failover × List (Effect P)
  unfolding on_submit on_resume on_stop on_close on_job_received on_login_success
  step s connect = (s, connected s.index ∷ [])
  step s resume = (s, on_resume s)
  step s stop = on_stop s
  step s (tick now) = (s, each (λ c. ticked c now) 0 s.pools)
  step s (set_algo algo) = (s, each (λ c. algo_set c algo) 0 s.pools)
  step s (set_proxy proxy) = (s, each (λ c. proxy_set c proxy) 0 s.pools)
  step s (submit result) = (s, on_submit s result)
  step s (close client failures) = on_close s client failures
  step s (login_success client) = on_login_success s client
  step s (job_received client job) = (s, on_job_received s client job)
  step s (login client document) = (s, login_passed client document ∷ [])
  step s (result_accepted client result) = (s, result_passed client result ∷ [])
  step s (verify_algorithm client algo) = (s, verify_passed client algo ∷ [])
