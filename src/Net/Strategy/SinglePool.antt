-- ===== src/Net/Strategy/SinglePool.antt =====
-- SinglePoolStrategy.{h,cpp}: the one client has the id 0.
use rxs_supported.Common.{
  ℕ, ◌*◌, List, [], ◌∷◌, Option, none, some, Bool, true, false, if◌then◌else◌, ◌≡◌, refl, All,
  arith,
}
use rxs_supported.Net.Strategy.Effect.{
  Effect, configured, connected, disconnected, ticked, algo_set, proxy_set, submitted, paused,
  activated, job_passed, login_passed, result_passed, verify_passed, job_resumed, Event, connect,
  resume, stop, tick, set_algo, set_proxy, submit, close, login_success, job_received, login,
  result_accepted, verify_algorithm, view, Names, From, Strategy,
}

pub record SinglePool : Type 0 where
  pub active : Bool

module _ {P : Type 0} where
  pub create : Bool → ℕ → ℕ → SinglePool × List (Effect P)
  create quiet retries retry_pause =
      (record { active = false }, configured 0 retries (retry_pause * 1000) quiet ∷ [])

  unfoldable pub step : SinglePool → Event P → SinglePool × List (Effect P)
  step s connect = (s, connected 0 ∷ [])
  step s resume = (s, if s.active then job_resumed 0 ∷ [] else [])
  step s stop = (s, disconnected 0 ∷ [])
  step s (tick now) = (s, ticked 0 now ∷ [])
  step s (set_algo algo) = (s, algo_set 0 algo ∷ [])
  step s (set_proxy proxy) = (s, proxy_set 0 proxy ∷ [])
  step s (submit result) = (s, submitted 0 result ∷ [])
  step s (close client failures) =
      if s.active then (record { active = false }, paused ∷ []) else (s, [])
  step s (login_success client) = (record { active = true }, activated client ∷ [])
  step s (job_received client job) = (s, job_passed client job ∷ [])
  step s (login client document) = (s, login_passed client document ∷ [])
  step s (result_accepted client result) = (s, result_passed client result ∷ [])
  step s (verify_algorithm client algo) = (s, verify_passed client algo ∷ [])

abbrev pub active_client : SinglePool → Option ℕ
active_client s = if s.active then some 0 else none

module _ {P : Type 0} where
  pub step-view :
      (s : SinglePool) (e : Event P)
      → From 1 e
      → view (active_client s) (step s e).1 ≡ active_client (step s e).0
  unfolding step
  step-view s connect h = refl
  step-view s e h = ground arith

  pub step-Names : (s : SinglePool) (e : Event P) → From 1 e → All (Names 1) (step s e).1
  unfolding step
  step-Names s connect h = omega arith
  step-Names s e h = ground arith

abbrev pub single_pool : (P : Type 0) → Strategy P
single_pool P = record {
  State = SinglePool;
  IsValid = λ s. Unit;
  clients = λ s. 1;
  active = active_client;
  step = step;
  step-IsValid = λ s e v h. tt;
  step-clients = λ s e. refl;
  step-view = λ s e v h. step-view s e h;
  step-Names = λ s e v h. step-Names s e h;
}
