-- ===== src/Net/Strategy/Effect.antt =====
-- The calls that a pool strategy receives and makes. A client is known by its id, its place in the
-- list of pools. What is passed on unread (jobs, results, documents) is of a type `P`.
use rxs_supported.Common.{ℕ, ◌<◌, List, [], ◌∷◌, ◌++◌, Option, none, some, Bool, ◌≡◌, refl, All}

-- Calls of clients, then calls of the listener.
pub data Effect (P : Type 0) : Type 0 where
  configured : (client retries pause : ℕ) (quiet : Bool) → Effect P
  connected disconnected : (client : ℕ) → Effect P
  ticked : (client now : ℕ) → Effect P
  algo_set proxy_set submitted : (client : ℕ) → P → Effect P
  paused : Effect P
  activated : (client : ℕ) → Effect P
  job_passed login_passed result_passed verify_passed : (client : ℕ) → P → Effect P
  job_resumed : (client : ℕ) → Effect P

-- Calls of IStrategy, then of IClientListener. `failures` is `none` for -1.
pub data Event (P : Type 0) : Type 0 where
  connect resume stop : Event P
  tick : (now : ℕ) → Event P
  set_algo set_proxy submit : P → Event P
  close : (client : ℕ) (failures : Option ℕ) → Event P
  login_success : (client : ℕ) → Event P
  job_received login result_accepted verify_algorithm : (client : ℕ) → P → Event P

module _ {P : Type 0} where
  -- The client that the listener believes to be active.
  abbrev pub notice : Option ℕ → Effect P → Option ℕ
  notice seen paused = none
  notice seen (activated c) = some c
  notice seen _ = seen

  abbrev pub view : Option ℕ → List (Effect P) → Option ℕ
  view seen [] = seen
  view seen (e ∷ es) = view (notice seen e) es

  pub view-append :
      (seen : Option ℕ) (es fs : List (Effect P)) → view seen (es ++ fs) ≡ view (view seen es) fs
  view-append seen [] fs = refl
  view-append seen (e ∷ es) fs = view-append (notice seen e) es fs

  -- The clients that an effect calls or names, all with an id below `n`.
  abbrev pub Names : ℕ → Effect P → Type 0
  Names n (configured c r p q) = c < n
  Names n (connected c) = c < n
  Names n (disconnected c) = c < n
  Names n (ticked c now) = c < n
  Names n (algo_set c p) = c < n
  Names n (proxy_set c p) = c < n
  Names n (submitted c p) = c < n
  Names n paused = Unit
  Names n (activated c) = c < n
  Names n (job_passed c p) = c < n
  Names n (login_passed c p) = c < n
  Names n (result_passed c p) = c < n
  Names n (verify_passed c p) = c < n
  Names n (job_resumed c) = c < n

  -- A callback comes from one of `n` clients.
  abbrev pub From : ℕ → Event P → Type 0
  From n (close c f) = c < n
  From n (login_success c) = c < n
  From n (job_received c p) = c < n
  From n (login c p) = c < n
  From n (result_accepted c p) = c < n
  From n (verify_algorithm c p) = c < n
  From n _ = Unit

-- What a strategy promises its listener and its clients, whatever calls it receives.
pub record Strategy (P : Type 0) : Type 1 where
  pub State : Type 0
  pub IsValid : State → Type 0
  pub clients : State → ℕ
  pub active : State → Option ℕ
  pub step : State → Event P → State × List (Effect P)
  pub step-IsValid :
      (s : State) (e : Event P) → IsValid s → From (clients s) e → IsValid (step s e).0
  pub step-clients : (s : State) (e : Event P) → clients (step s e).0 ≡ clients s
  pub step-view :
      (s : State) (e : Event P)
      → IsValid s
      → From (clients s) e
      → view (active s) (step s e).1 ≡ active (step s e).0
  pub step-Names :
      (s : State) (e : Event P)
      → IsValid s
      → From (clients s) e
      → All (Names (clients s)) (step s e).1
