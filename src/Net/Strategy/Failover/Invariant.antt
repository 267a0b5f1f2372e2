-- ===== src/Net/Strategy/Failover/Invariant.antt =====
-- FailoverStrategy.cpp keeps its promises to its clients and its listener.
use rxs_supported.Common.{
  ℕ, zero, suc, ◌+◌, ◌-◌, ◌<◌, ◌≤◌, [], ◌∷◌, Option, none, some, not, ◌||◌, ◌==◌, ◌≡◌, refl, ap,
  ◌∙◌, ◌⊎◌, inl, inr, Bool-cases, All, All-append, arith,
}
use rxs_supported.Net.Strategy.Effect.{
  Effect, disconnected, paused, Event, connect, stop, tick, set_algo, set_proxy, login_success,
  view, notice, view-append, Names, From, Strategy,
}
use rxs_supported.Net.Strategy.Failover.{
  Failover, is_active, each, fail_over, disconnect_others, chosen, activate, step,
}

-- The client tried last exists, and an active client is the one tried last.
abbrev pub Below : ℕ → Option ℕ → Type 0
Below index none = Unit
Below index (some a) = a ≡ index

pub record IsValid (s : Failover) : Type 0 where
  pub tried : s.index < s.pools
  pub current : Below s.index s.active

others-view :
    (P : Type 0) (active seen : Option ℕ) (c n : ℕ)
    → view {P = P} seen (disconnect_others active c n) ≡ seen
unfolding disconnect_others
others-view P active seen c zero = refl
others-view P active seen c (suc n) = ground (arith, others-view P active seen (suc c) n)

activate-view :
    (P : Type 0) (s : Failover) (c : ℕ) (o : Option ℕ)
    → (o ≡ some c) ⊎ (o ≡ s.active)
    → view {P = P} s.active (activate s c o).1 ≡ (activate {P = P} s c o).0.active
unfolding activate
activate-view P s c none h = refl
activate-view P s c (some a) h = ground arith

chosen_cases : (s : Failover) (c : ℕ) → (chosen s c ≡ some c) ⊎ (chosen s c ≡ s.active)
chosen_cases s c = elim (Bool-cases (c == 0 || not (is_active s.active))) [
  | inl e ↦ inl (rw e)
  | inr e ↦ inr (rw e)
]

others-Names :
    (P : Type 0) (pools : ℕ) (active : Option ℕ) (c n : ℕ)
    → c + n ≤ pools
    → All (Names {P = P} pools) (disconnect_others active c n)
unfolding disconnect_others
others-Names P pools active c zero le = tt
others-Names P pools active c (suc n) le = ground (arith, others-Names P pools active (suc c) n)

activate-Names :
    (P : Type 0) (s : Failover) (c : ℕ) (o : Option ℕ)
    → c < s.pools
    → All (Names {P = P} s.pools) (activate s c o).1
unfolding activate
activate-Names P s c none h = tt
activate-Names P s c (some a) h = ground arith

module _ {P : Type 0} where
  pub step-pools : (s : Failover) (e : Event P) → (step s e).0.pools ≡ s.pools
  unfolding step fail_over
  step-pools s connect = refl
  step-pools s e = ground arith

  pub step-IsValid :
      (s : Failover) (e : Event P) → IsValid s → From s.pools e → IsValid (step s e).0
  unfolding step fail_over
  step-IsValid s connect v h = v
  step-IsValid s e v h = ground arith

  each-view :
      (call : ℕ → Effect P)
      → ((c : ℕ) (seen : Option ℕ) → notice seen (call c) ≡ seen)
      → (seen : Option ℕ) (c n : ℕ) → view seen (each call c n) ≡ seen
  unfolding each
  each-view call h seen c zero = refl
  each-view call h seen c (suc n) = rw (h c seen, view) (each-view call h seen (suc c) n)

  pub step-view : (s : Failover) (e : Event P) → view s.active (step s e).1 ≡ (step s e).0.active
  unfolding step fail_over
  step-view s stop = view-append s.active (each disconnected 0 s.pools) (paused ∷ [])
  step-view s (tick now) = each-view _ (λ c o. refl) s.active 0 s.pools
  step-view s (set_algo p) = each-view _ (λ c o. refl) s.active 0 s.pools
  step-view s (set_proxy p) = each-view _ (λ c o. refl) s.active 0 s.pools
  step-view s (login_success c) =
      view-append s.active (disconnect_others (chosen s c) 1 (s.pools - 1))
        (activate s c (chosen s c)).1
      ∙ ap (λ o. view o (activate {P = P} s c (chosen s c)).1)
          (others-view P (chosen s c) s.active 1 (s.pools - 1))
      ∙ activate-view P s c (chosen s c) (chosen_cases s c)
  step-view s e = ground arith

  each-Names :
      (call : ℕ → Effect P) (pools : ℕ)
      → ((c : ℕ) → c < pools → Names pools (call c))
      → (c n : ℕ) → c + n ≤ pools
      → All (Names pools) (each call c n)
  unfolding each
  each-Names call pools h c zero le = tt
  each-Names call pools h c (suc n) le =
      (h c (omega arith), each-Names call pools h (suc c) n (omega arith))

  pub step-Names :
      (s : Failover) (e : Event P) → IsValid s → From s.pools e → All (Names s.pools) (step s e).1
  unfolding step fail_over
  step-Names s stop v h =
      All-append (Names s.pools) (each disconnected 0 s.pools) (paused ∷ [])
        (each-Names _ s.pools (λ c l. l) 0 s.pools (omega arith)) (tt, tt)
  step-Names s (tick now) v h = each-Names _ s.pools (λ c l. l) 0 s.pools (omega arith)
  step-Names s (set_algo p) v h = each-Names _ s.pools (λ c l. l) 0 s.pools (omega arith)
  step-Names s (set_proxy p) v h = each-Names _ s.pools (λ c l. l) 0 s.pools (omega arith)
  step-Names s (login_success c) v h =
      All-append (Names s.pools) (disconnect_others (chosen s c) 1 (s.pools - 1))
        (activate s c (chosen s c)).1
        (others-Names P s.pools (chosen s c) 1 (s.pools - 1) (omega arith))
        (activate-Names P s c (chosen s c) h)
  step-Names s e v h = ground arith

-- The interface's promises, kept by this strategy: it never calls a client that does not exist, and
-- what the listener was told last is what is active.
abbrev pub failover : (P : Type 0) → Strategy P
failover P = record {
  State = Failover;
  IsValid = IsValid;
  clients = λ s. s.pools;
  active = λ s. s.active;
  step = step;
  step-IsValid = step-IsValid;
  step-clients = step-pools;
  step-view = λ s e v h. step-view s e;
  step-Names = step-Names;
}
