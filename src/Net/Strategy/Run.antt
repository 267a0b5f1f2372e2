-- ===== src/Net/Strategy/Run.antt =====
-- Histories of calls on a pool strategy, behind the interface `Strategy` that FailoverStrategy.cpp
-- and SinglePoolStrategy.cpp implement.
use rxs_supported.Common.{List, [], ◌∷◌, ◌++◌, ◌≡◌, refl, sym, ap, subst, ◌∙◌, All, All-append}
use rxs_supported.Net.Strategy.Effect.{Effect, Event, view, view-append, Names, From, Strategy}

module _ {P : Type 0} (S : Strategy P) where
  open S use {
    State, IsValid, clients, active, step, step-IsValid, step-clients, step-view, step-Names,
  }

  -- The state and all calls made, oldest first.
  unfoldable pub run : State → List (Event P) → State × List (Effect P)
  run s [] = (s, [])
  run s (e ∷ es) = let (s', fs) = step s e in let (s'', gs) = run s' es in (s'', fs ++ gs)

  abbrev pub Keeps : State → State × List (Effect P) → Type 0
  Keeps s (t, fs) = IsValid t × (view (active s) fs ≡ active t) × All (Names (clients s)) fs

  -- Over any history of calls, the client that the listener was last told of is the active one, and
  -- only clients of the list are called.
  pub run-Keeps :
      (s : State) (es : List (Event P)) → IsValid s → All (From (clients s)) es → Keeps s (run s es)
  unfolding run
  run-Keeps s [] v h = (v, refl, tt)
  run-Keeps s (e ∷ es) v (h, hs) =
      let s' = (step s e).0 in
      let n = step-clients s e in
      let (v', w, names) =
        run-Keeps s' es (step-IsValid s e v h) (subst (λ k. All (From k) es) (sym n) hs) in
      (
        v',
        view-append (active s) (step s e).1 (run s' es).1
            ∙ ap (λ o. view o (run s' es).1) (step-view s e v h)
            ∙ w,
        All-append (Names (clients s)) (step s e).1 (run s' es).1 (step-Names s e v h)
            (subst (λ k. All (Names k) (run s' es).1) n names),
      )
