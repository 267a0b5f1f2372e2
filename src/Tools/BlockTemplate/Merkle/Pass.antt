-- ===== src/Tools/BlockTemplate/Merkle/Pass.antt =====
-- BlockTemplate.cpp: what one loop over a level does to the branch.
use rxs_supported.Common.{
  ℕ, ◌*◌, ◌-◌, List, [], ◌∷◌, ◌++◌, Bool, true, false, not, ◌&&◌, ◌||◌, length, ◌≡◌, refl, ap, sym,
  subst, ◌∙◌, arith, Bool-cases, inl, inr,
}
use rxs_supported.Net.Job.{bytes_eq}
use rxs_supported.Net.Job.Copies.{bytes_eq-true}
use rxs_supported.Tools.BlockTemplate.Merkle.{Proof, join, nodes, visit, pass}
use rxs_supported.Tools.BlockTemplate.Merkle.Among.{
  among, bytes_eq_refl, and_both, not-false, or_left, or_right, or_none,
}

module _ (keccak : List ℕ → List ℕ) where
  -- One step up.
  unfoldable pub Moved : (Bool → ℕ → ℕ) → Proof → Proof → Type 0
  Moved turn p p' =
      (right : Bool) × (sibling : List ℕ) × (p' ≡ record {
        h2 = join keccak right sibling p.h2;
        branch = p.branch ++ sibling ∷ [];
        path = turn right p.path;
      })

  -- No node of a level is one of the hashes after those that it is made of.
  unfoldable pub fresh : List (List ℕ) → Bool
  fresh (a ∷ b ∷ hashes) = not (among (keccak (a ++ b)) hashes) && fresh hashes
  fresh _ = true

  pub visit-none :
      (turn : Bool → ℕ → ℕ) (a b : List ℕ) (p : Proof)
      → bytes_eq a p.h2 ≡ false
      → bytes_eq b p.h2 ≡ false
      → visit keccak turn a b p ≡ p
  unfolding visit
  visit-none turn a b p x y = rw (x, y) refl

  pub pass-none :
      (turn : Bool → ℕ → ℕ) (hashes : List (List ℕ)) (p : Proof)
      → among p.h2 hashes ≡ false
      → pass keccak turn hashes p ≡ p
  unfolding pass among
  pass-none turn [] p e = refl
  pass-none turn (a ∷ []) p e = refl
  pass-none turn (a ∷ b ∷ hashes) p e =
      let (x, e') = or_none (bytes_eq a p.h2) _ e in
      let (y, r) = or_none (bytes_eq b p.h2) _ e' in
      rw (visit-none turn a b p x y) (pass-none turn hashes p r)

  pub visit_left :
      (turn : Bool → ℕ → ℕ) (a b : List ℕ) (p : Proof)
      → bytes_eq a p.h2 ≡ true
      → visit keccak turn a b p
        ≡ record { h2 = keccak (a ++ b); branch = p.branch ++ b ∷ []; path = turn false p.path }
  unfolding visit
  visit_left turn a b p e = rw e refl

  pub visit_right :
      (turn : Bool → ℕ → ℕ) (a b : List ℕ) (p : Proof)
      → bytes_eq a p.h2 ≡ false
      → bytes_eq b p.h2 ≡ true
      → visit keccak turn a b p
        ≡ record { h2 = keccak (a ++ b); branch = p.branch ++ a ∷ []; path = turn true p.path }
  unfolding visit
  visit_right turn a b p n e = rw (n, e) refl

  pub visit-Moved :
      (turn : Bool → ℕ → ℕ) (a b : List ℕ) (p : Proof)
      → bytes_eq a p.h2 || bytes_eq b p.h2 ≡ true
      → Moved turn p (visit keccak turn a b p) × ((visit keccak turn a b p).h2 ≡ keccak (a ++ b))
  unfolding Moved
  visit-Moved turn a b p e = elim (Bool-cases (bytes_eq a p.h2)) [
    | inl y ↦
        let v = visit_left turn a b p y in
        let w : record {
          h2 = keccak (a ++ b);
          branch = p.branch ++ b ∷ [];
          path = turn false p.path;
        }
            ≡ record {
              h2 = keccak (p.h2 ++ b);
              branch = p.branch ++ b ∷ [];
              path = turn false p.path;
            } =
          ap
            (λ h. record {
              h2 = keccak (h ++ b);
              branch = p.branch ++ b ∷ [];
              path = turn false p.path;
            })
            (bytes_eq-true a p.h2 y) in
        ((false, b, v ∙ w), ap (λ q. q.h2) v)
    | inr n ↦
        let y : bytes_eq b p.h2 ≡ true = ground arith in
        let v = visit_right turn a b p n y in
        let w : record {
          h2 = keccak (a ++ b);
          branch = p.branch ++ a ∷ [];
          path = turn true p.path;
        }
            ≡ record {
              h2 = keccak (a ++ p.h2);
              branch = p.branch ++ a ∷ [];
              path = turn true p.path;
            } =
          ap
            (λ h. record {
              h2 = keccak (a ++ h);
              branch = p.branch ++ a ∷ [];
              path = turn true p.path;
            })
            (bytes_eq-true b p.h2 y) in
        ((true, a, v ∙ w), ap (λ q. q.h2) v)
  ]

  pub pass-Moved :
      (turn : Bool → ℕ → ℕ) (hashes : List (List ℕ)) (p : Proof) (m : ℕ)
      → length hashes ≡ m * 2
      → among p.h2 hashes ≡ true
      → fresh hashes ≡ true
      → Moved turn p (pass keccak turn hashes p)
        × (among (pass keccak turn hashes p).h2 (nodes keccak hashes) ≡ true)
  unfolding pass among fresh nodes
  pass-Moved turn [] p m l e f = absurd (ground arith)
  pass-Moved turn (a ∷ []) p m l e f = absurd (ground arith)
  pass-Moved turn (a ∷ b ∷ hashes) p m l e f =
      elim (Bool-cases (bytes_eq a p.h2 || bytes_eq b p.h2)) [
        | inl y ↦
            let (mv, h) = visit-Moved turn a b p y in
            let (new, _) = and_both (not (among (keccak (a ++ b)) hashes)) _ f in
            let none_left =
              pass-none turn hashes (visit keccak turn a b p)
                (ap (λ x. among x hashes) h ∙ not-false _ new) in
            subst
              (λ q.
                Moved turn p q
                × (bytes_eq (keccak (a ++ b)) q.h2 || among q.h2 (nodes keccak hashes) ≡ true))
              (sym none_left)
              (
                mv,
                or_left _ _ (ap (bytes_eq (keccak (a ++ b))) h ∙ bytes_eq_refl (keccak (a ++ b))),
              )
        | inr n ↦
            let (x, y) = or_none (bytes_eq a p.h2) (bytes_eq b p.h2) n in
            let (_, f') = and_both (not (among (keccak (a ++ b)) hashes)) _ f in
            let e' : among p.h2 hashes ≡ true = ground arith in
            let (mv, h) = pass-Moved turn hashes p (m - 1) (omega arith) e' f' in
            subst
              (λ q.
                Moved turn p (pass keccak turn hashes q)
                × (bytes_eq (keccak (a ++ b)) (pass keccak turn hashes q).h2
                      || among (pass keccak turn hashes q).h2 (nodes keccak hashes)
                    ≡ true))
              (sym (visit-none turn a b p x y)) (mv, or_right _ _ h)
      ]

  pub length-nodes :
      (hashes : List (List ℕ)) (m : ℕ) → length hashes ≡ m * 2 → length (nodes keccak hashes) ≡ m
  unfolding nodes
  length-nodes [] m l = ground arith
  length-nodes (a ∷ []) m l = absurd (ground arith)
  length-nodes (a ∷ b ∷ hashes) m l =
      let r = length-nodes hashes (m - 1) (omega arith) in omega (arith, r)
