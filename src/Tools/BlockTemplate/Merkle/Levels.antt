-- ===== src/Tools/BlockTemplate/Merkle/Levels.antt =====
-- BlockTemplate.cpp: the levels of a tree, up to its root.
use rxs_supported.Common.{
  ℕ, zero, suc, ◌+◌, ◌*◌, ◌^◌, ◌<◌, ◌≤◌, List, [], ◌∷◌, ◌++◌, Bool, true, false, ◌&&◌, ltb, some,
  length, length-append, ◌≡◌, refl, ap, sym, subst, ◌∙◌, arith,
}
use rxs_supported.Common.Bits.{two_pow_pos}
use native.Mathlib.Nat.{pow-suc, mul-le-mul_left}
use rxs_supported.Tools.BlockTemplate.Merkle.{
  Proof, Tree, turn_first, turn_next, join, climb, nodes, pass, reduce, finish,
}
use rxs_supported.Tools.BlockTemplate.Merkle.Among.{among, and_both, among_one}
use rxs_supported.Tools.BlockTemplate.Merkle.Climb.{bit, climb-append, two_pow_add_one, Leads}
use rxs_supported.Tools.BlockTemplate.Merkle.Pass.{Moved, fresh, pass-Moved, length-nodes}

unfoldable pub start : List ℕ → Proof
start leaf = record { h2 = leaf; branch = []; path = 0 }

pub next_path :
    (path t n : ℕ) (right : Bool)
    → path < t
    → t * (n * 2) ≤ 2 ^ 32
    → 0 < n
    → (turn_next right path ≡ path * 2 + bit right) × (path * 2 + bit right < 2 * t)
unfolding bit
next_path path t n true l r z =
    let m : t * 2 ≤ t * (n * 2) = mul-le-mul_left t (omega arith) in (omega arith, omega arith)
next_path path t n false l r z =
    let m : t * 2 ≤ t * (n * 2) = mul-le-mul_left t (omega arith) in (omega arith, omega arith)

module _ (keccak : List ℕ → List ℕ) where
  pub turn_next-Leads :
      (leaf : List ℕ) (p p' : Proof) (n : ℕ)
      → Leads keccak leaf p
      → Moved keccak turn_next p p'
      → 2 ^ length p.branch * (n * 2) ≤ 2 ^ 32
      → 0 < n
      → Leads keccak leaf p' × (2 ^ length p'.branch * n ≤ 2 ^ 32)
  unfolding Moved
  turn_next-Leads leaf p p' n l (right, sibling, e) r z =
      let (same, small) = next_path p.path (2 ^ length p.branch) n right l.path r z in
      let len : 2 ^ length (p.branch ++ sibling ∷ []) ≡ 2 * 2 ^ length p.branch =
        ap (λ t. 2 ^ t) (length-append p.branch (sibling ∷ []))
        ∙ two_pow_add_one (length p.branch) in
      subst (λ q. Leads keccak leaf q × (2 ^ length q.branch * n ≤ 2 ^ 32)) (sym e)
        (
          record {
            up =
                ap (λ t. climb keccak (p.branch ++ sibling ∷ []) t leaf) same
                ∙ climb-append keccak p.branch sibling leaf p.path right
                ∙ ap (join keccak right sibling) l.up;
            path = omega (arith, same, small, len);
          },
          subst (λ x. x * n ≤ 2 ^ 32) (sym len) (grind arith),
        )

  pub first_up :
      (right : Bool) (sibling leaf : List ℕ)
      → climb keccak (sibling ∷ []) (turn_first right 0) leaf ≡ join keccak right sibling leaf
  unfolding climb
  first_up true sibling leaf = refl
  first_up false sibling leaf = refl

  pub first_path : (right : Bool) → turn_first right 0 < 2
  first_path true = omega arith
  first_path false = omega arith

  pub turn_first-Leads :
      (leaf : List ℕ) (p' : Proof)
      → Moved keccak turn_first (start leaf) p'
      → Leads keccak leaf p' × (length p'.branch ≡ 1)
  unfolding Moved start bit
  turn_first-Leads leaf p' (right, sibling, e) =
      subst (λ q. Leads keccak leaf q × (length q.branch ≡ 1)) (sym e)
        (record { up = first_up right sibling leaf; path = first_path right }, refl)

  unfoldable pub fresh_levels : ℕ → List (List ℕ) → Bool
  fresh_levels zero ints = true
  fresh_levels (suc n) ints = fresh keccak ints && fresh_levels n (nodes keccak ints)

  pub fresh_step :
      (fuel : ℕ) (ints : List (List ℕ))
      → fresh_levels (suc fuel) ints ≡ true
      → fresh keccak ints && fresh_levels fuel (nodes keccak ints) ≡ true
  unfolding fresh_levels
  fresh_step fuel ints f = f

  pub reduce-Leads :
      (m fuel : ℕ) (ints : List (List ℕ)) (leaf : List ℕ) (p : Proof)
      → length ints ≡ 2 ^ m
      → m ≤ fuel
      → among p.h2 ints ≡ true
      → fresh_levels fuel ints ≡ true
      → Leads keccak leaf p
      → 2 ^ length p.branch * length ints ≤ 2 ^ 32
      → (t : Tree) × (finish keccak (reduce keccak fuel ints p) ≡ some t)
        × (climb keccak t.branch t.path leaf ≡ t.root)
  unfolding reduce among finish
  reduce-Leads zero fuel [] leaf p l g e f d r = absurd (omega arith)
  reduce-Leads zero zero (x ∷ []) leaf p l g e f d r = (_, refl, d.up ∙ among_one p.h2 x e)
  reduce-Leads zero (suc fuel) (x ∷ []) leaf p l g e f d r = (_, refl, d.up ∙ among_one p.h2 x e)
  reduce-Leads zero fuel (x ∷ y ∷ ints) leaf p l g e f d r = absurd (omega arith)
  reduce-Leads (suc m) zero ints leaf p l g e f d r = absurd (omega arith)
  reduce-Leads (suc m) (suc fuel) ints leaf p l g e f d r =
      let two : length ints ≡ 2 ^ m * 2 = l ∙ pow-suc 2 m in
      let pos = two_pow_pos m in
      let (fr, f') = and_both (fresh keccak ints) _ (fresh_step fuel ints f) in
      let (mv, i) = pass-Moved keccak turn_next ints p (2 ^ m) two e fr in
      let r' : 2 ^ length p.branch * (2 ^ m * 2) ≤ 2 ^ 32 =
        subst (λ x. 2 ^ length p.branch * x ≤ 2 ^ 32) two r in
      let (d', room) = turn_next-Leads leaf p (pass keccak turn_next ints p) (2 ^ m) d mv r' pos in
      let half = length-nodes keccak ints (2 ^ m) two in
      let big : ltb (length ints) 2 ≡ false = ground (arith, two, pos) in
      rw (reduce, big)
        (reduce-Leads m fuel (nodes keccak ints) leaf (pass keccak turn_next ints p) half
          (omega arith) i f' d'
          (subst (λ x. 2 ^ length (pass keccak turn_next ints p).branch * x ≤ 2 ^ 32) (sym half)
            room))
