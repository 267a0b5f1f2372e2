-- ===== src/Tools/BlockTemplate/Merkle/Climb.antt =====
-- BlockTemplate.cpp: the way up from a leaf, and one more step of it.
use rxs_supported.Common.{
  ℕ, ◌+◌, ◌*◌, ◌/◌, ◌%◌, ◌^◌, ◌<◌, List, [], ◌∷◌, ◌++◌, Bool, true, false, ◌==◌, if◌then◌else◌,
  length, length-append, ◌≡◌, refl, ap, sym, ◌∙◌, arith,
}
use native.Mathlib.Nat.{pow-succ', div-div-eq-div-mul}
use rxs_supported.Tools.BlockTemplate.Merkle.{Proof, join, climb}

unfoldable pub bit : Bool → ℕ
bit right = if right then 1 else 0

pub two_pow_add_one : (d : ℕ) → 2 ^ (d + 1) ≡ 2 * 2 ^ d
two_pow_add_one d = ap (λ (e : ℕ). 2 ^ e) (omega arith) ∙ pow-succ' 2 d

pub half_bit : (p d : ℕ) (right : Bool) → (p * 2 + bit right) / 2 ^ (d + 1) ≡ p / 2 ^ d
unfolding bit
half_bit p d true =
    ap (λ t. (p * 2 + 1) / t) (two_pow_add_one d)
    ∙ sym (div-div-eq-div-mul (p * 2 + 1) 2 (2 ^ d))
    ∙ ap (λ t. t / 2 ^ d) (omega arith)
half_bit p d false =
    ap (λ t. (p * 2 + 0) / t) (two_pow_add_one d)
    ∙ sym (div-div-eq-div-mul (p * 2 + 0) 2 (2 ^ d))
    ∙ ap (λ t. t / 2 ^ d) (omega arith)

pub last_bit : (p : ℕ) (right : Bool) → ((p * 2 + bit right) / 2 ^ 0 % 2 == 1) ≡ right
unfolding bit
last_bit p true = ground arith
last_bit p false = ground arith

module _ (keccak : List ℕ → List ℕ) where
  pub climb-append :
      (branch : List (List ℕ)) (sibling hash : List ℕ) (path : ℕ) (right : Bool)
      → climb keccak (branch ++ sibling ∷ []) (path * 2 + bit right) hash
        ≡ join keccak right sibling (climb keccak branch path hash)
  unfolding climb
  climb-append [] sibling hash path right = rw (climb, last_bit path right) refl
  climb-append (x ∷ branch) sibling hash path right =
      rw (climb, length-append branch (sibling ∷ []), half_bit path (length branch) right)
        (climb-append branch sibling (join keccak (path / 2 ^ length branch % 2 == 1) x hash) path
          right)

  -- The way from the leaf is right so far.
  pub record Leads (leaf : List ℕ) (p : Proof) : Type 0 where
    pub up : climb keccak p.branch p.path leaf ≡ p.h2
    pub path : p.path < 2 ^ length p.branch
