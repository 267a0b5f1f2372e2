-- ===== src/Tools/WalletAddress/Base58.antt =====
-- WalletAddress.cpp: what a block of characters stands for.
use native.Mathlib.Nat.{div-add-mod', mod-lt}
use rxs_supported.Common.{
  ℕ, zero, suc, ◌+◌, ◌*◌, ◌/◌, ◌%◌, ◌^◌, ◌<◌, ◌≤◌, List, [], ◌∷◌, false, not, ◌||◌, ltb, ◌==◌,
  if◌then◌else◌, none, some, length, All, ◌≡◌, refl, ap, sym, ◌∙◌, arith, Bool-cases, inl, inr,
}
use rxs_supported.Tools.BlobReader.{Result, ok, rejected}
use rxs_supported.Tools.WalletAddress.{reverse_alphabet, add_digit, decode_chars}

-- A character of the alphabet, and its place there.
abbrev pub IsDigit : ℕ → Type 0
IsDigit c = (d : ℕ) × (reverse_alphabet c ≡ ok d)

-- The number of a block, given from its last character on.
unfoldable pub value : List ℕ → ℕ
value [] = 0
value (c ∷ cs) = elim (reverse_alphabet c) [ ok d ↦ d | _ ↦ 0 ] + 58 * value cs

sum_lem :
    (num p q r : ℕ)
    → num < 2 ^ 64
    → r < 2 ^ 64
    → q * 2 ^ 64 + r ≡ p
    → (if ltb ((num + r) % 2 ^ 64) num || not (q == 0) then none else some ((num + r) % 2 ^ 64))
      ≡ (if ltb (num + p) (2 ^ 64) then some (num + p) else none)
sum_lem num p q r h l e = ground arith

-- A digit is added exactly where the sum is below 2 ^ 64.
add_digit_lem :
    (num order d : ℕ)
    → num < 2 ^ 64
    → add_digit num order d
      ≡ (if ltb (num + order * d) (2 ^ 64) then some (num + order * d) else none)
unfolding add_digit
add_digit_lem num order d h =
    sum_lem num (order * d) (order * d / 2 ^ 64) (order * d % 2 ^ 64) h
      (mod-lt (order * d) {m = 2 ^ 64} (omega arith)) (div-add-mod' (order * d) (2 ^ 64))

dist_lem : (p d v : ℕ) → p * (d + 58 * v) ≡ p * d + p * 58 * v
dist_lem p d v = grind arith

-- The first `n` powers from here on are below 2 ^ 64.
Rooms : ℕ → ℕ → Type 0
Rooms zero p = Unit
Rooms (suc n) p = (p < 2 ^ 64) × Rooms n (p * 58)

rooms_lem : Rooms 11 1
unfolding Rooms
rooms_lem = (
  omega arith,
  (
    omega arith,
    (
      omega arith,
      (
        omega arith,
        (
          omega arith,
          (
            omega arith,
            (omega arith, (omega arith, (omega arith, (omega arith, (omega arith, tt))))),
          ),
        ),
      ),
    ),
  ),
)

-- A number that fits, or a refusal.
abbrev within : ℕ → Result ℕ
within n = if ltb n (2 ^ 64) then ok n else rejected

-- A sum that no longer fits does not fit with more.
more_lem : (a b : ℕ) → ltb a (2 ^ 64) ≡ false → within (a + b) ≡ rejected
more_lem a b h = ground arith

decode_nil : (num p : ℕ) → num < 2 ^ 64 → decode_chars [] num p ≡ within (num + p * value [])
unfolding decode_chars value
decode_nil num p h = ground arith

value_lem : (c d : ℕ) (cs : List ℕ) → reverse_alphabet c ≡ ok d → value (c ∷ cs) ≡ d + 58 * value cs
unfolding value
value_lem c d cs e = rw (value, e) refl

step_lem :
    (c d : ℕ) (cs : List ℕ) (num p : ℕ)
    → num < 2 ^ 64
    → reverse_alphabet c ≡ ok d
    → decode_chars (c ∷ cs) num p ≡ (
        if ltb (num + p * d) (2 ^ 64)
        then decode_chars cs (num + p * d) (p * 58 % 2 ^ 64)
        else rejected)
unfolding decode_chars
step_lem c d cs num p h e = elim (Bool-cases (ltb (num + p * d) (2 ^ 64))) [
  | inl y ↦ rw (decode_chars, e, add_digit_lem num p d h, y) refl
  | inr y ↦ rw (decode_chars, e, add_digit_lem num p d h, y) refl
]

-- What is left to do after a digit.
GoesOn : ℕ → List ℕ → ℕ → Type 0
GoesOn p cs num = decode_chars cs num (p * 58 % 2 ^ 64) ≡ within (num + p * 58 * value cs)

after_digit :
    (c d : ℕ) (cs : List ℕ) (num p : ℕ)
    → num < 2 ^ 64
    → reverse_alphabet c ≡ ok d
    → (num + p * d < 2 ^ 64 → GoesOn p cs (num + p * d))
    → decode_chars (c ∷ cs) num p ≡ within (num + p * value (c ∷ cs))
unfolding GoesOn
after_digit c d cs num p h e k =
    let v = value cs in
    elim (Bool-cases (ltb (num + p * d) (2 ^ 64))) [
      | inl y ↦
          rw (step_lem c d cs num p h e, y, value_lem c d cs e, dist_lem p d v)
            (k (ground (arith, y)) ∙ ap within (omega arith))
      | inr y ↦
          rw (step_lem c d cs num p h e, y, value_lem c d cs e, dist_lem p d v)
            (sym (more_lem (num + p * d) (p * 58 * v) y) ∙ ap within (omega arith))
    ]

last_lem :
    (num order p : ℕ) → num < 2 ^ 64 → decode_chars [] num order ≡ within (num + p * value [])
unfolding decode_chars value
last_lem num order p h = ground arith

loop_lem :
    (n : ℕ) (cs : List ℕ) (num p : ℕ)
    → length cs ≤ n
    → Rooms n p
    → num < 2 ^ 64
    → All IsDigit cs
    → decode_chars cs num p ≡ within (num + p * value cs)
unfolding Rooms GoesOn
loop_lem n [] num p l r h a = decode_nil num p h
loop_lem zero (c ∷ cs) num p l r h a = absurd (omega arith)
loop_lem (suc n) (c ∷ []) num p l r h ((d, e), a) =
    after_digit c d [] num p h e (λ m. last_lem (num + p * d) (p * 58 % 2 ^ 64) (p * 58) m)
loop_lem (suc zero) (c ∷ c' ∷ cs) num p l r h a = absurd (omega arith)
loop_lem (suc (suc n)) (c ∷ c' ∷ cs) num p l (q, (q', r)) h ((d, e), a) =
    after_digit c d (c' ∷ cs) num p h e (λ m.
      let exact : p * 58 % 2 ^ 64 ≡ p * 58 = omega arith in
      rw exact (loop_lem (suc n) (c' ∷ cs) (num + p * d) (p * 58) (omega arith) (q', r) m a))

-- A block of at most eleven characters of the alphabet, read from its last one, stands for its number to
-- the base 58 where that is below 2 ^ 64, and is refused where it is not: no sum or product of the loop
-- wraps around unseen.
pub decode_chars-value :
    (cs : List ℕ)
    → length cs ≤ 11
    → All IsDigit cs
    → decode_chars cs 0 1 ≡ (if ltb (value cs) (2 ^ 64) then ok (value cs) else rejected)
decode_chars-value cs l a = loop_lem 11 cs 0 1 l rooms_lem (omega arith) a ∙ ap within (omega arith)
