-- ===== src/Common/Decimal.antt =====
-- Numbers printed to the base 10, as `%d` prints those that are not negative, and read again.
use Prim.Native.Nat.{ℕ, zero, suc, ◌+◌, ◌-◌, ◌*◌, ◌/◌, ◌%◌, ◌^◌, ◌<◌, ◌≤◌}
use native.Mathlib.Nat.{div-add-mod', mod-lt}
use native.Mathlib.Numerals.{unary_clauses}
use mathlib.Core.Path.{◌≡◌, refl, ap}
use mathlib.Core.Bool.{Bool, true, ◌&&◌}
use mathlib.Core.List.{List, [], ◌∷◌}
use native.Mathlib.Omega.{arith}
use mathlib.Core.Logic.{inl, inr}
use rxs_supported.Common.Tests.{ltb, leb, Bool-cases, if_elim, if◌then◌else◌}
use rxs_supported.Common.Lists.{All, length}

-- The digits of a number of at most so many, before those that are there.
unfoldable pub decimal : ℕ → ℕ → List ℕ → List ℕ
decimal zero n acc = acc
decimal (suc fuel) n acc =
    let acc' = (b'0' + n % 10) ∷ acc in
    let more = decimal fuel (n / 10) acc' in if ltb n 10 then acc' else more

abbrev pub is_digit : ℕ → Bool
is_digit c = leb b'0' c && leb c b'9'

-- The number of the digits in front.
abbrev pub digits : ℕ → List ℕ → ℕ
digits acc [] = acc
digits acc (c ∷ cs) = if is_digit c then digits (acc * 10 + (c - b'0')) cs else acc

digit_char : (d : ℕ) → d < 10 → is_digit (b'0' + d) ≡ true
digit_char d h = ground arith

digits_step :
    (acc d : ℕ) (cs : List ℕ) → d < 10 → digits acc ((b'0' + d) ∷ cs) ≡ digits (acc * 10 + d) cs
digits_step acc d cs h = let e : (b'0' + d) - b'0' ≡ d = omega arith in rw (digit_char d h, e) refl

pub digits-decimal :
    (fuel n : ℕ) (rest : List ℕ) → n < 10 ^ fuel → digits 0 (decimal fuel n rest) ≡ digits n rest
unfolding decimal
digits-decimal zero n rest h = ap (λ m. digits m rest) (omega arith)
digits-decimal (suc fuel) n rest h =
    let h' : n < 10 ^ fuel * 10 = simp unary_clauses at h in
    let r = div-add-mod' n 10 in
    let l : n % 10 < 10 = mod-lt n {m = 10} (omega arith) in
    elim (Bool-cases (ltb n 10)) [
      | inl y ↦
          let small : n % 10 ≡ n = ground (arith, y) in
          rw (decimal, y, digits_step 0 (n % 10) rest l) (ap (λ m. digits m rest) (omega arith))
      | inr y ↦
          let more = (b'0' + n % 10) ∷ rest in
          rw
            (
              decimal,
              y,
              digits-decimal fuel (n / 10) more (omega arith),
              digits_step (n / 10) (n % 10) rest l,
            )
            (ap (λ m. digits m rest) (omega arith))
    ]

-- All its characters are digits.
pub decimal-Digits :
    (fuel n : ℕ) (rest : List ℕ)
    → All (λ c. is_digit c ≡ true) rest
    → All (λ c. is_digit c ≡ true) (decimal fuel n rest)
unfolding decimal
decimal-Digits zero n rest h = h
decimal-Digits (suc fuel) n rest h =
    let c = digit_char (n % 10) (mod-lt n {m = 10} (omega arith)) in
    if_elim (All (λ k. is_digit k ≡ true)) (ltb n 10) (c, h)
      (decimal-Digits fuel (n / 10) ((b'0' + n % 10) ∷ rest) (c, h))

pub length-decimal :
    (fuel n : ℕ) (rest : List ℕ) → length (decimal fuel n rest) ≤ fuel + length rest
unfolding decimal
length-decimal zero n rest = omega arith
length-decimal (suc fuel) n rest =
    ground (arith, length-decimal fuel (n / 10) ((b'0' + n % 10) ∷ rest))
