-- ===== src/Common/Bits.antt =====
-- Masks and disjoint fields under `&` and `|`, as arithmetic at every width.
use Prim.Native.Nat.{
  ℕ, zero, suc, ◌+◌, ◌-◌, ◌*◌, ◌/◌, ◌%◌, ◌^◌, ◌≤◌, ◌<◌, min, max, digits, bitwise, bit_and, bit_or,
  bit_and-bitwise, bit_or-bitwise,
}
use mathlib.Core.Path.{◌≡◌, refl, ap}
use native.Mathlib.Nat.{pow-suc}
use native.Mathlib.Numerals.{towards_suc}
use native.Mathlib.Omega.{arith}

-- A bit operation reads its first argument's digits; further fuel changes nothing.
module _ (z : ℕ → ℕ) (f : ℕ → ℕ → ℕ) where
  digits_enough : (m n a b : ℕ) → a ≤ m → a ≤ n → digits z f m a b ≡ digits z f n a b
  digits_enough zero zero zero b h k = refl
  digits_enough zero (suc n) zero b h k = refl
  digits_enough (suc m) zero zero b h k = refl
  digits_enough (suc m) (suc n) zero b h k = refl
  digits_enough zero n (suc a) b h k = absurd (omega arith)
  digits_enough (suc m) zero (suc a) b h k = absurd (omega arith)
  digits_enough (suc m) (suc n) (suc a) b h k =
      ap (λ (t : ℕ). t * 2 + f (suc a % 2) (b % 2))
        (digits_enough m n (suc a / 2) (b / 2) (omega arith) (omega arith))

  bitwise_unfold :
      (a b : ℕ)
      → bitwise z f (suc a) b ≡ bitwise z f (suc a / 2) (b / 2) * 2 + f (suc a % 2) (b % 2)
  bitwise_unfold a b =
      ap (λ (t : ℕ). t * 2 + f (suc a % 2) (b % 2))
        (digits_enough a (suc a / 2) (suc a / 2) (b / 2) (omega arith) (omega arith))

pub bit_and_halves : (a b : ℕ) → bit_and a b ≡ bit_and (a / 2) (b / 2) * 2 + min (a % 2) (b % 2)
bit_and_halves zero b = simp bit_and-bitwise (omega arith)
bit_and_halves (suc a) b = simp bit_and-bitwise (bitwise_unfold (λ b. zero) min a b)

pub bit_or_halves : (a b : ℕ) → bit_or a b ≡ bit_or (a / 2) (b / 2) * 2 + max (a % 2) (b % 2)
bit_or_halves zero b = simp bit_or-bitwise (omega arith)
bit_or_halves (suc a) b = simp bit_or-bitwise (bitwise_unfold (λ b. b) max a b)

bit_or-zero_upto : (n a : ℕ) → a ≤ n → bit_or a 0 ≡ a
bit_or-zero_upto n zero h = refl
bit_or-zero_upto zero (suc a) h = absurd (omega arith)
bit_or-zero_upto (suc n) (suc a) h =
    omega (arith, bit_or_halves (suc a) 0, bit_or-zero_upto n (suc a / 2) (omega arith))

bit_and-zero_upto : (n a : ℕ) → a ≤ n → bit_and a 0 ≡ 0
bit_and-zero_upto n zero h = refl
bit_and-zero_upto zero (suc a) h = absurd (omega arith)
bit_and-zero_upto (suc n) (suc a) h =
    omega (arith, bit_and_halves (suc a) 0, bit_and-zero_upto n (suc a / 2) (omega arith))

two_pow_suc : (k q : ℕ) → q * 2 ^ suc k ≡ 2 * (q * 2 ^ k)
two_pow_suc k q = omega (arith, ap (λ (t : ℕ). q * t) (pow-suc 2 k))

pub two_pow_pos : (k : ℕ) → 1 ≤ 2 ^ k
two_pow_pos zero = omega arith
two_pow_pos (suc k) = omega (arith, pow-suc 2 k, two_pow_pos k)

-- `(q << k) | r` for an `r` of `k` bits.
pub bit_or-shifted : (k q r : ℕ) → r < 2 ^ k → bit_or (q * 2 ^ k) r ≡ q * 2 ^ k + r
bit_or-shifted zero q r h = ground (arith, bit_or-zero_upto q q)
bit_or-shifted (suc k) q r h = ground (
  arith,
  bit_or_halves (q * 2 ^ suc k) r,
  two_pow_suc k q,
  pow-suc 2 k,
  bit_or-shifted k q (r / 2),
)

-- The mask of `k` low bits keeps them.
pub bit_and-low : (k q r : ℕ) → r < 2 ^ k → bit_and (q * 2 ^ k + r) (2 ^ k - 1) ≡ r
bit_and-low zero q r h = ground (arith, bit_and-zero_upto (q * 1 + r) (q * 1 + r))
bit_and-low (suc k) q r h = ground (
  arith,
  bit_and_halves (q * 2 ^ suc k + r) (2 ^ suc k - 1),
  two_pow_suc k q,
  pow-suc 2 k,
  two_pow_pos k,
  bit_and-low k q (r / 2),
)

-- The mask of `m` bits above the `k` lowest clears those, and keeps a number that it covers.
pub bit_and-high :
    (m k q r : ℕ)
    → q < 2 ^ m
    → r < 2 ^ k
    → bit_and (q * 2 ^ k + r) ((2 ^ m - 1) * 2 ^ k) ≡ q * 2 ^ k
bit_and-high m zero q r h l = ground (arith, bit_and-low m 0 q)
bit_and-high m (suc k) q r h l = ground (
  arith,
  bit_and_halves (q * 2 ^ suc k + r) ((2 ^ m - 1) * 2 ^ suc k),
  two_pow_suc k q,
  two_pow_suc k (2 ^ m - 1),
  pow-suc 2 k,
  bit_and-high m k q (r / 2),
)

bit_or-left_zero : (b : ℕ) → bit_or 0 b ≡ b
bit_or-left_zero b = simp bit_or-bitwise refl

-- `r | (q << k)`, the other way round.
pub bit_or-below : (k q r : ℕ) → r < 2 ^ k → bit_or r (q * 2 ^ k) ≡ r + q * 2 ^ k
bit_or-below zero q r h = ground (arith, bit_or-left_zero q)
bit_or-below (suc k) q r h =
    ground (
      arith,
      bit_or_halves r (q * 2 ^ suc k),
      two_pow_suc k q,
      pow-suc 2 k,
      bit_or-below k q (r / 2),
    )

pub two_pow_add_seven : (s : ℕ) → 2 ^ (s + 7) ≡ 128 * 2 ^ s
two_pow_add_seven s = simp towards_suc (omega arith)
