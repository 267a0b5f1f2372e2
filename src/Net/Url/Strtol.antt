-- ===== src/Net/Url/Strtol.antt =====
-- strtol of the C library to the base 10, which Url::parse calls, with a long of 64 bits.
use rxs_supported.Common.Decimal.{is_digit, digits, decimal, digits-decimal, decimal-Digits}
use rxs_supported.Common.{
  ℕ, ◌-◌, ◌%◌, ◌^◌, List, [], ◌∷◌, Bool, true, false, ◌&&◌, ◌||◌, ltb, leb, ◌==◌, if◌then◌else◌,
  ◌≡◌, ◌<◌, refl, arith, All,
}

abbrev is_space : ℕ → Bool
is_space c = c == 32 || (leb 9 c && leb c 13)

abbrev skip_space : List ℕ → List ℕ
skip_space [] = []
skip_space (c ∷ cs) = if is_space c then skip_space cs else c ∷ cs

-- The number as the 64 bits of a long, held at its least and its greatest value.
abbrev pub limited : Bool → ℕ → ℕ
limited true n = if ltb (2 ^ 63) n then 2 ^ 63 else (2 ^ 64 - n) % 2 ^ 64
limited false n = if leb (2 ^ 63) n then 2 ^ 63 - 1 else n

abbrev signed : List ℕ → ℕ
signed [] = 0
signed (c ∷ cs) =
    if c == b'-'
    then limited true (digits 0 cs)
    else if c == b'+'
    then limited false (digits 0 cs)
    else limited false (digits 0 (c ∷ cs))

unfoldable pub strtol : List ℕ → ℕ
strtol text = signed (skip_space text)

-- A text that begins with a digit.
signed_digits :
    (c : ℕ) (cs : List ℕ) → is_digit c ≡ true → strtol (c ∷ cs) ≡ limited false (digits 0 (c ∷ cs))
unfolding strtol
signed_digits c cs h = ground arith

starts_lem :
    (text : List ℕ)
    → All (λ c. is_digit c ≡ true) text
    → strtol text ≡ limited false (digits 0 text)
unfolding strtol
starts_lem [] h = refl
starts_lem (c ∷ cs) (h, k) = signed_digits c cs h

-- A port that is printed is read.
pub strtol-decimal : (port : ℕ) → port < 2 ^ 16 → strtol (decimal 5 port []) % 2 ^ 16 ≡ port
strtol-decimal port h =
    rw
      (
        starts_lem (decimal 5 port []) (decimal-Digits 5 port [] tt),
        digits-decimal 5 port [] (omega arith),
      )
      (ground arith)
