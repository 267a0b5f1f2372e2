-- ===== src/Net/Job/Strtoull.antt =====
-- strtoull of the C library to the base 16, which Job::setTarget calls.
use rxs_supported.Common.{
  ℕ, ◌+◌, ◌-◌, ◌*◌, ◌%◌, ◌^◌, ◌<◌, arith, List, [], ◌∷◌, Bool, true, false, ◌&&◌, ◌||◌, leb, ◌==◌,
  if◌then◌else◌,
}
use rxs_supported.Tools.Cvt.Decode.{is_hex, value}

abbrev is_space : ℕ → Bool
is_space c = c == 32 || (leb 9 c && leb c 13)

abbrev skip_space : List ℕ → List ℕ
skip_space [] = []
skip_space (c ∷ cs) = if is_space c then skip_space cs else c ∷ cs

abbrev digits : ℕ → List ℕ → ℕ
digits acc [] = acc
digits acc (c ∷ cs) = if is_hex c then digits (acc * 16 + value c) cs else acc

abbrev is_x : ℕ → Bool
is_x c = c == 120 || c == 88

-- `0x` before the digits is passed over: read as digits it is a zero, and ends them.
abbrev magnitude : List ℕ → ℕ
magnitude (z ∷ x ∷ cs) = if z == 48 && is_x x then digits 0 cs else digits 0 (z ∷ x ∷ cs)
magnitude cs = digits 0 cs

abbrev limited : Bool → ℕ → ℕ
limited negative n =
    if leb (2 ^ 64) n then 2 ^ 64 - 1 else if negative then (2 ^ 64 - n) % 2 ^ 64 else n

abbrev signed : List ℕ → ℕ
signed [] = 0
signed (c ∷ cs) =
    if c == 45
    then limited true (magnitude cs)
    else if c == 43
    then limited false (magnitude cs)
    else limited false (magnitude (c ∷ cs))

unfoldable pub strtoull : List ℕ → ℕ
strtoull text = signed (skip_space text)

limited-Word : (negative : Bool) (n : ℕ) → limited negative n < 2 ^ 64
limited-Word negative n = ground arith

signed-Word : (text : List ℕ) → signed text < 2 ^ 64
signed-Word [] = omega arith
signed-Word (c ∷ cs) = ground (
  arith,
  limited-Word true (magnitude cs),
  limited-Word false (magnitude cs),
  limited-Word false (magnitude (c ∷ cs)),
)

pub strtoull-Word : (text : List ℕ) → strtoull text < 2 ^ 64
unfolding strtoull
strtoull-Word text = signed-Word (skip_space text)
