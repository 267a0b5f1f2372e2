-- ===== src/Tools/Cvt.antt =====
-- base/tools/Cvt.cpp: bytes to hexadecimal digits and back, in arithmetic without branches. Unsigned
-- int has 32 bits, unsigned char 8.
pub mod Decode
pub mod RoundTrip
mod Tests
use Prim.Native.Nat.{bit_and, bit_or, bit_xor}
use rxs_supported.Common.{
  ℕ, ◌+◌, ◌-◌, ◌*◌, ◌/◌, ◌%◌, ◌^◌, List, [], ◌∷◌, ◌++◌, Bool, true, false, ltb, leb, ◌==◌, ◌||◌,
  if◌then◌else◌, Option, none, some, length, drop_last,
}

abbrev pub u8 : ℕ → ℕ
u8 n = n % 256

abbrev pub u32 : ℕ → ℕ
u32 n = n % 2 ^ 32

-- `a - b` of unsigned ints.
abbrev pub sub32 : ℕ → ℕ → ℕ
sub32 a b = (a + 2 ^ 32 - b) % 2 ^ 32

-- `~a` of an unsigned int.
abbrev pub not32 : ℕ → ℕ
not32 a = 2 ^ 32 - 1 - a

-- `(unsigned char) (87U + c + (((c - 10U) >> 8) & ~38U))`.
unfoldable pub hex_digit : ℕ → ℕ
hex_digit c = u8 (u32 (87 + c + bit_and (sub32 c 10 / 2 ^ 8) (not32 38)))

-- The two characters of a byte: `x` holds the second above the first.
unfoldable pub hex_pair : ℕ → ℕ × ℕ
hex_pair byte =
    let c = bit_and byte 0xf in
    let b = byte / 2 ^ 4 in
    let x = bit_or (hex_digit c * 2 ^ 8) (hex_digit b) in (u8 x, u8 (x / 2 ^ 8))

unfoldable pub bin2hex_loop : List ℕ → List ℕ
bin2hex_loop [] = []
bin2hex_loop (byte ∷ bytes) = (hex_pair byte).0 ∷ (hex_pair byte).1 ∷ bin2hex_loop bytes

-- SIZE_MAX / 2.
abbrev pub half_size_max : ℕ
half_size_max = 0x7fff_ffff_ffff_ffff

-- What is written to `hex`, with the zero that ends it where there is room.
unfoldable pub bin2hex : ℕ → List ℕ → Option (List ℕ)
bin2hex hex_maxlen bin =
    if leb half_size_max (length bin) || ltb hex_maxlen (length bin * 2)
    then none
    else some (bin2hex_loop bin ++ (if ltb (length bin * 2) hex_maxlen then 0 ∷ [] else []))

-- The two masks and the value that the loop of `cvt_hex2bin` makes of a character.
unfoldable pub num : ℕ → ℕ
num c = bit_xor c 48

unfoldable pub num0 : ℕ → ℕ
unfolding num
num0 c = u8 (sub32 (num c) 10 / 2 ^ 8)

unfoldable pub alpha : ℕ → ℕ
alpha c = u8 (sub32 (bit_and c (not32 32)) 55)

unfoldable pub alpha0 : ℕ → ℕ
unfolding alpha
alpha0 c = u8 (bit_xor (sub32 (alpha c) 10) (sub32 (alpha c) 16) / 2 ^ 8)

unfoldable pub no_digit : ℕ → Bool
unfolding num0 alpha0
no_digit c = bit_or (num0 c) (alpha0 c) == 0

unfoldable pub val : ℕ → ℕ
unfolding num num0 alpha alpha0
val c = bit_or (bit_and (num0 c) (num c)) (bit_and (alpha0 c) (alpha c))

-- The loop with `ignore` null, as it is in every call. `acc` is `c_acc` where `state` is not 0. A
-- result is `ret`, what has been written, `acc` and the characters left.
pub record Scan : Type 0 where
  pub failed : Bool
  pub bin : List ℕ
  pub acc : Option ℕ
  pub rest : List ℕ

unfoldable pub hex2bin_loop : ℕ → List ℕ → Option ℕ → List ℕ → Scan
hex2bin_loop maxlen bin acc [] = record { failed = false; bin = bin; acc = acc; rest = [] }
hex2bin_loop maxlen bin none (c ∷ cs) =
    let more = hex2bin_loop maxlen bin (some (u8 (val c * 16))) cs in
    if no_digit c
    then record { failed = false; bin = bin; acc = none; rest = c ∷ cs }
    else if leb maxlen (length bin)
    then record { failed = true; bin = bin; acc = none; rest = c ∷ cs }
    else more
hex2bin_loop maxlen bin (some a) (c ∷ cs) =
    let more = hex2bin_loop maxlen (bin ++ bit_or a (val c) ∷ []) none cs in
    if no_digit c
    then record { failed = false; bin = bin; acc = some a; rest = c ∷ cs }
    else if leb maxlen (length bin)
    then record { failed = true; bin = bin; acc = some a; rest = c ∷ cs }
    else more

-- What follows the loop, with `hex_end` and `bin_len` null; `none` is the answer -1.
unfoldable pub hex2bin_end : Scan → Option (List ℕ)
hex2bin_end s = elim s.acc [
  | some a ↦ none
  | none ↦ if s.failed then none else elim s.rest [ [] ↦ some s.bin | _ ∷ _ ↦ none ]
]

unfoldable pub hex2bin : ℕ → List ℕ → Option (List ℕ)
hex2bin maxlen hex = hex2bin_end (hex2bin_loop maxlen [] none hex)

-- Cvt::fromHex into a buffer of its own size.
unfoldable pub from_hex : List ℕ → Option (List ℕ)
from_hex hex = if length hex == 0 then none else hex2bin (length hex / 2) hex

-- Cvt::toHex into a string of its own size; its zero is dropped.
unfoldable pub to_hex : List ℕ → Option (List ℕ)
to_hex bin =
    if length bin == 0
    then none
    else elim (bin2hex (length bin * 2 + 1) bin) [ none ↦ none | some hex ↦ some (drop_last hex) ]
