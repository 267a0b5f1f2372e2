-- ===== src/Tools/Cvt/RoundTrip.antt =====
-- Cvt.cpp: what `toHex` writes, `fromHex` reads back.
use rxs_supported.Common.{
  ℕ, zero, suc, ◌+◌, ◌*◌, ◌<◌, ◌≤◌, List, [], ◌∷◌, Bool, true, ltb, ◌==◌, ◌&&◌, some, length, All,
  ◌≡◌, ◌≢◌, refl, arith, all_below, all_below-true, drop_last-snoc,
}
use rxs_supported.Tools.Cvt.{
  hex_digit, hex_pair, bin2hex_loop, bin2hex, half_size_max, from_hex, to_hex,
}
use rxs_supported.Tools.Cvt.Decode.{is_hex, value, decode, hex2bin-decode}

-- Both characters of a byte are digits, lower case, and stand for it.
abbrev pair_ok : ℕ → Bool
pair_ok b =
    let (c, d) = hex_pair b in
    is_hex c && is_hex d && value c * 16 + value d == b && ltb c 256 && ltb d 256

pair_table : all_below 256 pair_ok ≡ true
unfolding all_below hex_pair hex_digit is_hex value
pair_table = refl

module _ (b : ℕ) (h : b < 256) where
  pair_digits : (is_hex (hex_pair b).0 && is_hex (hex_pair b).1) ≡ true
  pair_digits = ground (arith, all_below-true 256 pair_ok b pair_table h)

  pair_value : value (hex_pair b).0 * 16 + value (hex_pair b).1 ≡ b
  pair_value = ground (arith, all_below-true 256 pair_ok b pair_table h)

  pair_bytes : ((hex_pair b).0 < 256) × ((hex_pair b).1 < 256)
  pair_bytes = ground (arith, all_below-true 256 pair_ok b pair_table h)

abbrev pub Bytes : List ℕ → Type 0
Bytes = All (λ b. b < 256)

pub bin2hex_loop-Bytes : (bin : List ℕ) → Bytes bin → Bytes (bin2hex_loop bin)
unfolding bin2hex_loop
bin2hex_loop-Bytes [] h = tt
bin2hex_loop-Bytes (b ∷ bs) (p, h) =
    let (l, r) = pair_bytes b p in (l, (r, bin2hex_loop-Bytes bs h))

pub length-bin2hex_loop : (bin : List ℕ) → length (bin2hex_loop bin) ≡ length bin * 2
unfolding bin2hex_loop
length-bin2hex_loop [] = refl
length-bin2hex_loop (b ∷ bs) = omega (arith, length-bin2hex_loop bs)

pub decode-bin2hex_loop :
    (bin : List ℕ) (n : ℕ) → Bytes bin → length bin ≤ n → decode n (bin2hex_loop bin) ≡ some bin
unfolding decode bin2hex_loop
decode-bin2hex_loop [] n p h = refl
decode-bin2hex_loop (b ∷ bs) zero p h = absurd (omega arith)
decode-bin2hex_loop (b ∷ bs) (suc n) (p, ps) h =
    rw (pair_digits b p, pair_value b p, decode-bin2hex_loop bs n ps (omega arith))

to_hex_lem :
    (bin : List ℕ)
    → length bin ≢ 0
    → length bin < half_size_max
    → to_hex bin ≡ some (bin2hex_loop bin)
unfolding to_hex bin2hex
to_hex_lem bin h k = ground (arith, drop_last-snoc (bin2hex_loop bin) 0)

-- A nonempty string of bytes, short enough for its digits to be counted, has a text of hexadecimal
-- digits, and is read back from it.
pub from_hex-to_hex :
    (bin : List ℕ)
    → Bytes bin
    → length bin ≢ 0
    → length bin < half_size_max
    → (hex : List ℕ) × (to_hex bin ≡ some hex) × (from_hex hex ≡ some bin)
unfolding from_hex
from_hex-to_hex bin p h k = (
  bin2hex_loop bin,
  to_hex_lem bin h k,
  ground (
    arith,
    length-bin2hex_loop bin,
    hex2bin-decode (length bin) (bin2hex_loop bin) (bin2hex_loop-Bytes bin p),
    decode-bin2hex_loop bin (length bin) p,
  ),
)
