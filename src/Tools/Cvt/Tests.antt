-- ===== src/Tools/Cvt/Tests.antt =====
-- Cvt.cpp at concrete input.
use rxs_supported.Common.{ℕ, List, [], ◌∷◌, none, some, ◌≡◌, refl, arith}
use rxs_supported.Tools.Cvt.{
  hex2bin, hex2bin_loop, hex2bin_end, no_digit, val, from_hex, to_hex, bin2hex, bin2hex_loop,
  hex_pair, hex_digit,
}
use rxs_supported.Tools.Cvt.Decode.{decode, hex2bin-decode}
use rxs_supported.Tools.Cvt.RoundTrip.{from_hex-to_hex}

-- "0aFf" and "0a f".
digits_test :
    (from_hex (b'0' ∷ b'a' ∷ b'F' ∷ b'f' ∷ []) ≡ some (0x0a ∷ 0xff ∷ []))
    × (from_hex (b'0' ∷ b'a' ∷ 0x20 ∷ b'f' ∷ []) ≡ none)
    × (to_hex (0x0a ∷ 0xff ∷ []) ≡ some (b'0' ∷ b'a' ∷ b'f' ∷ b'f' ∷ []))
unfolding from_hex hex2bin hex2bin_loop hex2bin_end no_digit val to_hex bin2hex bin2hex_loop
    hex_pair hex_digit
digits_test = (refl, refl, refl)

hex2bin-decode_example : hex2bin 1 (b'F' ∷ b'0' ∷ []) ≡ decode 1 (b'F' ∷ b'0' ∷ [])
hex2bin-decode_example = hex2bin-decode 1 (b'F' ∷ b'0' ∷ []) (omega arith)

from_hex-to_hex_example :
    (hex : List ℕ) × (to_hex (0x0a ∷ 0xff ∷ []) ≡ some hex)
    × (from_hex hex ≡ some (0x0a ∷ 0xff ∷ []))
from_hex-to_hex_example =
    from_hex-to_hex (0x0a ∷ 0xff ∷ []) (omega arith) (λ e. omega arith) (omega arith)
