-- ===== src/Tools/BlobReader/Tests.antt =====
-- BlobReader.h at concrete input.
use rxs_supported.Common.{ℕ, List, [], ◌∷◌, ◌++◌, ◌≡◌, refl, arith, ◌^◌, ◌-◌}
use rxs_supported.Tools.BlobReader.{
  Reader, ok, thrown, get_varint, varint_loop, get_byte, get_bytes, get_span, put_varint,
  put_varint_loop, skip,
}
use rxs_supported.Tools.BlobReader.Varint.{Before, get_varint-put_varint}
use rxs_supported.Tools.BlobReader.Bounds.{IsSound, Safe, reads-Safe}

abbrev bytes : Reader
bytes = record { memory = 0xac ∷ 0x02 ∷ 0x07 ∷ []; size = 3; index = 0 }

varint_tests :
    (get_varint bytes ≡ ok (300, record bytes { index = 2 }))
    × (put_varint 300 ≡ 0xac ∷ 0x02 ∷ [])
    × (skip 4 bytes ≡ thrown)
    × (put_varint (2 ^ 64 - 1) ≡ 255 ∷ 255 ∷ 255 ∷ 255 ∷ 255 ∷ 255 ∷ 255 ∷ 255 ∷ 255 ∷ 1 ∷ [])
unfolding get_varint varint_loop get_byte put_varint put_varint_loop skip
varint_tests = (refl, refl, refl, refl)

bytes-Before : Before bytes (put_varint 300 ++ 7 ∷ [])
unfolding put_varint put_varint_loop
bytes-Before = refl

get_varint-put_varint_example : get_varint bytes ≡ ok (300, record bytes { index = 2 })
unfolding put_varint put_varint_loop
get_varint-put_varint_example = get_varint-put_varint 300 bytes (7 ∷ []) (omega arith) bytes-Before

bytes_at_2-IsSound : IsSound (record bytes { index = 2 })
bytes_at_2-IsSound = record { owned = omega arith; inside = omega arith; machine = omega arith }

reads-Safe_example :
    Safe (record bytes { index = 2 }) (get_byte (record bytes { index = 2 }))
    × Safe (record bytes { index = 2 }) (get_bytes 1 (record bytes { index = 2 }))
    × Safe (record bytes { index = 2 }) (get_span 1 (record bytes { index = 2 }))
    × Safe (record bytes { index = 2 }) (skip 1 (record bytes { index = 2 }))
reads-Safe_example = reads-Safe 1 (record bytes { index = 2 }) bytes_at_2-IsSound (omega arith)

abbrev ten : List ℕ
ten = 128 ∷ 128 ∷ 128 ∷ 128 ∷ 128 ∷ 128 ∷ 128 ∷ 128 ∷ 128 ∷ 128 ∷ []

abbrev overlong : Reader
overlong = record { memory = ten ++ 1 ∷ []; size = 11; index = 0 }
