-- ===== src/Tools/BlockTemplate/Hang.antt =====
-- The loop over the extra field of BlockTemplate.cpp on a field whose size wraps around.
use rxs_supported.Common.{
  ℕ, zero, suc, ◌+◌, ◌-◌, ◌%◌, ◌^◌, ◌≤◌, ◌<◌, List, ◌++◌, some, take, drop, length, ◌≡◌, refl,
  arith,
}
use rxs_supported.Tools.BlobReader.{
  Reader, ◌>>=◌, Span, ok, running, skip, get_span, put_varint, put_varint_loop,
}
use rxs_supported.Tools.BlobReader.Varint.{Before, past-Before, get_varint-put_varint}
use rxs_supported.Tools.BlockTemplate.ExtraField.{
  Extra, no_extra, extra_loop, extra_field, sized_field, parse_extra,
}

looping_lengths : (length (put_varint 2) ≡ 1) × (length (put_varint (2 ^ 64 - 11)) ≡ 10)
unfolding put_varint put_varint_loop
looping_lengths = (refl, refl)

-- A reader that has moved by a multiple of 2 ^ 64 is where it was.
sized_field_back :
    (offset : ℕ) (r : Reader) (after : List ℕ)
    → r.index + 10 ≤ r.size
    → 0 < r.index
    → r.size < 2 ^ 64
    → Before r (put_varint (2 ^ 64 - 11) ++ after)
    → sized_field offset r
      ≡ ok (
        ((offset + (r.index + 10)) % 2 ^ 32, record { start = r.index + 10; size = 2 ^ 64 - 11 }),
        record r { index = r.index - 1 },
      )
unfolding sized_field get_span
sized_field_back offset r after h p s b =
    let (_, l) = looping_lengths in
    let g = get_varint-put_varint (2 ^ 64 - 11) r after (omega arith) b in
    rw (◌>>=◌, g, l) (ground (arith, l))

-- One round reads the tag and the size, and comes back to where it was.
round_back :
    (fuel offset : ℕ) (e : Extra) (r : Reader) (after : List ℕ)
    → r.index + 11 ≤ r.size
    → r.size < 2 ^ 64
    → Before r (put_varint 2 ++ (put_varint (2 ^ 64 - 11) ++ after))
    → ((e' : Extra) → extra_loop fuel offset e' r ≡ running)
    → extra_loop (suc fuel) offset e r ≡ running
unfolding extra_loop extra_field
round_back fuel offset e r after h s b next =
    let (l, _) = looping_lengths in
    let g = get_varint-put_varint 2 r (put_varint (2 ^ 64 - 11) ++ after) (omega arith) b in
    let b' = rw l at (past-Before r (put_varint 2) (put_varint (2 ^ 64 - 11) ++ after) b) in
    let f =
      sized_field_back offset (record r { index = r.index + 1 }) after (omega arith) (omega arith) s
        b' in
    let k : r.index + 1 - 1 ≡ r.index = omega arith in
    let at_size : Span = record { start = r.index + 1 + 10; size = 2 ^ 64 - 11 } in
    let n = next (record e { nonce = some ((offset + (r.index + 1 + 10)) % 2 ^ 32, at_size) }) in
    rw (◌>>=◌, g, l, f, k, n) (ground arith)

loop_back :
    (fuel offset : ℕ) (e : Extra) (r : Reader) (after : List ℕ)
    → r.index + 11 ≤ r.size
    → r.size < 2 ^ 64
    → Before r (put_varint 2 ++ (put_varint (2 ^ 64 - 11) ++ after))
    → extra_loop fuel offset e r ≡ running
unfolding extra_loop
loop_back zero offset e r after h s b = ground arith
loop_back (suc fuel) offset e r after h s b =
    round_back fuel offset e r after h s b (λ e'. loop_back fuel offset e' r after h s b)

pub skip_inside :
    (n : ℕ) (r : Reader)
    → r.index + n ≤ r.size
    → r.size < 2 ^ 64
    → skip n r ≡ ok (tt, record r { index = r.index + n })
unfolding skip
skip_inside n r h s = ground arith

-- An extra field that starts with a nonce tag of size 2 ^ 64 - 11 is never parsed to its end: the
-- loop over it is still running whatever the fuel, for each round ends where it began. The field
-- must lie inside the blob, with at least these eleven bytes.
pub parse_extra-looping :
    (fuel offset size : ℕ) (r : Reader) (after : List ℕ)
    → r.index + size ≤ r.size
    → r.size < 2 ^ 64
    → 11 ≤ size
    → take size (drop offset r.memory) ≡ put_varint 2 ++ (put_varint (2 ^ 64 - 11) ++ after)
    → parse_extra fuel offset size r ≡ running
unfolding parse_extra
parse_extra-looping fuel offset size r after h s l e =
    let extra : Reader = record { memory = drop offset r.memory; size = size; index = 0 } in
    let back = loop_back fuel offset no_extra extra after (omega arith) (omega arith) e in
    rw (◌>>=◌, skip_inside size r h s, back) refl
