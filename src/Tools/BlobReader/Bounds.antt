-- ===== src/Tools/BlobReader/Bounds.antt =====
-- BlobReader.h at the bounds of its buffer and of its machine types.
use Prim.Native.Nat.{bit_and, bit_or}
use rxs_supported.Common.{
  ℕ, zero, suc, ◌+◌, ◌-◌, ◌*◌, ◌%◌, ◌^◌, ◌≤◌, ◌<◌, List, [], ◌∷◌, ◌++◌, Bool, true, false, not, ltb,
  ◌==◌, if◌then◌else◌, none, get_elem?, length, All, ◌≡◌, ◌≢◌, refl, arith, all_below,
  all_below-true,
}
use rxs_supported.Tools.BlobReader.{
  Reader, Result, ok, rejected, thrown, fault, running, skip, get_span, copy, get_bytes, get_byte,
  varint_loop, get_varint,
}
use rxs_supported.Tools.BlobReader.Varint.{Before, get_byte-Before}

-- The reader owns what it reads, and its sizes are size_t.
pub record IsSound (r : Reader) : Type 0 where
  pub owned : r.size ≤ length r.memory
  pub inside : r.index ≤ r.size
  pub machine : r.size < 2 ^ 64

get_elem?_some : (xs : List ℕ) (i : ℕ) → i < length xs → get_elem? xs i ≢ none
get_elem?_some [] i h = absurd (omega arith)
get_elem?_some (x ∷ xs) zero h = λ e. cc
get_elem?_some (x ∷ xs) (suc i) h = get_elem?_some xs i (omega arith)

-- What a read may end with: a sound reader over the same memory, or the exception.
abbrev pub Safe : {A : Type 0} → Reader → Result (A × Reader) → Type 0
Safe r (ok (a, r')) = IsSound r' × (r'.memory ≡ r.memory) × (r.index ≤ r'.index)
Safe r thrown = Unit
Safe r rejected = ⊥
Safe r running = ⊥
Safe r fault = ⊥

get_byte-Safe : (r : Reader) → IsSound r → Safe r (get_byte r)
unfolding get_byte
get_byte-Safe r v = ground (arith, get_elem?_some r.memory r.index)

get_bytes-Safe : (n : ℕ) (r : Reader) → IsSound r → r.index + n < 2 ^ 64 → Safe r (get_bytes n r)
unfolding get_bytes copy
get_bytes-Safe n r v h = ground arith

skip-Safe : (n : ℕ) (r : Reader) → IsSound r → r.index + n < 2 ^ 64 → Safe r (skip n r)
unfolding skip
skip-Safe n r v h = ground arith

get_span-Safe : (n : ℕ) (r : Reader) → IsSound r → r.index + n < 2 ^ 64 → Safe r (get_span n r)
unfolding get_span
get_span-Safe n r v h = ground arith

-- From a reader that owns its bytes, each read of a byte, of `n` bytes, of a span and each skip ends in the
-- exception or further on inside the same memory, and never reads past it, if `n` from its position
-- is a size_t.
pub reads-Safe :
    (n : ℕ) (r : Reader)
    → IsSound r
    → r.index + n < 2 ^ 64
    → Safe r (get_byte r) × Safe r (get_bytes n r) × Safe r (get_span n r) × Safe r (skip n r)
reads-Safe n r v h =
    (get_byte-Safe r v, get_bytes-Safe n r v h, get_span-Safe n r v h, skip-Safe n r v h)

-- A skip by nearly 2 ^ 64 is not refused: the sum wraps around, and the reader moves back.
pub skip_wraps :
    (r : Reader) (back : ℕ)
    → IsSound r
    → 0 < back
    → back ≤ r.index
    → skip (2 ^ 64 - back) r ≡ ok (tt, record r { index = r.index - back })
unfolding skip
skip_wraps r back v h k = ground arith

-- Bytes with the top bit set, which do not end a varint.
abbrev pub GoesOn : ℕ → Type 0
GoesOn b = (128 ≤ b) × (b < 256)

goes_on : ℕ → Bool
goes_on b = if ltb b 128 then true else not (bit_and b 0x80 == 0)

goes_on_table : all_below 256 goes_on ≡ true
unfolding all_below goes_on
goes_on_table = refl

goes_on_lem : (b : ℕ) → GoesOn b → (bit_and b 0x80 == 0) ≡ false
unfolding goes_on
goes_on_lem b (h, k) = ground (arith, all_below-true 256 goes_on b goes_on_table k)

loop_too_long :
    (fuel shift result : ℕ) (r : Reader) (bytes : List ℕ) (c : ℕ) (after : List ℕ)
    → All GoesOn bytes
    → 64 ≤ shift + 7 * length bytes
    → length bytes ≤ fuel
    → Before r (bytes ++ c ∷ after)
    → varint_loop (suc fuel) shift result r ≡ fault
unfolding varint_loop
loop_too_long fuel shift result r [] c after h s l b =
    rw ((get_byte-Before r c after b).0, varint_loop) (ground arith)
loop_too_long zero shift result r (d ∷ bytes) c after h s l b = absurd (omega arith)
loop_too_long (suc fuel) shift result r (d ∷ bytes) c after (h, hs) s l b =
    let (g, b') = get_byte-Before r d (bytes ++ c ∷ after) b in
    let v = bit_or result (bit_and d 0x7f * 2 ^ shift % 2 ^ 64) in
    rw (g, varint_loop, goes_on_lem d h)
      (ground (
        arith,
        loop_too_long fuel (shift + 7) v (record r { index = r.index + 1 }) bytes c after hs,
      ))

-- A varint that ten bytes do not end is read on with a shift by the width of the result or more,
-- which is undefined.
get_varint_too_long :
    (r : Reader) (bytes : List ℕ) (c : ℕ) (after : List ℕ)
    → All GoesOn bytes
    → length bytes ≡ 10
    → Before r (bytes ++ c ∷ after)
    → get_varint r ≡ fault
unfolding get_varint
get_varint_too_long r bytes c after h l b =
    loop_too_long 10 0 0 r bytes c after h (omega arith) (omega arith) b
