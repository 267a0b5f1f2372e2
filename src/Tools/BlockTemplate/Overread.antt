-- ===== src/Tools/BlockTemplate/Overread.antt =====
-- The reader of the extra field of BlockTemplate.cpp, which is given its size unchecked.
use rxs_supported.Common.{
  ℕ, zero, suc, ◌+◌, ◌-◌, ◌%◌, ◌^◌, ◌≤◌, ◌<◌, List, [], ◌∷◌, ◌++◌, none, take, drop, get_elem?,
  length, length-append, take_all, All, ◌≡◌, refl, ◌∙◌, arith,
}
use rxs_supported.Tools.BlobReader.{
  Reader, ◌>>=◌, ok, fault, get_byte, get_varint, varint_loop, put_varint, put_varint_loop,
}
use rxs_supported.Tools.BlobReader.Varint.{Before, past-Before, get_varint-put_varint}
use rxs_supported.Tools.BlobReader.Bounds.{IsSound, skip_wraps}
use rxs_supported.Tools.BlockTemplate.ExtraField.{
  Extra, first_pubkey, no_extra, extra_loop, extra_field, pubkey_field, parse_extra,
}
use rxs_supported.Tools.BlockTemplate.Hang.{skip_inside}

-- Public key fields one after the other.
abbrev pub pubkeys : List (List ℕ) → List ℕ
pubkeys [] = []
pubkeys (key ∷ keys) = put_varint 1 ++ (key ++ pubkeys keys)

put_one : length (put_varint 1) ≡ 1
unfolding put_varint put_varint_loop
put_one = refl

-- At the end of the memory but not of the size.
past_end : (n i : ℕ) (xs : List ℕ) → i < n → drop i (take n xs) ≡ [] → get_elem? xs i ≡ none
past_end n i [] h e = refl
past_end zero i (x ∷ xs) h e = absurd (omega arith)
past_end (suc n) zero (x ∷ xs) h e = absurd (ground arith)
past_end (suc n) (suc i) (x ∷ xs) h e = past_end n i xs (omega arith) e

get_varint_past_end : (r : Reader) → r.index < r.size → Before r [] → get_varint r ≡ fault
unfolding get_varint varint_loop get_byte
get_varint_past_end r h b = ground (arith, past_end r.size r.index r.memory h b)

pubkey_field_lem :
    (offset : ℕ) (e : Extra) (r : Reader)
    → r.index + 32 ≤ r.size
    → r.size < 2 ^ 64
    → pubkey_field offset e r
      ≡ ok (first_pubkey ((offset + r.index) % 2 ^ 32) e, record r { index = r.index + 32 })
unfolding pubkey_field
pubkey_field_lem offset e r h s = rw (◌>>=◌, skip_inside 32 r h s) refl

loop_past_end :
    (fuel offset : ℕ) (e : Extra) (r : Reader) (keys : List (List ℕ))
    → All (λ key. length key ≡ 32) keys
    → length keys < fuel
    → r.index + length (pubkeys keys) < r.size
    → r.size < 2 ^ 64
    → Before r (pubkeys keys)
    → extra_loop fuel offset e r ≡ fault
unfolding extra_loop extra_field
loop_past_end zero offset e r keys a f h s b = absurd (omega arith)
loop_past_end (suc fuel) offset e r [] a f h s b =
    rw (◌>>=◌, get_varint_past_end r (omega arith) b) (ground arith)
loop_past_end (suc fuel) offset e r (key ∷ keys) (l, a) f h s b =
    let g = get_varint-put_varint 1 r (key ++ pubkeys keys) (omega arith) b in
    let b' = rw put_one at (past-Before r (put_varint 1) (key ++ pubkeys keys) b) in
    let n : length (pubkeys (key ∷ keys)) ≡ 33 + length (pubkeys keys) =
      length-append (put_varint 1) (key ++ pubkeys keys)
      ∙ omega (arith, length-append key (pubkeys keys), put_one) in
    let r1 : Reader = record r { index = r.index + 1 } in
    let e' = first_pubkey ((offset + (r.index + 1)) % 2 ^ 32) e in
    let p = pubkey_field_lem offset e r1 (omega arith) s in
    let b'' = rw l at (past-Before r1 key (pubkeys keys) b') in
    let rest =
      loop_past_end fuel offset e' (record r1 { index = r1.index + 32 }) keys a (omega arith)
        (omega arith) s b'' in
    rw (◌>>=◌, g, put_one, p, rest) (ground arith)

-- An extra field whose size, near 2 ^ 64, makes the reader's position wrap around is let through:
-- if the blob goes on with public key fields to its end, the loop reads past the end of the blob.
pub parse_extra_overread :
    (fuel offset back : ℕ) (r : Reader) (keys : List (List ℕ))
    → IsSound r
    → 0 < back
    → back ≤ r.index
    → drop offset r.memory ≡ pubkeys keys
    → All (λ key. length key ≡ 32) keys
    → length (pubkeys keys) + back < 2 ^ 64
    → length keys < fuel
    → parse_extra fuel offset (2 ^ 64 - back) r ≡ fault
unfolding parse_extra
parse_extra_overread fuel offset back r keys v p q e a h f =
    let extra : Reader = record {
      memory = drop offset r.memory;
      size = 2 ^ 64 - back;
      index = 0;
    } in
    let through =
      loop_past_end fuel offset no_extra extra keys a f (omega arith) (omega arith)
        (take_all (2 ^ 64 - back) (drop offset r.memory) (rw e (omega arith)) ∙ e) in
    rw (◌>>=◌, skip_wraps r back v p q, through) refl
