-- ===== src/Tools/BlockTemplate/Hashing.antt =====
-- BlockTemplate.cpp: the header of a template in the blob that is hashed.
use rxs_supported.Common.{
  ℕ, zero, suc, ◌+◌, ◌%◌, ◌^◌, ◌≤◌, ◌<◌, List, [], ◌∷◌, ◌++◌, Bool, true, false, ◌&&◌, leb,
  get_elem?, take, length, ◌≡◌, refl, arith,
}
use rxs_supported.Tools.BlobReader.{
  Reader, ok, M, ◌>>=◌, pure, index, skip, get_span, get_bytes, get_byte, get_varint, put_varint,
}
use rxs_supported.Tools.BlobReader.Agree.{Agree}
use rxs_supported.Tools.BlobReader.Locality.{
  Alike, Local, get_byte-Local, skip-Local, get_span-Local, get_bytes-Local, index-Local,
  pure-Local, bind-Local, get_varint-Local,
}
use rxs_supported.Tools.BlockTemplate.{
  Coin, is_wownero, is_zephyr, Header, when, offset32, parse_header, reader_of, hashing_blob,
}

when-Local : (b : Bool) (m : M (Unit {0})) → Local m → Local (when b m)
when-Local true m h = h
when-Local false m h = pure-Local tt

offset32-Local : Local offset32
offset32-Local =
    bind-Local index (λ i. pure (i % 2 ^ 32)) index-Local (λ i. pure-Local (i % 2 ^ 32))

parse_header-Local : (coin : Coin) → Local (parse_header coin)
unfolding parse_header
parse_header-Local coin = bind-Local get_byte _ get_byte-Local (λ major.
    bind-Local get_byte _ get_byte-Local (λ minor.
      bind-Local get_varint _ get_varint-Local (λ timestamp.
        bind-Local (get_span 32) _ (get_span-Local 32 (omega arith)) (λ prev_id.
          bind-Local offset32 _ offset32-Local (λ nonce_offset.
            bind-Local (skip 4) _ (skip-Local 4 (omega arith)) (λ _.
              bind-Local
                (when (is_wownero coin && leb 18 major)
                  (get_span 64 >>= λ _. get_bytes 2 >>= λ _. pure tt))
                _
                (when-Local _ _ (
                  bind-Local (get_span 64) _ (get_span-Local 64 (omega arith)) (λ _.
                    bind-Local (get_bytes 2) _ (get_bytes-Local 2 (omega arith))
                      (λ _. pure-Local tt))))
                (λ _.
                  bind-Local (when (is_zephyr coin) (get_bytes 120 >>= λ _. pure tt)) _
                    (when-Local _ _ (
                      bind-Local (get_bytes 120) _ (get_bytes-Local 120 (omega arith))
                        (λ _. pure-Local tt)))
                    (λ _. pure-Local (record {
                      major = major;
                      minor = minor;
                      timestamp = timestamp;
                      prev_id = prev_id;
                      nonce_offset = nonce_offset;
                    })))))))))

Agree-take_append : (n : ℕ) (xs ys : List ℕ) → n ≤ length xs → Agree n xs (take n xs ++ ys)
Agree-take_append zero xs ys h = λ i l. absurd (omega arith)
Agree-take_append (suc n) [] ys h = absurd (omega arith)
Agree-take_append (suc n) (x ∷ xs) ys h = λ i l.
    elim i as (λ i. i < suc n → get_elem? (x ∷ xs) i ≡ get_elem? (x ∷ (take n xs ++ ys)) i) [
      | zero ↦ λ l. refl
      | suc j ↦ λ l. Agree-take_append n xs ys (omega arith) j (omega arith)
    ]
      l

length-take_append : (n : ℕ) (xs ys : List ℕ) → n ≤ length xs → n ≤ length (take n xs ++ ys)
length-take_append zero xs ys h = omega arith
length-take_append (suc n) [] ys h = absurd (omega arith)
length-take_append (suc n) (x ∷ xs) ys h = omega (arith, length-take_append n xs ys (omega arith))

-- The blob that is hashed has the header of the template that it is made from: parsed from the start it gives the
-- same fields and the same place of the nonce, and ends at the same place, where the root hash
-- follows. The two blobs must be shorter than 2 ^ 63 bytes.
pub hashing_blob-header :
    (coin : Coin) (blob root_hash : List ℕ) (num_hashes : ℕ) (h : Header) (r : Reader)
    → length blob < 2 ^ 63
    → parse_header coin (reader_of blob) ≡ ok (h, r)
    → length (hashing_blob num_hashes root_hash r.index blob) < 2 ^ 63
    → parse_header coin (reader_of (hashing_blob num_hashes root_hash r.index blob))
      ≡ ok (
        h,
        record (reader_of (hashing_blob num_hashes root_hash r.index blob)) { index = r.index },
      )
unfolding hashing_blob
hashing_blob-header coin blob root_hash num_hashes h r l e s =
    let rest = root_hash ++ put_varint ((num_hashes + 1) % 2 ^ 64) in
    let (m, again) = parse_header-Local coin (reader_of blob) r h (omega arith) l e in
    let i : r.index ≤ length blob = omega (arith, m.inside, m.size) in
    let alike : Alike r.index (reader_of blob)
        (reader_of (hashing_blob num_hashes root_hash r.index blob)) =
      record {
        bytes = Agree-take_append r.index blob rest i;
        reach = length-take_append r.index blob rest i;
        small = s;
      } in
    again (reader_of (hashing_blob num_hashes root_hash r.index blob)) alike
