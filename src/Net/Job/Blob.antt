-- ===== src/Net/Job/Blob.antt =====
-- Job.cpp: setBlob.
use mathlib.Core.Option
use rxs_supported.Common.{
  take-append, ℕ, zero, suc, ◌+◌, ◌*◌, ◌/◌, ◌%◌, ◌≤◌, ◌<◌, List, [], ◌∷◌, Bool, true, false, not,
  ◌&&◌, ◌||◌, ltb, leb, ◌==◌, if◌then◌else◌, Option, none, some, take, drop, length, length-append,
  All, ◌≡◌, refl, ap, sym, subst, ◌∙◌, arith, Bool-cases, Option-cases, inl, inr,
}
use rxs_supported.Tools.Cvt.{Scan, bin2hex_loop, hex2bin, hex2bin_loop, hex2bin_end}
use rxs_supported.Tools.Cvt.Decode.{is_hex, value, decode, hex2bin-decode}
use rxs_supported.Tools.Cvt.RoundTrip.{length-bin2hex_loop, bin2hex_loop-Bytes, decode-bin2hex_loop}
use rxs_supported.Net.Job.{
  Job, set_blob, fill_blob, max_blob_size, nonce_offset, nonce_size, read_nonce, with_bytes,
  see_nicehash,
}

length-drop : (n : ℕ) (xs : List ℕ) → n ≤ length xs → n + length (drop n xs) ≡ length xs
length-drop zero xs h = omega arith
length-drop (suc n) [] h = absurd (omega arith)
length-drop (suc n) (x ∷ xs) h = omega (arith, length-drop n xs (omega arith))

-- What has been written is what is answered.
end_bin : (s : Scan) (bytes : List ℕ) → hex2bin_end s ≡ some bytes → s.bin ≡ bytes
unfolding hex2bin_end
end_bin s bytes e = ground arith

length-cons :
    (v : ℕ) (o : Option (List ℕ)) (n : ℕ) (bytes : List ℕ)
    → ((t : List ℕ) → o ≡ some t → length t * 2 ≡ n)
    → Option.map (λ t. v ∷ t) o ≡ some bytes
    → length bytes * 2 ≡ 2 + n
length-cons v none n bytes k e = absurd (ground arith)
length-cons v (some t) n [] k e = absurd (ground arith)
length-cons v (some t) n (b ∷ bytes) k e = omega (arith, k bytes (ground arith))

length-decode :
    (n : ℕ) (hex bytes : List ℕ) → decode n hex ≡ some bytes → length bytes * 2 ≡ length hex
unfolding decode
length-decode n [] [] e = refl
length-decode n [] (b ∷ bytes) e = absurd (ground arith)
length-decode n (c ∷ []) bytes e = absurd (ground arith)
length-decode zero (c ∷ d ∷ cs) bytes e = absurd (ground arith)
length-decode (suc n) (c ∷ d ∷ cs) bytes e = elim (Bool-cases (is_hex c && is_hex d)) [
  | inl x ↦
      length-cons (value c * 16 + value d) (decode n cs) (length cs) bytes
        (λ t. length-decode n cs t) (rw x at e)
      ∙ omega arith
  | inr x ↦ absurd (ground (arith, x))
]

fill_blob_lem :
    (s : Scan) (bytes : List ℕ) (size : ℕ) (j : Job)
    → hex2bin_end s ≡ some bytes
    → fill_blob s size j ≡ (true, record (see_nicehash (with_bytes bytes j)) { size = size })
unfolding fill_blob
fill_blob_lem s bytes size j e = rw (fill_blob, e, end_bin s bytes e) refl

scan_bytes :
    (hex bytes : List ℕ)
    → All (λ c. c < 256) hex
    → decode max_blob_size hex ≡ some bytes
    → hex2bin_end (hex2bin_loop max_blob_size [] none hex) ≡ some bytes
unfolding hex2bin
scan_bytes hex bytes h d = hex2bin-decode max_blob_size hex h ∙ d

or_nicehash :
    (zero_nonce nicehash : Bool)
    → (if not zero_nonce && not nicehash then true else nicehash) ≡ (nicehash || not zero_nonce)
or_nicehash zero_nonce nicehash = ground arith

see_nicehash_if :
    (b : Bool) (j : Job)
    → (if b then record j { nicehash = true } else j)
      ≡ record j { nicehash = if b then true else j.nicehash }
see_nicehash_if true j = refl
see_nicehash_if false j = refl

see_nicehash_lem :
    (j : Job) → see_nicehash j ≡ record j { nicehash = j.nicehash || not (read_nonce j == 0) }
see_nicehash_lem j =
    see_nicehash_if (not (read_nonce j == 0) && not j.nicehash) j
    ∙ ap (λ (b : Bool). record j { nicehash = b }) (or_nicehash (read_nonce j == 0) j.nicehash)

half_lem : (n size : ℕ) → n ≡ size * 2 → ((n % 2 == 0) ≡ true) × (n / 2 ≡ size)
half_lem n size e = (ground arith, omega arith)

within :
    (lo size : ℕ)
    → lo ≤ size
    → size < max_blob_size
    → (ltb size lo ≡ false) × (leb max_blob_size size ≡ false)
within lo size p q = (ground arith, ground arith)

-- The guards of `setBlob`, at a text for `size` bytes.
set_blob_lem :
    (hex : List ℕ) (size : ℕ) (j : Job)
    → length hex ≡ size * 2
    → nonce_offset j + nonce_size ≤ size
    → size < max_blob_size
    → set_blob (some hex) j ≡ fill_blob (hex2bin_loop max_blob_size [] none hex) size j
unfolding set_blob
set_blob_lem hex size j e p q =
    let (even, half) = half_lem (length hex) size e in
    let (lo, hi) = within (nonce_offset j + nonce_size) size p q in
    rw (set_blob, even, half, lo, hi) refl

-- The text of a blob of bytes that reaches past the nonce and fits in the buffer is taken, and the
-- job then has these bytes at the front of its buffer, what was behind them as before, their number as its
-- size, and is a nicehash job if it was one or if the bytes of the nonce are not all zero.
pub set_blob-bin2hex :
    (bytes : List ℕ) (j : Job)
    → All (λ b. b < 256) bytes
    → nonce_offset j + nonce_size ≤ length bytes
    → length bytes < max_blob_size
    → set_blob (some (bin2hex_loop bytes)) j ≡ (
      true,
      record (with_bytes bytes j) {
        size = length bytes;
        nicehash = j.nicehash || not (read_nonce (with_bytes bytes j) == 0);
      },
    )
set_blob-bin2hex bytes j h p q =
    let hex = bin2hex_loop bytes in
    let l = length-bin2hex_loop bytes in
    let d = decode-bin2hex_loop bytes max_blob_size h (omega arith) in
    let e = scan_bytes hex bytes (bin2hex_loop-Bytes bytes h) d in
    set_blob_lem hex (length bytes) j l p q
    ∙ fill_blob_lem (hex2bin_loop max_blob_size [] none hex) bytes (length bytes) j e
    ∙ ap (λ (k : Job). (true, record k { size = length bytes }))
        (see_nicehash_lem (with_bytes bytes j))

filled :
    (hex bytes : List ℕ) (j : Job)
    → All (λ c. c < 256) hex
    → decode max_blob_size hex ≡ some bytes
    → fill_blob (hex2bin_loop max_blob_size [] none hex) (length hex / 2) j ≡ (
      true,
      record (with_bytes bytes j) {
        size = length bytes;
        nicehash = j.nicehash || not (read_nonce (with_bytes bytes j) == 0);
      },
    )
filled hex bytes j h d =
    let (_, half) =
      half_lem (length hex) (length bytes) (sym (length-decode max_blob_size hex bytes d)) in
    fill_blob_lem (hex2bin_loop max_blob_size [] none hex) bytes (length hex / 2) j
      (scan_bytes hex bytes h d)
    ∙ ap (λ (k : Job). (true, record k { size = length hex / 2 }))
        (see_nicehash_lem (with_bytes bytes j))
    ∙ ap
        (λ (n : ℕ). (
          true,
          record (with_bytes bytes j) {
            size = n;
            nicehash = j.nicehash || not (read_nonce (with_bytes bytes j) == 0);
          },
        ))
        half

not_filled :
    (hex : List ℕ) (size : ℕ) (j : Job)
    → All (λ c. c < 256) hex
    → decode max_blob_size hex ≡ none
    → (fill_blob (hex2bin_loop max_blob_size [] none hex) size j).0 ≡ false
unfolding fill_blob hex2bin
not_filled hex size j h d =
    let e : hex2bin_end (hex2bin_loop max_blob_size [] none hex) ≡ none =
      hex2bin-decode max_blob_size hex h ∙ d in
    rw (fill_blob, e) refl

-- What a job holds after a blob is taken.
pub record HoldsBlob (hex : List ℕ) (j : Job) : Type 0 where
  pub decoded : decode max_blob_size hex ≡ some (take j.size j.blob)
  pub nonce_inside : nonce_offset j + nonce_size ≤ j.size
  pub fits : j.size < max_blob_size
  pub whole : length j.blob ≡ max_blob_size

filled-HoldsBlob :
    (hex bytes : List ℕ) (nicehash : Bool) (j : Job)
    → decode max_blob_size hex ≡ some bytes
    → nonce_offset j + nonce_size ≤ length bytes
    → length bytes < max_blob_size
    → length j.blob ≡ max_blob_size
    → HoldsBlob hex (record (with_bytes bytes j) { size = length bytes; nicehash = nicehash })
filled-HoldsBlob hex bytes nicehash j d p q w = record {
  decoded = d ∙ ap some (sym (take-append bytes (drop (length bytes) j.blob)));
  nonce_inside = p;
  fits = q;
  whole =
      length-append bytes (drop (length bytes) j.blob)
      ∙ length-drop (length bytes) j.blob (omega arith)
      ∙ w;
}

past_guards :
    (a b : Bool) (m : Bool × Job) (j j' : Job)
    → (if a then (false, j) else if b then (false, j) else m) ≡ (true, j')
    → (b ≡ false) × (m ≡ (true, j'))
past_guards true b m j j' e = absurd (ground (arith, ap (λ p. p.0) e))
past_guards false true m j j' e = absurd (ground (arith, ap (λ p. p.0) e))
past_guards false false m j j' e = (refl, e)

in_bounds : (n lo : ℕ) → (ltb n lo || leb max_blob_size n) ≡ false → (lo ≤ n) × (n < max_blob_size)
in_bounds n lo e = (ground arith, ground arith)

-- A text that is taken as a blob is in hexadecimal digits and stands for the bytes that the job then
-- holds, which reach past the nonce and fit in its buffer.
pub set_blob-HoldsBlob :
    (hex : List ℕ) (j j' : Job)
    → All (λ c. c < 256) hex
    → length j.blob ≡ max_blob_size
    → set_blob (some hex) j ≡ (true, j')
    → HoldsBlob hex j'
unfolding set_blob
set_blob-HoldsBlob hex j j' h w e =
    let n = length hex / 2 in
    let (b, m) = past_guards _ _ (fill_blob (hex2bin_loop max_blob_size [] none hex) n j) j j' e in
    let (lo, hi) = in_bounds n (nonce_offset j + nonce_size) b in
    elim (Option-cases (decode max_blob_size hex)) [
      | inl d ↦ absurd (ground (arith, sym (not_filled hex n j h d) ∙ ap (λ p. p.0) m))
      | inr (bytes, d) ↦
          let l = length-decode max_blob_size hex bytes d in
          let same = sym (filled hex bytes j h d) ∙ m in
          subst (λ (k : Job). HoldsBlob hex k) (ap (λ p. p.1) same)
            (filled-HoldsBlob hex bytes _ j d (omega (arith, l)) (omega (arith, l)) w)
    ]
