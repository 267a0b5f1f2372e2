-- ===== src/Tools/WalletAddress/Bytes.antt =====
-- WalletAddress.cpp: how many bytes an address stands for.
use rxs_supported.Common.{
  ℕ, zero, suc, ◌<◌, ◌^◌, inl, inr, Option, if◌then◌else◌, Bool-cases, none, ◌+◌, ◌*◌, ◌/◌, ◌%◌,
  ◌≤◌, List, ◌++◌, false, ◌||◌, ltb, some, length, take, drop, ◌≡◌, refl, subst, arith,
}
use rxs_supported.Tools.BlobReader.{Result, ok, rejected, thrown, fault, running}
use rxs_supported.Tools.WalletAddress.{
  min_size, max_size, min_data_size, decode_data, decode_blocks, last_bytes, decode_chars,
  low_bytes, reverse,
}

pub decode_data-Sized :
    (address bytes : List ℕ)
    → decode_data address ≡ ok bytes
    → (min_size ≤ length address) × (length address ≤ max_size)
unfolding decode_data
decode_data-Sized address bytes e = ground arith

length-low_bytes : (n num : ℕ) → length (low_bytes n num) ≡ n
length-low_bytes zero num = refl
length-low_bytes (suc n) num = let r = length-low_bytes n num in omega (arith, r)

abbrev HasLength : ℕ → Result (List ℕ) → Type 0
HasLength n (ok bytes) = length bytes ≡ n
HasLength n _ = Unit

last_block :
    (r : Result ℕ) (n : ℕ)
    → HasLength n (elim r [
      | ok num ↦ ok (low_bytes n num)
      | rejected ↦ rejected
      | thrown ↦ thrown
      | fault ↦ fault
      | running ↦ running
    ])
last_block (ok num) n = length-low_bytes n num
last_block rejected n = tt
last_block thrown n = tt
last_block fault n = tt
last_block running n = tt

more_blocks :
    (r : Result (List ℕ)) (num n : ℕ)
    → HasLength n r
    → HasLength (8 + n) (elim r [
      | ok bytes ↦ ok (low_bytes 8 num ++ bytes)
      | rejected ↦ rejected
      | thrown ↦ thrown
      | fault ↦ fault
      | running ↦ running
    ])
more_blocks (ok bytes) num n h = omega (arith, h)
more_blocks rejected num n h = tt
more_blocks thrown num n h = tt
more_blocks fault num n h = tt
more_blocks running num n h = tt

full_block :
    (r : Result ℕ) (rest : Result (List ℕ)) (n : ℕ)
    → HasLength n rest
    → HasLength (8 + n) (elim r [
      | ok num ↦ elim rest [
        | ok bytes ↦ ok (low_bytes 8 num ++ bytes)
        | rejected ↦ rejected
        | thrown ↦ thrown
        | fault ↦ fault
        | running ↦ running
      ]
      | rejected ↦ rejected
      | thrown ↦ thrown
      | fault ↦ fault
      | running ↦ running
    ])
full_block (ok num) rest n h = more_blocks rest num n h
full_block rejected rest n h = tt
full_block thrown rest n h = tt
full_block fault rest n h = tt
full_block running rest n h = tt

decode_blocks-HasLength :
    (full size n : ℕ) (address : List ℕ)
    → HasLength (full * 8 + n) (decode_blocks full size n address)
unfolding decode_blocks
decode_blocks-HasLength zero size n address =
    subst (λ k. HasLength k (decode_blocks 0 size n address)) (omega arith)
      (last_block (decode_chars (reverse (take size address)) 0 1) n)
decode_blocks-HasLength (suc full) size n address =
    subst (λ k. HasLength k (decode_blocks (suc full) size n address)) (omega arith)
      (full_block (decode_chars (reverse (take 11 address)) 0 1)
        (decode_blocks full size n (drop 11 address)) (full * 8 + n)
        (decode_blocks-HasLength full size n (drop 11 address)))

ok-HasLength :
    (r : Result (List ℕ)) (n : ℕ) (bytes : List ℕ) → HasLength n r → r ≡ ok bytes → length bytes ≡ n
ok-HasLength r n bytes h e = subst (HasLength n) e h

last_bytes-small : (size n : ℕ) → last_bytes size ≡ some n → n < 8
unfolding last_bytes
last_bytes-small size n e = ground arith

-- After the tests of its size.
tests_lem :
    (o : Option ℕ) (m : ℕ) (r : ℕ → Result (List ℕ)) (bytes : List ℕ)
    → m ≤ 256
    → ((n : ℕ) → HasLength (m / 11 * 8 + n) (r n))
    → ((n : ℕ) → o ≡ some n → n < 8)
    → elim o [
      | none ↦ rejected
      | some n ↦ if ltb (m / 11 * 8 + n) min_data_size then rejected else r n
    ]
      ≡ ok bytes
    → (min_data_size ≤ length bytes) × (length bytes < 2 ^ 63)
tests_lem none m r bytes l h k e = absurd (ground arith)
tests_lem (some n) m r bytes l h k e = elim (Bool-cases (ltb (m / 11 * 8 + n) min_data_size)) [
  | inl y ↦ absurd (ground (arith, y))
  | inr f ↦
      let q : r n ≡ ok bytes = ground (arith, f) in
      let len = ok-HasLength (r n) (m / 11 * 8 + n) bytes (h n) q in
      let small = k n refl in (ground (arith, f, len), omega (arith, len, small))
]

in_range : (m : ℕ) → min_size ≤ m → m ≤ max_size → (ltb m min_size || ltb max_size m) ≡ false
in_range m h k = ground arith

pub decode_data-length :
    (address bytes : List ℕ)
    → decode_data address ≡ ok bytes
    → (min_data_size ≤ length bytes) × (length bytes < 2 ^ 63)
unfolding decode_data
decode_data-length address bytes e =
    let (low, high) = decode_data-Sized address bytes e in
    tests_lem (last_bytes (length address % 11)) (length address)
      (λ n. decode_blocks (length address / 11) (length address % 11) n address) bytes high
      (λ n. decode_blocks-HasLength (length address / 11) (length address % 11) n address)
      (last_bytes-small (length address % 11))
      (rw (decode_data, in_range (length address) low high) at e)
