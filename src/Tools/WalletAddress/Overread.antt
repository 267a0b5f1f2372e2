-- ===== src/Tools/WalletAddress/Overread.antt =====
-- WalletAddress.cpp: addresses that `decode` should refuse.
use rxs_supported.Common.{
  ℕ, suc, ◌+◌, ◌-◌, ◌*◌, ◌/◌, ◌%◌, ◌≤◌, List, [], ◌∷◌, ◌++◌, false, ◌||◌, ltb, some, length, take,
  ◌≡◌, refl, ap, sym, subst, ◌∙◌, arith,
}
use rxs_supported.Tools.BlobReader.{ok, fault}
use rxs_supported.Tools.WalletAddress.{
  WalletAddress, min_size, max_size, min_data_size, strip, decode_data, decode_blocks, last_bytes,
  decode_chars, reverse_alphabet, reverse, decode,
}

module _ (keccak : List ℕ → List ℕ) where
  reverse-snoc : (xs : List ℕ) (x : ℕ) → reverse (xs ++ x ∷ []) ≡ x ∷ reverse xs
  reverse-snoc [] x = refl
  reverse-snoc (y ∷ xs) x = ap (λ t. t ++ y ∷ []) (reverse-snoc xs x)

  take-front :
      (front rest : List ℕ) (c : ℕ)
      → take (suc (length front)) (front ++ c ∷ rest) ≡ front ++ c ∷ []
  take-front [] rest c = refl
  take-front (x ∷ front) rest c = ap (λ t. x ∷ t) (take-front front rest c)

  chars_fault : (c : ℕ) (cs : List ℕ) → 128 ≤ c → decode_chars (c ∷ cs) 0 1 ≡ fault
  unfolding decode_chars reverse_alphabet
  chars_fault c cs h = ground arith

  block_fault :
      (front rest : List ℕ) (c k size n : ℕ)
      → length front ≡ 10
      → 128 ≤ c
      → decode_blocks (suc k) size n (front ++ c ∷ rest) ≡ fault
  unfolding decode_blocks
  block_fault front rest c k size n l h =
      let first : take 11 (front ++ c ∷ rest) ≡ front ++ c ∷ [] =
        ap (λ m. take (suc m) (front ++ c ∷ rest)) (sym l) ∙ take-front front rest c in
      rw (decode_blocks, first, reverse-snoc front c, chars_fault c (reverse front) h) refl

  in_range : (m : ℕ) → min_size ≤ m → m ≤ max_size → (ltb m min_size || ltb max_size m) ≡ false
  in_range m h k = ground arith

  enough : (m : ℕ) → min_data_size ≤ m → ltb m min_data_size ≡ false
  enough m h = ground arith

  data_fault :
      (front rest : List ℕ) (c n : ℕ)
      → length front ≡ 10
      → 128 ≤ c
      → min_size ≤ length (front ++ c ∷ rest)
      → length (front ++ c ∷ rest) ≤ max_size
      → last_bytes (length (front ++ c ∷ rest) % 11) ≡ some n
      → min_data_size ≤ length (front ++ c ∷ rest) / 11 * 8 + n
      → decode_data (front ++ c ∷ rest) ≡ fault
  unfolding decode_data
  data_fault front rest c n l h a b e m =
      let address = front ++ c ∷ rest in
      let full : length address / 11 ≡ suc (length address / 11 - 1) = omega arith in
      let f = block_fault front rest c (length address / 11 - 1) (length address % 11) n l h in
      let f' = subst (λ k. decode_blocks k (length address % 11) n address ≡ fault) (sym full) f in
      rw (decode_data, in_range (length address) a b, e, enough (length address / 11 * 8 + n) m) f'

  -- An address of a length that is decoded, without a Townforge prefix that it may have, has `decode` read
  -- before the start of its table of digits when the eleventh of these characters is not ASCII.
  pub decode-overread :
      (address front rest : List ℕ) (tf c n : ℕ) (w : WalletAddress)
      → strip address ≡ ok (tf, front ++ c ∷ rest)
      → length front ≡ 10
      → 128 ≤ c
      → min_size ≤ length (front ++ c ∷ rest)
      → length (front ++ c ∷ rest) ≤ max_size
      → last_bytes (length (front ++ c ∷ rest) % 11) ≡ some n
      → min_data_size ≤ length (front ++ c ∷ rest) / 11 * 8 + n
      → decode keccak address w ≡ fault
  unfolding decode
  decode-overread address front rest tf c n w s l h a b e m =
      rw (decode, s, data_fault front rest c n l h a b e m) refl
