-- ===== src/Tools/WalletAddress/Fields.antt =====
-- WalletAddress.cpp: the fields that are read from the bytes of an address.
use rxs_supported.Common.{
  ℕ, zero, suc, ◌+◌, ◌-◌, ◌%◌, ◌^◌, ◌≤◌, ◌<◌, List, [], ◌∷◌, Bool, true, false, some, length, take,
  drop, take_all, ◌≡◌, refl, ap, sym, ◌∙◌, arith,
}
use rxs_supported.Tools.BlobReader.{
  Reader, Result, ok, rejected, thrown, fault, running, get_varint, get_bytes, skip, copy,
}
use rxs_supported.Tools.BlobReader.Locality.{get_bytes_ok, get_varint-Local}
use rxs_supported.Tools.WalletAddress.{
  WalletAddress, to_checksum, read_fields, read_spend_key, read_view_key, read_checksum,
}

-- A reader at the start of these bytes.
abbrev pub reader : List ℕ → Reader
reader bytes = record { memory = bytes; size = length bytes; index = 0 }

-- The fields are the bytes after the varint of the tag, and the last four.
abbrev pub Fields : List ℕ → ℕ → WalletAddress → Type 0
Fields bytes tag w =
    (index : ℕ) × (get_varint (reader bytes) ≡ ok (tag, record (reader bytes) { index = index }))
    × (index + 64 ≤ length bytes)
    × (w.spend_key ≡ take 32 (drop index bytes))
    × (w.view_key ≡ take 32 (drop (index + 32) bytes))
    × (w.checksum ≡ drop (length bytes - 4) bytes)

step_lem :
    {A : Type 0} (x : Result (A × Reader)) (k : A → Reader → Result (Bool × WalletAddress))
    (w w' : WalletAddress)
    → elim x [
      | ok (a, r) ↦ k a r
      | rejected ↦ ok (false, w)
      | thrown ↦ ok (false, w)
      | fault ↦ fault
      | running ↦ running
    ]
      ≡ ok (true, w')
    → (a : A) × (r : Reader) × (x ≡ ok (a, r)) × (k a r ≡ ok (true, w'))
step_lem (ok (a, r)) k w w' e = (a, r, refl, e)
step_lem rejected k w w' e = absurd (ground arith)
step_lem thrown k w w' e = absurd (ground arith)
step_lem fault k w w' e = absurd (ground arith)
step_lem running k w w' e = absurd (ground arith)

copy_lem :
    (i n : ℕ) (memory bytes : List ℕ)
    → copy i n memory ≡ some bytes
    → bytes ≡ take n (drop i memory)
unfolding copy
copy_lem i n memory bytes e = ground arith

skip_lem :
    (n : ℕ) (r r' : Reader) (u : Unit {0})
    → skip n r ≡ ok (u, r')
    → record r { index = (r.index + n) % 2 ^ 64 } ≡ r'
unfolding skip
skip_lem n r r' u e = ground arith

length-drop : (k : ℕ) (xs : List ℕ) → k ≤ length xs → length (drop k xs) + k ≡ length xs
length-drop zero xs h = omega arith
length-drop (suc k) [] h = absurd (omega arith)
length-drop (suc k) (x ∷ xs) h = let r = length-drop k xs (omega arith) in omega (arith, r)

-- What is read after the skip are the last four bytes, wherever the reader stood.
last_lem :
    (r r' r'' : Reader) (u : Unit {0}) (sum : List ℕ)
    → r.size ≡ length r.memory
    → r.index ≤ r.size
    → 4 ≤ r.size
    → r.size < 2 ^ 63
    → skip (to_checksum r) r ≡ ok (u, r')
    → get_bytes 4 r' ≡ ok (sum, r'')
    → sum ≡ drop (length r.memory - 4) r.memory
last_lem r r' r'' u sum z i four small s g =
    let place : (r.index + to_checksum r) % 2 ^ 64 ≡ length r.memory - 4 = omega arith in
    let q : record r { index = length r.memory - 4 } ≡ r' =
      ap (λ k. record r { index = k }) (sym place) ∙ skip_lem (to_checksum r) r r' u s in
    let g' : get_bytes 4 (record r { index = length r.memory - 4 }) ≡ ok (sum, r'') =
      ap (get_bytes 4) q ∙ g in
    let (l, m, c) =
      get_bytes_ok 4 (record r { index = length r.memory - 4 }) r'' sum (omega arith) (omega arith)
        small g' in
    copy_lem (length r.memory - 4) 4 r.memory sum c
    ∙ take_all 4 (drop (length r.memory - 4) r.memory)
        (let d = length-drop (length r.memory - 4) r.memory (omega arith) in omega (arith, d))

-- The next 32 bytes.
key_lem :
    (r r' : Reader) (key : List ℕ)
    → r.index ≤ r.size
    → r.size < 2 ^ 63
    → get_bytes 32 r ≡ ok (key, r')
    → (r.index + 32 ≤ r.size)
      × (record r { index = r.index + 32 } ≡ r')
      × (key ≡ take 32 (drop r.index r.memory))
key_lem r r' key i s g =
    let (l, m, c) = get_bytes_ok 32 r r' key (omega arith) i s g in
    (l, m, copy_lem r.index 32 r.memory key c)

-- The object that an answer comes with.
object_of : WalletAddress → Result (Bool × WalletAddress) → WalletAddress
object_of w (ok (answer, w')) = w'
object_of w _ = w

module _ (bytes : List ℕ) (four : 4 ≤ length bytes) (small : length bytes < 2 ^ 63) where
  -- The reader at a place.
  abbrev at : ℕ → Reader
  at index = record (reader bytes) { index = index }

  sum_lem :
      (index : ℕ) (w w' : WalletAddress)
      → index ≤ length bytes
      → read_checksum (at index) w ≡ ok (true, w')
      → record w { checksum = drop (length bytes - 4) bytes } ≡ w'
  unfolding read_checksum object_of
  sum_lem index w w' i e =
      let r = at index in
      let (u, r', s, e') =
        step_lem (skip (to_checksum r) r)
          (λ u r'. elim (get_bytes 4 r') [
            | ok (sum, r'') ↦ ok (true, record w { checksum = sum })
            | rejected ↦ ok (false, w)
            | thrown ↦ ok (false, w)
            | fault ↦ fault
            | running ↦ running
          ])
          w w' e in
      let (sum, r'', g, e'') =
        step_lem (get_bytes 4 r') (λ sum r''. ok (true, record w { checksum = sum })) w w' e' in
      let v = last_lem r r' r'' u sum refl i four small s g in
      ap (λ t. record w { checksum = t }) (sym v) ∙ ap (object_of w) e''

  view_lem :
      (index : ℕ) (w w' : WalletAddress)
      → index ≤ length bytes
      → read_view_key (at index) w ≡ ok (true, w')
      → (index + 32 ≤ length bytes)
        × (record w {
          view_key = take 32 (drop index bytes);
          checksum = drop (length bytes - 4) bytes;
        }
            ≡ w')
  unfolding read_view_key
  view_lem index w w' i e =
      let r = at index in
      let k : List ℕ → Reader → Result (Bool × WalletAddress) =
        λ key r'. read_checksum r' (record w { view_key = key }) in
      let (key, r', g, e') = step_lem (get_bytes 32 r) k w w' e in
      let (l, m, v) = key_lem r r' key i small g in
      let e'' : k (take 32 (drop index bytes)) (at (index + 32)) ≡ ok (true, w') =
        ap (λ t. k t (at (index + 32))) (sym v) ∙ ap (k key) m ∙ e' in
      (l, sum_lem (index + 32) (record w { view_key = take 32 (drop index bytes) }) w' l e'')

  keys_lem :
      (index : ℕ) (w w' : WalletAddress)
      → index ≤ length bytes
      → read_spend_key (at index) w ≡ ok (true, w')
      → (index + 64 ≤ length bytes)
        × (record w {
          spend_key = take 32 (drop index bytes);
          view_key = take 32 (drop (index + 32) bytes);
          checksum = drop (length bytes - 4) bytes;
        }
            ≡ w')
  unfolding read_spend_key
  keys_lem index w w' i e =
      let r = at index in
      let k : List ℕ → Reader → Result (Bool × WalletAddress) =
        λ key r'. read_view_key r' (record w { spend_key = key }) in
      let (key, r', g, e') = step_lem (get_bytes 32 r) k w w' e in
      let (l, m, v) = key_lem r r' key i small g in
      let e'' : k (take 32 (drop index bytes)) (at (index + 32)) ≡ ok (true, w') =
        ap (λ t. k t (at (index + 32))) (sym v) ∙ ap (k key) m ∙ e' in
      let (l', q) =
        view_lem (index + 32) (record w { spend_key = take 32 (drop index bytes) }) w' l e'' in
      (omega (arith, l'), q)

  same_reader : (r : Reader) → r.memory ≡ bytes → r.size ≡ length bytes → at r.index ≡ r
  same_reader r m z =
      ap (λ t. record { memory = t; size = length bytes; index = r.index }) (sym m)
      ∙ ap (λ t. record { memory = r.memory; size = t; index = r.index }) (sym z)

  pub read_fields-Fields :
      (w w' : WalletAddress) → read_fields bytes w ≡ ok (true, w') → Fields bytes w'.tag w'
  unfolding read_fields
  read_fields-Fields w w' e =
      let (tag, r, g, e') =
        step_lem (get_varint (reader bytes)) (λ tag r. read_spend_key r (record w { tag = tag })) w
          w' e in
      let (m, _) = get_varint-Local (reader bytes) r tag (omega arith) small g in
      let same : at r.index ≡ r = same_reader r m.memory m.size in
      let (l, q) =
        keys_lem r.index (record w { tag = tag }) w' (omega (arith, m.inside, m.size))
          (ap (λ t. read_spend_key t (record w { tag = tag })) same ∙ e') in
      let tagged : tag ≡ w'.tag = ap (λ t. t.tag) q in
      (
        r.index,
        g ∙ ap (λ t. ok (tag, t)) (sym same) ∙ ap (λ t. ok (t, at r.index)) tagged,
        l,
        sym (ap (λ t. t.spend_key) q),
        sym (ap (λ t. t.view_key) q),
        sym (ap (λ t. t.checksum) q),
      )
