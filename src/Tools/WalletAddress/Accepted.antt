-- ===== src/Tools/WalletAddress/Accepted.antt =====
-- WalletAddress.cpp: addresses that `decode` accepts.
use rxs_supported.Common.{
  ℕ, ◌⊎◌, inl, inr, drop, if◌then◌else◌, ◌==◌, ◌&&◌, Bool-cases, ◌-◌, ◌≤◌, List, [], ◌∷◌, Bool,
  true, false, length, take, ◌≡◌, refl, ap, ap₂, sym, subst, ◌∙◌, arith,
}
use rxs_supported.Tools.BlobReader.{Result, ok, rejected, thrown, fault, running}
use rxs_supported.Tools.Json.{str_eq}
use rxs_supported.Tools.WalletAddress.Bytes.{decode_data-Sized, decode_data-length}
use rxs_supported.Tools.WalletAddress.Fields.{Fields, read_fields-Fields}
use rxs_supported.Tools.WalletAddress.{
  WalletAddress, townforge_tag, min_size, max_size, strip, decode_data, read_fields, check, decode,
}

-- What stands before the text of an address: nothing, or `TF` and two more characters.
abbrev pub Prefixed : List ℕ → List ℕ → Type 0
Prefixed address text =
    (address ≡ text) ⊎ ((kind : ℕ) × (net : ℕ) × (address ≡ b'T' ∷ b'F' ∷ kind ∷ net ∷ text))

prefix_lem :
    (r : Result ℕ) (tf : ℕ) (rest text : List ℕ)
    → ◌≡◌ {A = Result (ℕ × List ℕ)}
        (elim r [
          | ok tag ↦ ok (tag, rest)
          | rejected ↦ rejected
          | thrown ↦ thrown
          | fault ↦ fault
          | running ↦ running
        ])
        (ok (tf, text))
    → rest ≡ text
prefix_lem (ok tag) tf rest text e = ground arith
prefix_lem rejected tf rest text e = absurd (ground arith)
prefix_lem thrown tf rest text e = absurd (ground arith)
prefix_lem fault tf rest text e = absurd (ground arith)
prefix_lem running tf rest text e = absurd (ground arith)

strip-Prefixed :
    (address text : List ℕ) (tf : ℕ) → strip address ≡ ok (tf, text) → Prefixed address text
unfolding strip
strip-Prefixed [] text tf e = inl (ground arith)
strip-Prefixed (a ∷ []) text tf e = inl (ground arith)
strip-Prefixed (a ∷ b ∷ []) text tf e = inl (ground arith)
strip-Prefixed (a ∷ b ∷ c ∷ []) text tf e = inl (ground arith)
strip-Prefixed (a ∷ b ∷ c ∷ d ∷ address) text tf e = elim (Bool-cases (a == b'T' && b == b'F')) [
  | inl y ↦
      let rest = prefix_lem (townforge_tag c d) tf address text (rw (strip, y) at e) in
      let t : a ≡ b'T' = ground arith in
      let f : b ≡ b'F' = ground arith in
      inr (c, d, ap₂ (λ x y. x ∷ y ∷ c ∷ d ∷ address) t f ∙ ap (λ x. b'T' ∷ b'F' ∷ c ∷ d ∷ x) rest)
  | inr n ↦ inl (ground (arith, n))
]

value_of : Bool × WalletAddress → Result (Bool × WalletAddress) → Bool × WalletAddress
value_of d (ok x) = x
value_of d _ = d

module _ (keccak : List ℕ → List ℕ) where
  -- The checksum that these bytes should have.
  abbrev pub expected : List ℕ → List ℕ
  expected bytes = take 4 (keccak (take (length bytes - 4) bytes))

  -- An object that was read from these bytes, as far as it was checked: with the text and the tag that it is
  -- given then.
  abbrev Taken : ℕ → List ℕ → List ℕ → WalletAddress → WalletAddress → Type 0
  Taken tf text bytes w w' =
      (read : WalletAddress) × (read_fields bytes w ≡ ok (true, read))
      × (record read { text = text; tag = if tf == 0 then read.tag else tf } ≡ w')
      × (str_eq read.checksum (expected bytes) ≡ true)

  check_lem :
      (tf : ℕ) (text bytes : List ℕ) (answer : Bool) (w w' : WalletAddress)
      → check keccak tf text bytes (answer, w) ≡ (true, w')
      → (answer ≡ true)
        × (record w { text = text; tag = if tf == 0 then w.tag else tf } ≡ w')
        × (str_eq w.checksum (expected bytes) ≡ true)
  unfolding check
  check_lem tf text bytes false w w' e = absurd (ground arith)
  check_lem tf text bytes true w w' e = elim (Bool-cases (str_eq w.checksum (expected bytes))) [
    | inl y ↦ (refl, ap (λ x. x.1) (rw (check, y) at e), y)
    | inr n ↦ absurd (ground (arith, n))
  ]

  fields_lem :
      (r : Result (Bool × WalletAddress)) (tf : ℕ) (rest bytes : List ℕ) (w w' : WalletAddress)
      → read_fields bytes w ≡ r
      → elim r [
        | ok x ↦ ok (check keccak tf rest bytes x)
        | rejected ↦ rejected
        | thrown ↦ thrown
        | fault ↦ fault
        | running ↦ running
      ]
        ≡ ok (true, w')
      → Taken tf rest bytes w w'
  unfolding value_of
  fields_lem (ok (answer, read)) tf rest bytes w w' q e =
      let (a, t, c) = check_lem tf rest bytes answer read w' (ap (value_of (true, w')) e) in
      (read, q ∙ ap (λ b. ok (b, read)) a, t, c)
  fields_lem rejected tf rest bytes w w' q e = absurd (ground arith)
  fields_lem thrown tf rest bytes w w' q e = absurd (ground arith)
  fields_lem fault tf rest bytes w w' q e = absurd (ground arith)
  fields_lem running tf rest bytes w w' q e = absurd (ground arith)

  -- The tag of a prefix, the bytes that the text stands for, and what is read of them.
  abbrev Decoded : ℕ → List ℕ → WalletAddress → WalletAddress → Type 0
  Decoded tf text w w' = (bytes : List ℕ) × (decode_data text ≡ ok bytes) × Taken tf text bytes w w'

  data_lem :
      (r : Result (List ℕ)) (tf : ℕ) (rest : List ℕ) (w w' : WalletAddress)
      → decode_data rest ≡ r
      → elim r [
        | ok bytes ↦ elim (read_fields bytes w) [
          | ok x ↦ ok (check keccak tf rest bytes x)
          | rejected ↦ rejected
          | thrown ↦ thrown
          | fault ↦ fault
          | running ↦ running
        ]
        | rejected ↦ ok (false, w)
        | thrown ↦ thrown
        | fault ↦ fault
        | running ↦ running
      ]
        ≡ ok (true, w')
      → Decoded tf rest w w'
  data_lem (ok bytes) tf rest w w' q e =
      (bytes, q, fields_lem (read_fields bytes w) tf rest bytes w w' refl e)
  data_lem rejected tf rest w w' q e = absurd (ground arith)
  data_lem thrown tf rest w w' q e = absurd (ground arith)
  data_lem fault tf rest w w' q e = absurd (ground arith)
  data_lem running tf rest w w' q e = absurd (ground arith)

  strip_lem :
      (r : Result (ℕ × List ℕ)) (address : List ℕ) (w w' : WalletAddress)
      → strip address ≡ r
      → elim r [
        | ok (tf_tag, rest) ↦ elim (decode_data rest) [
          | ok bytes ↦ elim (read_fields bytes w) [
            | ok x ↦ ok (check keccak tf_tag rest bytes x)
            | rejected ↦ rejected
            | thrown ↦ thrown
            | fault ↦ fault
            | running ↦ running
          ]
          | rejected ↦ ok (false, w)
          | thrown ↦ thrown
          | fault ↦ fault
          | running ↦ running
        ]
        | rejected ↦ ok (false, w)
        | thrown ↦ thrown
        | fault ↦ fault
        | running ↦ running
      ]
        ≡ ok (true, w')
      → (tf : ℕ) × (text : List ℕ) × (strip address ≡ ok (tf, text)) × Decoded tf text w w'
  strip_lem (ok (tf, rest)) address w w' q e =
      (tf, rest, q, data_lem (decode_data rest) tf rest w w' refl e)
  strip_lem rejected address w w' q e = absurd (ground arith)
  strip_lem thrown address w w' q e = absurd (ground arith)
  strip_lem fault address w w' q e = absurd (ground arith)
  strip_lem running address w w' q e = absurd (ground arith)

  -- Of an object after an address was decoded: its text is that of the address, and stands for bytes, of which
  -- its fields are read, the last four being the hash's first four; its tag is that of the prefix, or read.
  abbrev pub Checked : List ℕ → WalletAddress → Type 0
  Checked address w =
      (tf : ℕ) × (tag : ℕ) × (bytes : List ℕ) × (strip address ≡ ok (tf, w.text))
      × (decode_data w.text ≡ ok bytes)
      × Fields bytes tag w
      × (w.tag ≡ (if tf == 0 then tag else tf))
      × (str_eq (drop (length bytes - 4) bytes) (expected bytes) ≡ true)

  -- An address that is accepted is the object's text, behind a Townforge prefix where it has one; the text has
  -- from 95 to 256 characters and stands for bytes. The object's keys are the two times 32 bytes after the
  -- varint of the tag, its checksum the last four, which are the first four of the hash of all the others, and
  -- its tag is the one read, or that of the prefix.
  pub decode-Checked :
      (address : List ℕ) (w w' : WalletAddress)
      → decode keccak address w ≡ ok (true, w')
      → Checked address w'
        × Prefixed address w'.text
        × (min_size ≤ length w'.text)
        × (length w'.text ≤ max_size)
  unfolding decode
  decode-Checked address w w' e =
      let (tf, text, s, decoded) = strip_lem (strip address) address w w' refl e in
      let (bytes, d, taken) = decoded in
      let (read, f, t, c) = taken in
      let (few, small) = decode_data-length text bytes d in
      let (low, high) = decode_data-Sized text bytes d in
      let four : 4 ≤ length bytes = omega (arith, few) in
      let fields = read_fields-Fields bytes four small w read f in
      let (i, g, l, spend, view, sum) = fields in
      subst
        (λ x.
          Checked address x
          × Prefixed address x.text
          × (min_size ≤ length x.text)
          × (length x.text ≤ max_size))
        t
        (
          (
            tf,
            read.tag,
            bytes,
            s,
            d,
            fields,
            refl,
            ap (λ x. str_eq x (expected bytes)) (sym sum) ∙ c,
          ),
          strip-Prefixed address text tf s,
          low,
          high,
        )
