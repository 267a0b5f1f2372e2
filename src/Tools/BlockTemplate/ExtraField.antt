-- ===== src/Tools/BlockTemplate/ExtraField.antt =====
-- BlockTemplate.cpp: the extra field of the miner transaction.
use rxs_supported.Common.{
  ℕ, zero, suc, ◌+◌, ◌%◌, ◌^◌, ltb, ◌==◌, if◌then◌else◌, Option, none, some, drop,
}
use rxs_supported.Tools.BlobReader.{
  Reader, ok, rejected, thrown, fault, running, M, ◌>>=◌, ◌>>◌, pure, Span, index, skip, get_span,
  get_varint,
}

-- What the extra field of the miner transaction holds.
pub record Extra : Type 0 where
  pub pubkey_offset : Option ℕ
  pub nonce : Option (ℕ × Span)
  pub merge_mining_tag : Option (ℕ × Span)

abbrev pub no_extra : Extra
no_extra = record { pubkey_offset = none; nonce = none; merge_mining_tag = none }

-- `setOffset(..., offset(TX_EXTRA_OFFSET) + ar_extra.index())`.
abbrev extra_index : ℕ → M ℕ
extra_index offset = index >>= λ i. pure ((offset + i) % 2 ^ 32)

-- Only the first public key's offset is kept.
abbrev pub first_pubkey : ℕ → Extra → Extra
first_pubkey o e = elim e.pubkey_offset [ none ↦ record e { pubkey_offset = some o } | some _ ↦ e ]

-- What belongs to one tag, each a case of the switch in the loop over the extra field.
unfoldable pub pubkey_field : ℕ → Extra → M Extra
pubkey_field offset e = do o ← extra_index offset; skip 32; pure (first_pubkey o e)

unfoldable pub sized_field : ℕ → M (ℕ × Span)
sized_field offset = do
  size ← get_varint
  o ← extra_index offset
  span ← get_span size
  pure (o, span)

unfoldable pub extra_field : ℕ → ℕ → Extra → M Extra
extra_field offset tag e =
    if tag == 0x01
    then pubkey_field offset e
    else if tag == 0x02
    then (sized_field offset >>= λ f. pure (record e { nonce = some f }))
    else if tag == 0x03
    then (sized_field offset >>= λ f. pure (record e { merge_mining_tag = some f }))
    else (λ r. rejected)

-- The loop over the extra field, on fuel.
unfoldable pub extra_loop : ℕ → ℕ → Extra → M Extra
extra_loop zero offset e r = if ltb r.index r.size then running else ok (e, r)
extra_loop (suc fuel) offset e r =
    let next =
      (get_varint >>= λ tag. extra_field offset tag e >>= λ e'. extra_loop fuel offset e') r in
    if ltb r.index r.size then next else ok (e, r)

-- The reader of the extra field starts at its offset and is given its size before the size is
-- checked.
unfoldable pub parse_extra : ℕ → ℕ → ℕ → M Extra
parse_extra fuel offset size r =
    let extra : Reader = record { memory = drop offset r.memory; size = size; index = 0 } in
    (skip size >>= λ _. λ r'. elim (extra_loop fuel offset no_extra extra) [
      | ok (e, _) ↦ ok (e, r')
      | rejected ↦ rejected
      | thrown ↦ thrown
      | fault ↦ fault
      | running ↦ running
    ])
      r
