-- ===== src/Tools/BlockTemplate.antt =====
-- base/tools/cryptonote/BlockTemplate.{h,cpp}: block templates of a pool or a daemon, without the
-- transaction hashes (`hashes` false, as kCalcHashes is in the miner).
pub mod ExtraField
pub mod Hang
pub mod Overread
pub mod Hashing
pub mod Merkle
mod Tests
use Prim.Native.Nat.{bit_and, bit_or}
use rxs_supported.Common.{
  ℕ, zero, suc, ◌+◌, ◌-◌, ◌*◌, ◌/◌, ◌%◌, ◌^◌, List, [], ◌∷◌, ◌++◌, Bool, true, false, not, ◌&&◌,
  ◌||◌, ltb, leb, ◌==◌, if◌then◌else◌, Option, none, some, get_elem?, take, drop, length,
}
use rxs_supported.Tools.BlobReader.{
  Reader, Result, ok, rejected, thrown, fault, running, M, ◌>>=◌, ◌>>◌, pure, Span, index, skip,
  get_span, get_bytes, get_byte, get_varint, put_varint,
}
use rxs_supported.Tools.BlockTemplate.ExtraField.{Extra, parse_extra}

-- The coins that the format depends on.
pub data Coin : Type 0 where
  monero wownero zephyr townforge other : Coin

abbrev pub is_monero : Coin → Bool
is_monero monero = true
is_monero _ = false

abbrev pub is_wownero : Coin → Bool
is_wownero wownero = true
is_wownero _ = false

abbrev pub is_zephyr : Coin → Bool
is_zephyr zephyr = true
is_zephyr _ = false

abbrev pub is_townforge : Coin → Bool
is_townforge townforge = true
is_townforge _ = false

abbrev pub guard : Bool → M (Unit {0})
guard true r = ok (tt, r)
guard false r = rejected

abbrev pub when : Bool → M (Unit {0}) → M (Unit {0})
when true m = m
when false m = pure tt

-- The header, up to the miner transaction. Offsets are kept as uint32_t.
pub record Header : Type 0 where
  pub major : ℕ
  pub minor : ℕ
  pub timestamp : ℕ
  pub prev_id : Span
  pub nonce_offset : ℕ

abbrev pub offset32 : M ℕ
offset32 = index >>= λ i. pure (i % 2 ^ 32)

unfoldable pub parse_header : Coin → M Header
parse_header coin = do
  major ← get_byte
  minor ← get_byte
  timestamp ← get_varint
  prev_id ← get_span 32
  nonce_offset ← offset32
  skip 4
  when (is_wownero coin && leb 18 major) (get_span 64 >>= λ _. get_bytes 2 >>= λ _. pure tt)
  when (is_zephyr coin) (get_bytes 120 >>= λ _. pure tt)
  pure (record {
    major = major;
    minor = minor;
    timestamp = timestamp;
    prev_id = prev_id;
    nonce_offset = nonce_offset;
  })

-- The miner transaction up to its output's type.
pub record Input : Type 0 where
  pub prefix_offset : ℕ
  pub tx_version : ℕ
  pub unlock_time : ℕ
  pub height : ℕ
  pub num_outputs : ℕ
  pub amount : ℕ
  pub output_type : ℕ

abbrev varint_unless : Bool → M ℕ
varint_unless true = pure 0
varint_unless false = get_varint

abbrev is_fcmp_pp : Coin → ℕ → Bool
is_fcmp_pp coin major = is_monero coin && leb 17 major

unfoldable pub parse_input : Coin → ℕ → M Input
parse_input coin major = do
  prefix_offset ← offset32
  tx_version ← get_varint
  unlock_time ← varint_unless (is_townforge coin)
  num_inputs ← get_varint
  guard (num_inputs == 1)
  input_type ← get_byte
  guard (input_type == 0xff)
  height ← get_varint
  num_outputs ← get_varint
  guard (if is_zephyr coin then leb 2 num_outputs else num_outputs == 1)
  amount ← get_varint
  output_type ← get_byte
  guard ((is_fcmp_pp coin major && output_type == 0) || output_type == 2 || output_type == 3)
  pure (record {
    prefix_offset = prefix_offset;
    tx_version = tx_version;
    unlock_time = unlock_time;
    height = height;
    num_outputs = num_outputs;
    amount = amount;
    output_type = output_type;
  })

-- The loop over the further outputs of a ZEPHYR transaction.
unfoldable pub zephyr_outputs : ℕ → M (Unit {0})
zephyr_outputs zero = pure tt
zephyr_outputs (suc n) = do
  amount ← get_varint
  output_type ← get_byte
  guard (output_type == 2)
  key ← get_span 32
  asset_type_len ← get_varint
  skip asset_type_len
  view_tag ← get_byte
  zephyr_outputs n

-- The output's key and what follows it, up to the extra field.
pub record Output : Type 0 where
  pub key_offset : ℕ
  pub key : Span
  pub view_tag : ℕ

unfoldable pub parse_output : Coin → ℕ → ℕ → ℕ → M Output
parse_output coin major num_outputs output_type = do
  key_offset ← offset32
  key ← get_span 32
  when (is_fcmp_pp coin major) (get_bytes 3 >>= λ _. get_bytes 16 >>= λ _. pure tt)
  view_tag ←
      (if is_zephyr coin
        then (do
          guard (output_type == 2)
          asset_type_len ← get_varint
          skip asset_type_len
          tag ← get_byte
          zephyr_outputs (num_outputs - 1)
          pure tag)
        else if output_type == 3
        then get_byte
        else pure 0)
  pure (record { key_offset = key_offset; key = key; view_tag = view_tag })

-- What a parse fills in. `num_hashes` is `none` where it returns before it reads them.
pub record Template : Type 0 where
  pub header : Header
  pub input : Input
  pub output : Output
  pub unlock_time : ℕ
  pub extra_offset : ℕ
  pub extra : Extra
  pub prefix_end : ℕ
  pub num_hashes : Option ℕ

-- `*blob(...)`.
abbrev byte_at : ℕ → M ℕ
byte_at i r = elim (get_elem? r.memory i) [ none ↦ fault | some b ↦ ok (b, r) ]

-- From the type of the RCT signatures on.
unfoldable pub parse_hashes : Coin → ℕ → ℕ → M (Option ℕ)
parse_hashes coin height prefix_end = do
  rct_type ← get_byte
  if is_townforge coin && height % 720 == 0 then pure none else (do
    guard (rct_type == 0)
    miner_tx_end ← index
    guard (miner_tx_end == prefix_end + 1)
    b ← byte_at prefix_end
    guard (b == 0)
    num_hashes ← get_varint
    pure (some num_hashes))

unfoldable pub parse_blob : ℕ → Coin → M Template
parse_blob fuel coin = do
  header ← parse_header coin
  input ← parse_input coin header.major
  output ← parse_output coin header.major input.num_outputs input.output_type
  unlock_time ← (if is_townforge coin then get_varint else pure input.unlock_time)
  extra_size ← get_varint
  extra_offset ← offset32
  extra ← parse_extra fuel extra_offset extra_size
  when (is_zephyr coin) (get_varint >>= λ _. get_varint >>= λ _. get_varint >>= λ _. pure tt)
  prefix_end ← offset32
  num_hashes ← parse_hashes coin input.height prefix_end
  pure (record {
    header = header;
    input = input;
    output = output;
    unlock_time = unlock_time;
    extra_offset = extra_offset;
    extra = extra;
    prefix_end = prefix_end;
    num_hashes = num_hashes;
  })

abbrev pub reader_of : List ℕ → Reader
reader_of blob = record { memory = blob; size = length blob; index = 0 }

-- kMinSize, and `parse` of a blob: false is `rejected`, also after an exception.
abbrev min_size : ℕ
min_size = 76

abbrev pub parse : ℕ → Coin → List ℕ → Result Template
parse fuel coin blob =
    if ltb (length blob) min_size then rejected else elim (parse_blob fuel coin (reader_of blob)) [
      | ok (t, _) ↦ ok t
      | rejected ↦ rejected
      | thrown ↦ rejected
      | fault ↦ fault
      | running ↦ running
    ]

-- `generateHashingBlob`, from the parsed blob, the offset of the miner transaction and the root hash.
unfoldable pub hashing_blob : ℕ → List ℕ → ℕ → List ℕ → List ℕ
hashing_blob num_hashes root_hash prefix_offset blob =
    take prefix_offset blob ++ (root_hash ++ put_varint ((num_hashes + 1) % 2 ^ 64))
