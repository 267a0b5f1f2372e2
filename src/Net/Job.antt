-- ===== src/Net/Job.antt =====
-- base/net/stratum/Job.{h,cpp}, as the miner builds it (without RXS_PROXY_PROJECT).
mod Strtoull
pub mod Blob
pub mod Transactions
pub mod Target
pub mod Copies
mod Tests
use Prim.Native.Nat.{bit_and, bit_or}
use rxs_supported.Common.{
  ℕ, zero, suc, ◌+◌, ◌-◌, ◌*◌, ◌/◌, ◌%◌, ◌^◌, List, [], ◌∷◌, ◌++◌, Bool, true, false, not, ◌&&◌,
  ◌||◌, ltb, leb, ◌==◌, if◌then◌else◌, Option, none, some, take, drop, length,
}
use rxs_supported.Tools.Cvt.{Scan, hex2bin_loop, hex2bin_end, from_hex}
use rxs_supported.Net.Job.Strtoull.{strtoull}

-- Algorithm::
abbrev pub invalid : ℕ
invalid = 0

abbrev pub rx_wow : ℕ
rx_wow = 0x72141177

abbrev pub rx_yada : ℕ
rx_yada = 0x72151279

-- Algorithm::Family.
abbrev pub random_x : ℕ
random_x = 0x72000000

-- Algorithm::family.
abbrev pub family : ℕ → ℕ
family id = id / 2 ^ 24 % 2 ^ 8 * 2 ^ 24

-- A String; `none` is its null.
abbrev pub Text : Type 0
Text = Option (List ℕ)

pub record Job : Type 0 where
  pub algorithm : ℕ
  pub nicehash : Bool
  pub seed : List ℕ
  pub size : ℕ
  pub client_id : Text
  pub extra_nonce : Text
  pub id : Text
  pub pool_wallet : Text
  pub backend : ℕ
  pub diff : ℕ
  pub height : ℕ
  pub target : ℕ
  pub blob : List ℕ
  pub index : ℕ
  pub eph_public_key : List ℕ
  pub eph_secret_key : List ℕ
  pub has_miner_signature : Bool

-- kMaxBlobSize, the length of `blob`, and kMaxSeedSize.
abbrev pub max_blob_size : ℕ
max_blob_size = 408

abbrev pub max_seed_size : ℕ
max_seed_size = 32

-- Of two lists of bytes.
abbrev pub bytes_eq : List ℕ → List ℕ → Bool
bytes_eq [] [] = true
bytes_eq (x ∷ xs) (y ∷ ys) = x == y && bytes_eq xs ys
bytes_eq _ _ = false

abbrev pub text_eq : Text → Text → Bool
text_eq none none = true
text_eq (some a) (some b) = bytes_eq a b
text_eq _ _ = false

unfoldable pub is_equal_blob : Job → Job → Bool
is_equal_blob j other =
    j.size == other.size && bytes_eq (take j.size j.blob) (take j.size other.blob)

unfoldable pub is_equal : Job → Job → Bool
is_equal j other =
    text_eq j.id other.id
    && text_eq j.client_id other.client_id
    && is_equal_blob j other
    && j.target == other.target

abbrev pub is_valid : Job → Bool
is_valid j =
    (ltb 0 j.size && ltb 0 j.diff)
    || not (elim j.pool_wallet [ none ↦ true | some text ↦ length text == 0 ])

abbrev pub nonce_offset : Job → ℕ
nonce_offset j = if j.algorithm == rx_yada then 147 else 39

abbrev pub nonce_size : ℕ
nonce_size = 4

-- A number of bytes in little-endian order.
abbrev pub little_endian : List ℕ → ℕ
little_endian [] = 0
little_endian (b ∷ bs) = b + 2 ^ 8 * little_endian bs

abbrev pub read_nonce : Job → ℕ
read_nonce j = little_endian (take nonce_size (drop (nonce_offset j) j.blob))

-- What `Cvt::fromHex` leaves in the blob: the bytes that it has decoded before it ends.
abbrev pub with_bytes : List ℕ → Job → Job
with_bytes bytes j = record j { blob = bytes ++ drop (length bytes) j.blob }

abbrev pub see_nicehash : Job → Job
see_nicehash j =
    if not (read_nonce j == 0) && not j.nicehash then record j { nicehash = true } else j

-- `setBlob` from the decoding on, of a text for `size` bytes.
unfoldable pub fill_blob : Scan → ℕ → Job → Bool × Job
fill_blob s size j = elim (hex2bin_end s) [
  | none ↦ (false, with_bytes s.bin j)
  | some _ ↦ (true, record (see_nicehash (with_bytes s.bin j)) { size = size })
]

unfoldable pub set_blob : Option (List ℕ) → Job → Bool × Job
set_blob none j = (false, j)
set_blob (some blob) j =
    if not (length blob % 2 == 0)
    then (false, j)
    else if ltb (length blob / 2) (nonce_offset j + nonce_size)
        || leb max_blob_size (length blob / 2)
    then (false, j)
    else fill_blob (hex2bin_loop max_blob_size [] none blob) (length blob / 2) j

-- Cvt::fromHex into a Buffer, which is empty when the text is refused.
abbrev pub hex_buffer : List ℕ → List ℕ
hex_buffer text = elim (from_hex text) [ none ↦ [] | some bytes ↦ bytes ]

unfoldable pub set_seed_hash : Option (List ℕ) → Job → Bool × Job
set_seed_hash none j = (false, j)
set_seed_hash (some hash) j =
    if not (length hash == max_seed_size * 2)
    then (false, j)
    else (not (length (hex_buffer hash) == 0), record j { seed = hex_buffer hash })

-- The target that a text stands for; `none` is a division by zero.
unfoldable pub raw_target : List ℕ → Option ℕ
raw_target raw =
    if length raw == 4
    then (if little_endian raw == 0
        then none
        else some (0xffff_ffff_ffff_ffff / (0xffff_ffff / little_endian raw)))
    else if length raw == 8
    then some (little_endian raw)
    else some 0

unfoldable pub parse_target : ℕ → List ℕ → Option ℕ
parse_target algorithm text =
    if algorithm == rx_yada then some (strtoull text) else raw_target (hex_buffer text)

abbrev pub to_diff : ℕ → ℕ
to_diff target = if target == 0 then 0 else 0xffff_ffff_ffff_ffff / target

-- What follows the assignment to `m_target`.
abbrev pub take_target : ℕ → Job → Bool × Job
take_target target j =
    if target == 0
    then (false, record j { target = 0 })
    else (true, record j { target = target; diff = to_diff target })

-- `none` is a division by zero, which ends the program.
unfoldable pub set_target : Option (List ℕ) → Job → Option (Bool × Job)
set_target none j = some (false, j)
set_target (some text) j =
    if ltb (length text) 4 then some (false, j) else elim (parse_target j.algorithm text) [
      | none ↦ none
      | some target ↦ some (take_target target j)
    ]

unfoldable pub set_diff : ℕ → Job → Job
set_diff diff j = record j { diff = diff; target = to_diff diff }

unfoldable pub set_sig_key : Option (List ℕ) → Job → Job
set_sig_key none j = j
set_sig_key (some key) j =
    if not (length key == 128) || not (length (hex_buffer key) == 64) then j else record j {
      has_miner_signature = true;
      eph_public_key = take 32 (hex_buffer key);
      eph_secret_key = drop 32 (hex_buffer key);
    }

-- The loop of `getNumTransactions` over the bytes from its offset on; its result is a uint32_t.
unfoldable pub transactions_loop : ℕ → ℕ → List ℕ → ℕ
transactions_loop k num [] = num
transactions_loop k num (b ∷ bs) =
    let num' = bit_or num (bit_and b 0x7f * 2 ^ k % 2 ^ 32) in
    let more = transactions_loop (k + 7) num' bs in if bit_and b 0x80 == 0 then num' else more

abbrev pub expected_tx_offset : Job → ℕ
expected_tx_offset j = if j.algorithm == rx_wow then 141 else 75

unfoldable pub get_num_transactions : Job → ℕ
get_num_transactions j =
    if not (family j.algorithm == random_x)
    then 0
    else if ltb (expected_tx_offset j) j.size && leb j.size (expected_tx_offset j + 4)
    then transactions_loop 0 0 (drop (expected_tx_offset j) (take j.size j.blob))
    else 0

-- `memcpy(m_blob, other.m_blob, m_size)` after the other assignments.
unfoldable pub copy : Job → Job → Job
copy j other = record other { blob = take other.size other.blob ++ drop other.size j.blob }

-- The job moved to, and the one moved from: its strings are null, and so is its seed.
unfoldable pub move : Job → Job → Job × Job
unfolding copy
move j other = (
  copy j other,
  record other {
    client_id = none;
    id = none;
    seed = [];
    extra_nonce = none;
    pool_wallet = none;
    size = 0;
    diff = 0;
    algorithm = invalid;
  },
)

-- `nonceMask`, with a nonce of four bytes.
abbrev pub nonce_mask : Job → ℕ
nonce_mask j = if j.nicehash then 0xff_ffff else 0xffff_ffff
