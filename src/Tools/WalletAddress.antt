-- ===== src/Tools/WalletAddress.antt =====
-- base/tools/cryptonote/WalletAddress.{h,cpp}: addresses of wallets, in blocks of base 58. A char is
-- signed, as on x86.
pub mod Base58
pub mod Bytes
pub mod Fields
pub mod Accepted
pub mod Overread
mod Tests
use rxs_supported.Common.{
  ℕ, zero, suc, ◌+◌, ◌-◌, ◌*◌, ◌/◌, ◌%◌, ◌^◌, List, [], ◌∷◌, ◌++◌, Bool, true, false, not, ◌&&◌,
  ◌||◌, ltb, leb, ◌==◌, if◌then◌else◌, Option, none, some, length, take, drop,
}
use rxs_supported.Tools.BlobReader.{
  Reader, Result, ok, rejected, thrown, fault, running, get_varint, get_bytes, skip, remaining,
}
use rxs_supported.Tools.Json.{str_eq}

-- WalletAddress::Net and WalletAddress::Type.
pub data Net : Type 0 where
  mainnet testnet stagenet : Net

pub data Kind : Type 0 where
  public integrated subaddress : Kind

-- Coin::
abbrev pub monero : ℕ
monero = 1

abbrev pub arqma : ℕ
arqma = 2

abbrev pub graft : ℕ
graft = 3

abbrev pub wownero : ℕ
wownero = 4

abbrev pub townforge : ℕ
townforge = 6

pub record TagInfo : Type 0 where
  pub coin : ℕ
  pub net : Net
  pub kind : Kind
  pub rpc_port : ℕ
  pub zmq_port : ℕ

abbrev pub dummy : TagInfo
dummy = record { coin = 0; net = mainnet; kind = public; rpc_port = 0; zmq_port = 0 }

-- The map of `tagInfo`, in the source's order.
abbrev pub tags : List (ℕ × TagInfo)
tags =
    (
      0x12,
      record { coin = monero; net = mainnet; kind = public; rpc_port = 18081; zmq_port = 18082 },
    )
    ∷ (
      0x13,
      record {
        coin = monero;
        net = mainnet;
        kind = integrated;
        rpc_port = 18081;
        zmq_port = 18082;
      },
    )
    ∷ (
      0x2a,
      record {
        coin = monero;
        net = mainnet;
        kind = subaddress;
        rpc_port = 18081;
        zmq_port = 18082;
      },
    )
    ∷ (
      0x35,
      record { coin = monero; net = testnet; kind = public; rpc_port = 28081; zmq_port = 28082 },
    )
    ∷ (
      0x36,
      record {
        coin = monero;
        net = testnet;
        kind = integrated;
        rpc_port = 28081;
        zmq_port = 28082;
      },
    )
    ∷ (
      0x3f,
      record {
        coin = monero;
        net = testnet;
        kind = subaddress;
        rpc_port = 28081;
        zmq_port = 28082;
      },
    )
    ∷ (
      0x18,
      record { coin = monero; net = stagenet; kind = public; rpc_port = 38081; zmq_port = 38082 },
    )
    ∷ (
      0x19,
      record {
        coin = monero;
        net = stagenet;
        kind = integrated;
        rpc_port = 38081;
        zmq_port = 38082;
      },
    )
    ∷ (
      0x24,
      record {
        coin = monero;
        net = stagenet;
        kind = subaddress;
        rpc_port = 38081;
        zmq_port = 38082;
      },
    )
    ∷ (
      0x2cca,
      record { coin = arqma; net = mainnet; kind = public; rpc_port = 19994; zmq_port = 19995 },
    )
    ∷ (
      0x116bc7,
      record { coin = arqma; net = mainnet; kind = integrated; rpc_port = 19994; zmq_port = 19995 },
    )
    ∷ (
      0x6847,
      record { coin = arqma; net = mainnet; kind = subaddress; rpc_port = 19994; zmq_port = 19995 },
    )
    ∷ (
      0x53ca,
      record { coin = arqma; net = testnet; kind = public; rpc_port = 29994; zmq_port = 29995 },
    )
    ∷ (
      0x504a,
      record { coin = arqma; net = testnet; kind = integrated; rpc_port = 29994; zmq_port = 29995 },
    )
    ∷ (
      0x524a,
      record { coin = arqma; net = testnet; kind = subaddress; rpc_port = 29994; zmq_port = 29995 },
    )
    ∷ (
      0x39ca,
      record { coin = arqma; net = stagenet; kind = public; rpc_port = 39994; zmq_port = 39995 },
    )
    ∷ (
      0x1742ca,
      record {
        coin = arqma;
        net = stagenet;
        kind = integrated;
        rpc_port = 39994;
        zmq_port = 39995;
      },
    )
    ∷ (
      0x1d84ca,
      record {
        coin = arqma;
        net = stagenet;
        kind = subaddress;
        rpc_port = 39994;
        zmq_port = 39995;
      },
    )
    ∷ (
      0x1032,
      record { coin = wownero; net = mainnet; kind = public; rpc_port = 34568; zmq_port = 34569 },
    )
    ∷ (
      0x1a9a,
      record {
        coin = wownero;
        net = mainnet;
        kind = integrated;
        rpc_port = 34568;
        zmq_port = 34569;
      },
    )
    ∷ (
      0x2fb0,
      record {
        coin = wownero;
        net = mainnet;
        kind = subaddress;
        rpc_port = 34568;
        zmq_port = 34569;
      },
    )
    ∷ (
      0x5a,
      record { coin = graft; net = mainnet; kind = public; rpc_port = 18981; zmq_port = 18982 },
    )
    ∷ (
      0x5b,
      record { coin = graft; net = mainnet; kind = integrated; rpc_port = 18981; zmq_port = 18982 },
    )
    ∷ (
      0x66,
      record { coin = graft; net = mainnet; kind = subaddress; rpc_port = 18981; zmq_port = 18982 },
    )
    ∷ (
      0x54,
      record { coin = graft; net = testnet; kind = public; rpc_port = 28881; zmq_port = 28882 },
    )
    ∷ (
      0x55,
      record { coin = graft; net = testnet; kind = integrated; rpc_port = 28881; zmq_port = 28882 },
    )
    ∷ (
      0x70,
      record { coin = graft; net = testnet; kind = subaddress; rpc_port = 28881; zmq_port = 28882 },
    )
    ∷ (
      0x424200,
      record { coin = townforge; net = mainnet; kind = public; rpc_port = 18881; zmq_port = 18882 },
    )
    ∷ (
      0x424201,
      record {
        coin = townforge;
        net = mainnet;
        kind = subaddress;
        rpc_port = 18881;
        zmq_port = 18882;
      },
    )
    ∷ (
      0x424210,
      record { coin = townforge; net = testnet; kind = public; rpc_port = 28881; zmq_port = 28882 },
    )
    ∷ (
      0x424211,
      record {
        coin = townforge;
        net = testnet;
        kind = subaddress;
        rpc_port = 28881;
        zmq_port = 28882;
      },
    )
    ∷ (
      0x424220,
      record {
        coin = townforge;
        net = stagenet;
        kind = public;
        rpc_port = 38881;
        zmq_port = 38882;
      },
    )
    ∷ (
      0x424221,
      record {
        coin = townforge;
        net = stagenet;
        kind = subaddress;
        rpc_port = 38881;
        zmq_port = 38882;
      },
    )
    ∷ []

abbrev find_tag : ℕ → List (ℕ × TagInfo) → TagInfo
find_tag tag [] = dummy
find_tag tag ((t, info) ∷ rest) = if t == tag then info else find_tag tag rest

unfoldable pub tag_info : ℕ → TagInfo
tag_info tag = find_tag tag tags

pub record WalletAddress : Type 0 where
  pub text : List ℕ
  pub tag : ℕ
  pub checksum : List ℕ
  pub spend_key : List ℕ
  pub view_key : List ℕ

abbrev pub min_size : ℕ
min_size = 95

abbrev pub max_size : ℕ
max_size = 256

abbrev pub min_data_size : ℕ
min_data_size = 69

abbrev pub is_valid : WalletAddress → Bool
is_valid w = ltb 0 w.tag && leb min_size (length w.text)

abbrev pub alphabet : List ℕ
alphabet =
    b'1' ∷ b'2' ∷ b'3' ∷ b'4' ∷ b'5' ∷ b'6' ∷ b'7' ∷ b'8' ∷ b'9' ∷ b'A' ∷ b'B' ∷ b'C' ∷ b'D' ∷ b'E'
    ∷ b'F' ∷ b'G' ∷ b'H' ∷ b'J' ∷ b'K' ∷ b'L' ∷ b'M' ∷ b'N' ∷ b'P' ∷ b'Q' ∷ b'R' ∷ b'S' ∷ b'T'
    ∷ b'U' ∷ b'V' ∷ b'W' ∷ b'X' ∷ b'Y' ∷ b'Z' ∷ b'a' ∷ b'b' ∷ b'c' ∷ b'd' ∷ b'e' ∷ b'f' ∷ b'g'
    ∷ b'h' ∷ b'i' ∷ b'j' ∷ b'k' ∷ b'm' ∷ b'n' ∷ b'o' ∷ b'p' ∷ b'q' ∷ b'r' ∷ b's' ∷ b't' ∷ b'u'
    ∷ b'v' ∷ b'w' ∷ b'x' ∷ b'y' ∷ b'z' ∷ []

abbrev pub place : ℕ → ℕ → List ℕ → Option ℕ
place i c [] = none
place i c (a ∷ rest) = if a == c then some i else place (suc i) c rest

-- `reverse_alphabet[c]`; a negative index, of a char from 128 on, is a read out of bounds.
unfoldable pub reverse_alphabet : ℕ → Result ℕ
reverse_alphabet c =
    if leb 128 c
    then fault
    else elim (place 0 c alphabet) [ none ↦ rejected | some digit ↦ ok digit ]

-- `num` plus the product of `order` and a digit, where neither overflows.
unfoldable pub add_digit : ℕ → ℕ → ℕ → Option ℕ
add_digit num order digit =
    let tmp = (num + order * digit % 2 ^ 64) % 2 ^ 64 in
    if ltb tmp num || not (order * digit / 2 ^ 64 == 0) then none else some tmp

-- The inner loop of `decode`, over the characters of a block from its last one on.
unfoldable pub decode_chars : List ℕ → ℕ → ℕ → Result ℕ
unfolding add_digit
decode_chars [] num order = ok num
decode_chars (c ∷ cs) num order = elim (reverse_alphabet c) [
  | ok digit ↦ elim (add_digit num order digit) [
    | none ↦ rejected
    | some tmp ↦ decode_chars cs tmp (order * 58 % 2 ^ 64)
  ]
  | rejected ↦ rejected
  | thrown ↦ thrown
  | fault ↦ fault
  | running ↦ running
]

abbrev pub reverse : List ℕ → List ℕ
reverse [] = []
reverse (x ∷ xs) = reverse xs ++ x ∷ []

-- The last `n` bytes of a number, the highest first.
abbrev pub low_bytes : ℕ → ℕ → List ℕ
low_bytes zero num = []
low_bytes (suc n) num = num / 2 ^ (8 * n) % 2 ^ 8 ∷ low_bytes n num

-- `block_sizes`: how many bytes a last block of so many characters holds.
unfoldable pub last_bytes : ℕ → Option ℕ
last_bytes size =
    if size == 0
    then some 0
    else if size == 2
    then some 1
    else if size == 3
    then some 2
    else if size == 5
    then some 3
    else if size == 6
    then some 4
    else if size == 7
    then some 5
    else if size == 9
    then some 6
    else if size == 10
    then some 7
    else none

-- The outer loop, with so many full blocks left, and a last block of `size` characters for `n` bytes.
unfoldable pub decode_blocks : ℕ → ℕ → ℕ → List ℕ → Result (List ℕ)
unfolding decode_chars
decode_blocks zero size n address = elim (decode_chars (reverse (take size address)) 0 1) [
  | ok num ↦ ok (low_bytes n num)
  | rejected ↦ rejected
  | thrown ↦ thrown
  | fault ↦ fault
  | running ↦ running
]
decode_blocks (suc full) size n address = elim (decode_chars (reverse (take 11 address)) 0 1) [
  | ok num ↦ elim (decode_blocks full size n (drop 11 address)) [
    | ok bytes ↦ ok (low_bytes 8 num ++ bytes)
    | rejected ↦ rejected
    | thrown ↦ thrown
    | fault ↦ fault
    | running ↦ running
  ]
  | rejected ↦ rejected
  | thrown ↦ thrown
  | fault ↦ fault
  | running ↦ running
]

-- Of an address that begins with `TF`, the tag that it stands for; `rejected` where it names none.
unfoldable pub townforge_tag : ℕ → ℕ → Result ℕ
townforge_tag kind net =
    let low = if kind == b'1' then some 0 else if kind == b'2' then some 1 else none in
    let high =
      if net == b'M'
      then some 0
      else if net == b'T'
      then some 0x10
      else if net == b'S'
      then some 0x20
      else none in
    elim low [
      | none ↦ rejected
      | some l ↦ elim high [ none ↦ rejected | some h ↦ ok (0x424200 + l + h) ]
    ]

-- The Townforge tag, 0 for another address, and the address without its prefix.
unfoldable pub strip : List ℕ → Result (ℕ × List ℕ)
unfolding townforge_tag
strip (t ∷ f ∷ kind ∷ net ∷ rest) =
    if t == b'T' && f == b'F'
    then (elim (townforge_tag kind net) [
      | ok tag ↦ ok (tag, rest)
      | rejected ↦ rejected
      | thrown ↦ thrown
      | fault ↦ fault
      | running ↦ running
    ])
    else ok (0, t ∷ f ∷ kind ∷ net ∷ rest)
strip address = ok (0, address)

-- The bytes that an address stands for.
unfoldable pub decode_data : List ℕ → Result (List ℕ)
unfolding decode_blocks
decode_data address =
    if ltb (length address) min_size || ltb max_size (length address)
    then rejected
    else elim (last_bytes (length address % 11)) [
      | none ↦ rejected
      | some n ↦
          if ltb (length address / 11 * 8 + n) min_data_size
          then rejected
          else decode_blocks (length address / 11) (length address % 11) n address
    ]

-- `ar.remaining() - sizeof(m_checksum)`, a size_t.
abbrev pub to_checksum : Reader → ℕ
to_checksum r = (remaining r + 2 ^ 64 - 4) % 2 ^ 64

-- The fields read in their order. Without exceptions, `thrown` stands for the answer false, of the
-- object as it is then.
unfoldable pub read_checksum : Reader → WalletAddress → Result (Bool × WalletAddress)
read_checksum r w = elim (skip (to_checksum r) r) [
  | ok (u, r') ↦ elim (get_bytes 4 r') [
    | ok (bytes, r'') ↦ ok (true, record w { checksum = bytes })
    | rejected ↦ ok (false, w)
    | thrown ↦ ok (false, w)
    | fault ↦ fault
    | running ↦ running
  ]
  | rejected ↦ ok (false, w)
  | thrown ↦ ok (false, w)
  | fault ↦ fault
  | running ↦ running
]

unfoldable pub read_view_key : Reader → WalletAddress → Result (Bool × WalletAddress)
unfolding read_checksum
read_view_key r w = elim (get_bytes 32 r) [
  | ok (bytes, r') ↦ read_checksum r' (record w { view_key = bytes })
  | rejected ↦ ok (false, w)
  | thrown ↦ ok (false, w)
  | fault ↦ fault
  | running ↦ running
]

unfoldable pub read_spend_key : Reader → WalletAddress → Result (Bool × WalletAddress)
unfolding read_view_key
read_spend_key r w = elim (get_bytes 32 r) [
  | ok (bytes, r') ↦ read_view_key r' (record w { spend_key = bytes })
  | rejected ↦ ok (false, w)
  | thrown ↦ ok (false, w)
  | fault ↦ fault
  | running ↦ running
]

unfoldable pub read_fields : List ℕ → WalletAddress → Result (Bool × WalletAddress)
unfolding read_spend_key
read_fields bytes w =
    elim (get_varint (record { memory = bytes; size = length bytes; index = 0 })) [
      | ok (tag, r) ↦ read_spend_key r (record w { tag = tag })
      | rejected ↦ ok (false, w)
      | thrown ↦ ok (false, w)
      | fault ↦ fault
      | running ↦ running
    ]

module _ (keccak : List ℕ → List ℕ) where
  -- What follows the reading, of an address for these bytes.
  unfoldable pub check : ℕ → List ℕ → List ℕ → Bool × WalletAddress → Bool × WalletAddress
  check tf_tag address bytes (answer, w) =
      if answer && str_eq w.checksum (take 4 (keccak (take (length bytes - 4) bytes)))
      then (true, record w { text = address; tag = if tf_tag == 0 then w.tag else tf_tag })
      else (false, record w { tag = 0 })

  -- `decode`: its answer and the object after it.
  unfoldable pub decode : List ℕ → WalletAddress → Result (Bool × WalletAddress)
  unfolding strip decode_data read_fields check
  decode address w = elim (strip address) [
    | ok (tf_tag, rest) ↦ elim (decode_data rest) [
      | ok bytes ↦ elim (read_fields bytes w) [
        | ok x ↦ ok (check tf_tag rest bytes x)
        | rejected ↦ rejected
        | thrown ↦ thrown
        | fault ↦ fault
        | running ↦ running
      ]
      | rejected ↦ ok (false, w)
      | thrown ↦ thrown
      | fault ↦ fault
      | running ↦ running
    ]
    | rejected ↦ ok (false, w)
    | thrown ↦ thrown
    | fault ↦ fault
    | running ↦ running
  ]
