-- ===== src/Tools/WalletAddress/Tests.antt =====
-- Blocks and addresses of wallets.
use rxs_supported.Common.{
  ℕ, zero, suc, ◌%◌, ◌^◌, List, [], ◌∷◌, ◌++◌, true, length, length-replicate, replicate, ltb,
  if◌then◌else◌, ◌≡◌, ◌≤◌, refl, ap, arith,
}
use rxs_supported.Tools.BlobReader.{
  get_varint, varint_loop, get_byte, get_bytes, copy, skip, ok, rejected, fault,
}
use rxs_supported.Tools.WalletAddress.{
  WalletAddress, decode_data, decode_blocks, read_fields, read_spend_key, read_view_key,
  read_checksum, check, decode_chars, reverse_alphabet, add_digit, decode, strip, last_bytes,
  tag_info, monero, mainnet, integrated,
}
use rxs_supported.Tools.WalletAddress.Base58.{decode_chars-value, value}
use rxs_supported.Tools.WalletAddress.Accepted.{Checked, Prefixed, decode-Checked}
use rxs_supported.Tools.WalletAddress.Overread.{decode-overread}

abbrev new_address : WalletAddress
new_address = record { text = []; tag = 0; checksum = []; spend_key = []; view_key = [] }

-- `21`, from its last character on.
decode_chars-value_example :
    decode_chars (b'1' ∷ b'2' ∷ []) 0 1
    ≡ (if ltb (value (b'1' ∷ b'2' ∷ [])) (2 ^ 64) then ok (value (b'1' ∷ b'2' ∷ [])) else rejected)
unfolding reverse_alphabet
decode_chars-value_example =
    decode_chars-value (b'1' ∷ b'2' ∷ []) (omega arith) ((0, refl), ((1, refl), tt))

value_test : value (b'1' ∷ b'2' ∷ []) ≡ 58
unfolding value reverse_alphabet
value_test = refl

tag_info_test :
    tag_info 0x13
    ≡ record { coin = monero; net = mainnet; kind = integrated; rpc_port = 18081; zmq_port = 18082 }
unfolding tag_info
tag_info_test = refl

abbrev front : List ℕ
front = b'4' ∷ 49 ∷ 49 ∷ 49 ∷ 49 ∷ 49 ∷ 49 ∷ 49 ∷ 49 ∷ 49 ∷ []

abbrev tail : List ℕ
tail = replicate 84 49

length-tail : length tail ≡ 84
length-tail = length-replicate {A = ℕ} 84 49

whole_length : length (front ++ 200 ∷ tail) ≡ 95
whole_length = omega (arith, length-tail)

decode-overread_example : decode (λ bytes. bytes) (front ++ 200 ∷ tail) new_address ≡ fault
unfolding strip last_bytes
decode-overread_example =
    decode-overread (λ bytes. bytes) (front ++ 200 ∷ tail) front tail 0 200 5 new_address refl refl
      (omega arith) (omega (arith, length-tail)) (omega (arith, length-tail))
      (ap (λ m. last_bytes (m % 11)) whole_length) (omega (arith, length-tail))

-- Of zeros, with a hash that begins with four of them.
abbrev hash : List ℕ → List ℕ
hash bytes = 0 ∷ 0 ∷ 0 ∷ 0 ∷ []

abbrev many : ℕ → ℕ → List ℕ
many zero a = []
many (suc n) a = a ∷ many n a

abbrev zeros : List ℕ
zeros = many 32 0

abbrev ones : List ℕ
ones = many 95 49

abbrev zero_address : WalletAddress
zero_address = record {
  text = ones;
  tag = 0;
  checksum = 0 ∷ 0 ∷ 0 ∷ 0 ∷ [];
  spend_key = zeros;
  view_key = zeros;
}

ones-accepted : decode hash ones new_address ≡ ok (true, zero_address)
unfolding decode strip decode_data decode_blocks decode_chars add_digit reverse_alphabet last_bytes
    read_fields read_spend_key read_view_key read_checksum get_varint varint_loop get_byte get_bytes
    copy skip check
ones-accepted = refl

decode-Checked_example :
    Checked hash ones zero_address
    × Prefixed ones zero_address.text
    × (95 ≤ length zero_address.text)
    × (length zero_address.text ≤ 256)
decode-Checked_example = decode-Checked hash ones new_address zero_address ones-accepted
