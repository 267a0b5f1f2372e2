-- ===== src/Tools/BlockTemplate/Tests.antt =====
-- BlockTemplate.cpp at concrete input.
use rxs_supported.Common.{ℕ, List, [], ◌∷◌, ◌≡◌, refl, arith, ◌^◌, ◌-◌, ◌<◌, length, none, some}
use rxs_supported.Tools.BlobReader.{
  Reader, ok, fault, running, put_varint, put_varint_loop, get_byte, get_varint, varint_loop,
  get_span, skip,
}
use rxs_supported.Tools.BlobReader.Bounds.{IsSound}
use rxs_supported.Tools.BlockTemplate.{
  Header, monero, reader_of, parse, parse_blob, parse_header, parse_input, parse_output,
  parse_hashes, hashing_blob,
}
use rxs_supported.Tools.BlockTemplate.ExtraField.{
  parse_extra, extra_loop, extra_field, pubkey_field, sized_field,
}
use rxs_supported.Tools.BlockTemplate.Hashing.{hashing_blob-header}
use rxs_supported.Tools.BlockTemplate.Hang.{parse_extra-looping}
use rxs_supported.Tools.BlockTemplate.Overread.{parse_extra_overread}

-- An extra field that is a nonce tag of size -11, and nothing after it.
abbrev looping : Reader
looping = record {
  memory = 2 ∷ 0xf5 ∷ 0xff ∷ 0xff ∷ 0xff ∷ 0xff ∷ 0xff ∷ 0xff ∷ 0xff ∷ 0xff ∷ 0x01 ∷ [];
  size = 11;
  index = 0;
}

parse_extra-looping_example : parse_extra 1000 0 11 looping ≡ running
unfolding put_varint put_varint_loop
parse_extra-looping_example =
    parse_extra-looping 1000 0 11 looping [] (omega arith) (omega arith) (omega arith) refl

-- A byte of the blob and a public key field up to its end.
abbrev key : List ℕ
key =
    0 ∷ 1 ∷ 2 ∷ 3 ∷ 4 ∷ 5 ∷ 6 ∷ 7 ∷ 0 ∷ 1 ∷ 2 ∷ 3 ∷ 4 ∷ 5 ∷ 6 ∷ 7 ∷ 0 ∷ 1 ∷ 2 ∷ 3 ∷ 4 ∷ 5 ∷ 6 ∷ 7
    ∷ 0 ∷ 1 ∷ 2 ∷ 3 ∷ 4 ∷ 5 ∷ 6 ∷ 7 ∷ []

abbrev overread : Reader
overread = record { memory = 9 ∷ 1 ∷ key; size = 34; index = 1 }

overread-IsSound : IsSound overread
overread-IsSound = record { owned = omega arith; inside = omega arith; machine = omega arith }

parse_extra_overread_example : parse_extra 2 1 (2 ^ 64 - 1) overread ≡ fault
unfolding put_varint put_varint_loop
parse_extra_overread_example =
    parse_extra_overread 2 1 1 overread (key ∷ []) overread-IsSound (omega arith) (omega arith) refl
      (refl, tt) (omega arith) (omega arith)

-- A template of a Monero block with one output, a public key and a nonce of two bytes in its extra field, and 300
-- further transactions.
abbrev template_blob : List ℕ
template_blob =
    16 ∷ 16 ∷ 128 ∷ 226 ∷ 207 ∷ 170 ∷ 6 ∷ 0 ∷ 7 ∷ 14 ∷ 21 ∷ 28 ∷ 35 ∷ 42 ∷ 49 ∷ 56 ∷ 63 ∷ 70 ∷ 77
    ∷ 84 ∷ 91 ∷ 98 ∷ 105 ∷ 112 ∷ 119 ∷ 126 ∷ 133 ∷ 140 ∷ 147 ∷ 154 ∷ 161 ∷ 168 ∷ 175 ∷ 182 ∷ 189
    ∷ 196 ∷ 203 ∷ 210 ∷ 217 ∷ 0 ∷ 0 ∷ 0 ∷ 0 ∷ 2 ∷ 60 ∷ 1 ∷ 255 ∷ 192 ∷ 141 ∷ 183 ∷ 1 ∷ 1 ∷ 128 ∷ 224
    ∷ 165 ∷ 150 ∷ 187 ∷ 17 ∷ 3 ∷ 1 ∷ 6 ∷ 11 ∷ 16 ∷ 21 ∷ 26 ∷ 31 ∷ 36 ∷ 41 ∷ 46 ∷ 51 ∷ 56 ∷ 61 ∷ 66
    ∷ 71 ∷ 76 ∷ 81 ∷ 86 ∷ 91 ∷ 96 ∷ 101 ∷ 106 ∷ 111 ∷ 116 ∷ 121 ∷ 126 ∷ 131 ∷ 136 ∷ 141 ∷ 146 ∷ 151
    ∷ 156 ∷ 90 ∷ 37 ∷ 1 ∷ 2 ∷ 5 ∷ 8 ∷ 11 ∷ 14 ∷ 17 ∷ 20 ∷ 23 ∷ 26 ∷ 29 ∷ 32 ∷ 35 ∷ 38 ∷ 41 ∷ 44 ∷ 47
    ∷ 50 ∷ 53 ∷ 56 ∷ 59 ∷ 62 ∷ 65 ∷ 68 ∷ 71 ∷ 74 ∷ 77 ∷ 80 ∷ 83 ∷ 86 ∷ 89 ∷ 92 ∷ 95 ∷ 2 ∷ 2 ∷ 170
    ∷ 187 ∷ 0 ∷ 172 ∷ 2 ∷ []

abbrev template_header : Header
template_header = record {
  major = 16;
  minor = 16;
  timestamp = 1700000000;
  prev_id = record { start = 7; size = 32 };
  nonce_offset = 39;
}

parse_header_test :
    parse_header monero (reader_of template_blob)
    ≡ ok (template_header, record (reader_of template_blob) { index = 43 })
unfolding parse_header get_byte get_varint varint_loop get_span skip
parse_header_test = refl

parse_test :
    parse 3 monero template_blob
    ≡ ok (record {
      header = template_header;
      input = record {
        prefix_offset = 43;
        tx_version = 2;
        unlock_time = 60;
        height = 3000000;
        num_outputs = 1;
        amount = 600000000000;
        output_type = 3;
      };
      output = record { key_offset = 59; key = record { start = 59; size = 32 }; view_tag = 0x5a };
      unlock_time = 60;
      extra_offset = 93;
      extra = record {
        pubkey_offset = some 94;
        nonce = some (128, record { start = 35; size = 2 });
        merge_mining_tag = none;
      };
      prefix_end = 130;
      num_hashes = some 300;
    })
unfolding parse_blob parse_header parse_input parse_output parse_extra parse_hashes extra_loop
    extra_field pubkey_field sized_field get_byte get_varint varint_loop get_span skip
parse_test = refl

abbrev root_hash : List ℕ
root_hash =
    9 ∷ 9 ∷ 9 ∷ 9 ∷ 9 ∷ 9 ∷ 9 ∷ 9 ∷ 9 ∷ 9 ∷ 9 ∷ 9 ∷ 9 ∷ 9 ∷ 9 ∷ 9 ∷ 9 ∷ 9 ∷ 9 ∷ 9 ∷ 9 ∷ 9 ∷ 9 ∷ 9
    ∷ 9 ∷ 9 ∷ 9 ∷ 9 ∷ 9 ∷ 9 ∷ 9 ∷ 9 ∷ []

hashed_short : length (hashing_blob 300 root_hash 43 template_blob) < 2 ^ 63
unfolding hashing_blob put_varint put_varint_loop
hashed_short = omega arith

hashing_blob-header_example :
    parse_header monero (reader_of (hashing_blob 300 root_hash 43 template_blob))
    ≡ ok (
      template_header,
      record (reader_of (hashing_blob 300 root_hash 43 template_blob)) { index = 43 },
    )
hashing_blob-header_example =
    hashing_blob-header monero template_blob root_hash 300 template_header
      (record (reader_of template_blob) { index = 43 }) (omega arith) parse_header_test hashed_short
