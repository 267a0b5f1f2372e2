-- ===== src/Net/Job/Tests.antt =====
-- Job.cpp at concrete input.
use rxs_supported.Common.{
  ℕ, ◌+◌, ◌-◌, ◌*◌, ◌≤◌, ◌<◌, ◌^◌, List, [], ◌∷◌, ◌++◌, true, false, not, ◌==◌, none, some, take,
  length, length-append, length-replicate, All-replicate, take_all, replicate, All, ◌≡◌, refl, ap,
  sym, ◌∙◌, arith,
}
use rxs_supported.Tools.BlobReader.{put_varint, put_varint_loop}
use rxs_supported.Tools.Cvt.{
  bin2hex_loop, from_hex, hex2bin, hex2bin_loop, hex2bin_end, no_digit, val, num, num0, alpha,
  alpha0,
}
use rxs_supported.Tools.Cvt.RoundTrip.{bin2hex_loop-Bytes}
use rxs_supported.Net.Job.{
  Job, set_target, parse_target, raw_target, set_blob, get_num_transactions, with_bytes, read_nonce,
}
use rxs_supported.Net.Job.Blob.{HoldsBlob, set_blob-bin2hex, set_blob-HoldsBlob}
use rxs_supported.Net.Job.Target.{set_target-Accepted}
use rxs_supported.Net.Job.Transactions.{get_num_transactions-put_varint}

abbrev new_job : Job
new_job = record {
  algorithm = 0x72151200;
  nicehash = false;
  seed = [];
  size = 0;
  client_id = none;
  extra_nonce = none;
  id = none;
  pool_wallet = none;
  backend = 0;
  diff = 0;
  height = 0;
  target = 0;
  blob = replicate 408 0;
  index = 0;
  eph_public_key = [];
  eph_secret_key = [];
  has_miner_signature = false;
}

-- `ffff0000`, and what the program makes of it.
abbrev target_text : List ℕ
target_text = b'f' ∷ b'f' ∷ b'f' ∷ b'f' ∷ b'0' ∷ b'0' ∷ b'0' ∷ b'0' ∷ []

set_target_test :
    set_target (some target_text) new_job
    ≡ some (true, record new_job { target = 281470681808895; diff = 65537 })
unfolding set_target parse_target raw_target from_hex hex2bin hex2bin_loop hex2bin_end no_digit val
    num num0 alpha alpha0
set_target_test = refl

text_of_digits : All (λ c. c < 256) target_text
text_of_digits = (
  omega arith,
  (
    omega arith,
    (omega arith, (omega arith, (omega arith, (omega arith, (omega arith, (omega arith, tt)))))),
  ),
)

set_target-Accepted_example :
    (0 < 281470681808895)
    × (281470681808895 < 2 ^ 64)
    × (0 < 65537)
    × (65537 * 281470681808895 ≤ 2 ^ 64 - 1)
    × (2 ^ 64 - 1 < (65537 + 1) * 281470681808895)
set_target-Accepted_example =
    set_target-Accepted target_text new_job
      (record new_job { target = 281470681808895; diff = 65537 }) text_of_digits set_target_test

-- A blob of 76 bytes: the front and one transaction.
abbrev front : List ℕ
front = replicate 75 5

front-Bytes : All (λ b. b < 256) front
front-Bytes = All-replicate (λ b. b < 256) 75 5 (omega arith)

front_taken : set_blob (some (bin2hex_loop front)) new_job ≡ (
  true,
  record (with_bytes front new_job) {
    size = length front;
    nicehash = not (read_nonce (with_bytes front new_job) == 0);
  },
)
front_taken =
    set_blob-bin2hex front new_job front-Bytes (omega (arith, length-replicate {A = ℕ} 75 5))
      (omega (arith, length-replicate {A = ℕ} 75 5))

set_blob-HoldsBlob_example : HoldsBlob (bin2hex_loop front) (record (with_bytes front new_job) {
  size = length front;
  nicehash = not (read_nonce (with_bytes front new_job) == 0);
})
set_blob-HoldsBlob_example =
    set_blob-HoldsBlob (bin2hex_loop front) new_job _ (bin2hex_loop-Bytes front front-Bytes)
      (length-replicate 408 0) front_taken

-- A job whose blob is the front and 300 transactions.
abbrev job_of_300 : Job
job_of_300 = record new_job { size = 77; blob = front ++ 0xac ∷ 2 ∷ [] }

put_300 : put_varint 300 ≡ 0xac ∷ 2 ∷ []
unfolding put_varint put_varint_loop
put_300 = refl

length_of_300 : length (front ++ 0xac ∷ 2 ∷ []) ≡ 77
length_of_300 =
    length-append front (0xac ∷ 2 ∷ []) ∙ ap (λ n. n + 2) (length-replicate {A = ℕ} 75 5)

blob_of_300 : take 77 (front ++ 0xac ∷ 2 ∷ []) ≡ front ++ put_varint 300
blob_of_300 =
    take_all 77 (front ++ 0xac ∷ 2 ∷ []) (omega (arith, length_of_300))
    ∙ ap (λ t. front ++ t) (sym put_300)

get_num_transactions-put_varint_example : get_num_transactions job_of_300 ≡ 300
get_num_transactions-put_varint_example =
    get_num_transactions-put_varint 300 job_of_300 front (omega arith) refl refl
      (length-replicate 75 5) blob_of_300 (ap (λ t. 75 + length t) (sym put_300))
