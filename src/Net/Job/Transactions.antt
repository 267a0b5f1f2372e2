-- ===== src/Net/Job/Transactions.antt =====
-- Job.cpp: the number of transactions at the end of a hashing blob.
use Prim.Native.Nat.{bit_or}
use native.Mathlib.Decide.{dec_lt}
use native.Mathlib.Numerals.{unary_clauses}
use rxs_supported.Common.{
  drop-append, ℕ, zero, suc, ◌+◌, ◌*◌, ◌/◌, ◌%◌, ◌^◌, ◌≤◌, ◌<◌, List, [], ◌∷◌, ◌++◌, true, false,
  ltb, leb, ◌==◌, take, drop, length, ◌≡◌, refl, ◌∙◌, arith,
}
use rxs_supported.Common.Bits.{bit_or-below, two_pow_add_seven}
use rxs_supported.Tools.BlobReader.{put_varint, put_varint_loop}
use rxs_supported.Tools.BlobReader.Varint.{
  more_digit, digit_lem, split_sum, digit_below, put_small, put_large,
}
use rxs_supported.Net.Job.{Job, family, random_x, rx_wow, transactions_loop, get_num_transactions}

digit_sum32 :
    (k num x : ℕ)
    → num < 2 ^ k
    → x * 2 ^ k < 2 ^ 32
    → bit_or num (x * 2 ^ k % 2 ^ 32) ≡ num + x * 2 ^ k
digit_sum32 k num x h l = ground (arith, bit_or-below k x num h)

loop_last :
    (k num n : ℕ)
    → n < 128
    → num < 2 ^ k
    → n * 2 ^ k < 2 ^ 32
    → transactions_loop k num (n ∷ []) ≡ num + n * 2 ^ k
unfolding transactions_loop
loop_last k num n s p h =
    let (_, _, d) = digit_lem n (omega arith) in
    rw ((d s).0) (ground (arith, digit_sum32 k num n p h))

loop_more :
    (k num n : ℕ) (bs : List ℕ)
    → num < 2 ^ k
    → n % 128 * 2 ^ k < 2 ^ 32
    → transactions_loop k num (more_digit (n % 2 ^ 8) ∷ bs)
      ≡ transactions_loop (k + 7) (num + n % 128 * 2 ^ k) bs
unfolding transactions_loop
loop_more k num n bs p h =
    let (v, c, _) = digit_lem (n % 2 ^ 8) (omega arith) in
    let w : n % 2 ^ 8 % 128 ≡ n % 128 = omega arith in
    rw (transactions_loop, v, w, digit_sum32 k num (n % 128) p h, c) refl

low_part : (n t m : ℕ) → n * t < m → n % 128 * t < m
low_part n t m h = let e : n / 128 * 128 + n % 128 ≡ n = omega arith in grind (arith, e)

last_small : (k n : ℕ) → k ≡ 63 → n * 2 ^ k < 2 ^ 28 → n < 128
last_small k n e h = let h' : n * 2 ^ 63 < 2 ^ 28 = rw e at h in omega arith

loop_put :
    (f k num n : ℕ)
    → k + 7 * f ≡ 63
    → num < 2 ^ k
    → n * 2 ^ k < 2 ^ 28
    → transactions_loop k num (put_varint_loop f n) ≡ num + n * 2 ^ k
loop_put zero k num n e p h =
    let s = last_small k n (omega arith) h in
    rw (put_small zero n s) (loop_last k num n s p (omega arith))
loop_put (suc f) k num n e p h = elim (dec_lt n 128) [
  | yes s ↦ rw (put_small (suc f) n s) (loop_last k num n s p (omega arith))
  | no g ↦
      let low = low_part n (2 ^ k) (2 ^ 28) h in
      let split = split_sum k num n in
      rw
        (
          put_large f n (omega arith),
          loop_more k num n (put_varint_loop f (n / 128)) p (omega arith),
        )
        (loop_put f (k + 7) (num + n % 128 * 2 ^ k) (n / 128) (omega arith)
            (omega (arith, two_pow_add_seven k, digit_below n (2 ^ k) num p)) (omega arith)
          ∙ omega (arith, split))
]

-- A number below 128 ^ d, with d at least 1, has at most d digits, and at least one.
length_put :
    (f d n : ℕ)
    → n < 128 ^ suc d
    → (0 < length (put_varint_loop f n)) × (length (put_varint_loop f n) ≤ suc d)
length_put f zero n h = rw (put_small f n (omega arith)) (omega arith, omega arith)
length_put zero (suc d) n h = unfold put_varint_loop in (ground arith, ground arith)
length_put (suc f) (suc d) n h = elim (dec_lt n 128) [
  | yes s ↦ rw (put_small (suc f) n s) (omega arith, omega arith)
  | no g ↦
      let h' : n < 128 * 128 ^ suc d = (let k = simp unary_clauses at h in omega (arith, k)) in
      let (_, r) = length_put f d (n / 128) (omega arith) in
      rw (put_large f n (omega arith)) (omega arith, omega arith)
]

in_range : (size : ℕ) → 75 < size → size ≤ 79 → (ltb 75 size ≡ true) × (leb size 79 ≡ true)
in_range size h k = (ground arith, ground arith)

-- From the hashing blob of a RandomX coin other than Wownero, which ends with a varint after 75 bytes, the
-- number that the varint was written for is read, if it is below 2 ^ 28.
pub get_num_transactions-put_varint :
    (n : ℕ) (j : Job) (front : List ℕ)
    → n < 2 ^ 28
    → family j.algorithm ≡ random_x
    → (j.algorithm == rx_wow) ≡ false
    → length front ≡ 75
    → take j.size j.blob ≡ front ++ put_varint n
    → j.size ≡ 75 + length (put_varint n)
    → get_num_transactions j ≡ n
unfolding get_num_transactions put_varint
get_num_transactions-put_varint n j front h r w l b s =
    let (p, q) = length_put 9 3 n h in
    let e : drop 75 (take j.size j.blob) ≡ put_varint_loop 9 n =
      rw (b, ← l) (drop-append front (put_varint_loop 9 n)) in
    let v = loop_put 9 0 0 n (omega arith) (omega arith) (omega arith) in
    let (lo, hi) = in_range j.size (omega arith) (omega arith) in
    rw (get_num_transactions, w, r, lo, hi, e, v) (omega arith)
