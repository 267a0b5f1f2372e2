-- ===== src/Crypto/Nonce/Calls.antt =====
-- Nonce::next of one thread: how long its loop runs, and what it writes.
use rxs_supported.Common.{ℕ, suc, ◌+◌, ◌*◌, ◌/◌, ◌%◌, ◌^◌, ◌≤◌, ◌<◌, none, ◌≡◌, ◌≢◌, arith}
use rxs_supported.Common.Bits.{bit_and-high, bit_or-shifted}
use rxs_supported.Crypto.Nonce.{
  Nonce, straddles, verdict, Words, write_nonce, loop, next, clear_top,
}

-- A block that would cross a multiple of 2 ^ 32 is given up once: the next one does not cross.
straddles_once :
    (reserve mask counter : ℕ)
    → reserve ≤ 2 ^ 31
    → verdict reserve mask counter ≡ straddles
    → verdict reserve mask (counter + reserve) ≢ straddles
unfolding verdict
straddles_once reserve mask counter h e = λ f. ground arith

wraps_not : (n : ℕ) → n < 2 ^ 64 → n % 2 ^ 64 ≡ n
wraps_not n h = omega arith

-- Two rounds of the loop are enough for blocks of at most 2 ^ 31 nonces: further fuel changes
-- nothing, and the call returns.
next_fuel :
    (fuel : ℕ) (s : Nonce) (w : Words) (reserve mask : ℕ)
    → reserve ≤ 2 ^ 31
    → s.counter + 2 * reserve < 2 ^ 64
    → (next (suc (suc fuel)) s w reserve mask ≡ next 2 s w reserve mask)
      × (next 2 s w reserve mask ≢ none)
unfolding next loop
next_fuel fuel s w reserve mask h k =
    ground
      (arith, straddles_once reserve (clear_top mask) s.counter h, wraps_not (s.counter + reserve))

-- A nicehash job leaves the top byte of the nonce to the pool: the counter goes below it.
write_nonce-nicehash :
    (w : Words) (counter : ℕ)
    → w.low < 2 ^ 32
    → counter < 2 ^ 24
    → write_nonce w 0xff_ffff counter ≡ record w { low = w.low / 2 ^ 24 * 2 ^ 24 + counter }
unfolding write_nonce
write_nonce-nicehash w counter h k = ground (
  arith,
  bit_and-high 40 24 (w.low / 2 ^ 24) (w.low % 2 ^ 24),
  bit_or-shifted 24 (w.low / 2 ^ 24) counter k,
)
