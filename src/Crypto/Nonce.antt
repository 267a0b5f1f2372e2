-- ===== src/Crypto/Nonce.antt =====
-- crypto/common/Nonce.{h,cpp}: worker threads take disjoint blocks of nonces from a shared counter.
-- `MAX` is 1, so each array has one element. Counters and masks are uint64_t, nonces uint32_t.
pub mod Threads
pub mod Calls
mod Tests
use Prim.Native.Nat.{bit_and, bit_or}
use rxs_supported.Common.{
  ℕ, zero, suc, ◌+◌, ◌-◌, ◌/◌, ◌%◌, ◌^◌, Bool, true, false, ◌||◌, ltb, leb, ◌==◌, if◌then◌else◌,
  Option, none, some,
}

pub record Nonce : Type 0 where
  pub paused : Bool
  pub sequence : ℕ
  pub counter : ℕ

abbrev pub init : Nonce
init = record { paused = true; sequence = 1; counter = 0 }

unfoldable pub is_outdated : Nonce → ℕ → Bool
is_outdated s sequence = if s.sequence == sequence then false else true

abbrev pub pause : Bool → Nonce → Nonce
pause paused s = record s { paused = paused }

abbrev pub reset : Nonce → Nonce
reset s = record s { counter = 0 }

abbrev pub stop : Nonce → Nonce
stop s = record (pause false s) { sequence = 0 }

abbrev pub touch : Nonce → Nonce
touch s = record s { sequence = (s.sequence + 1) % 2 ^ 64 }

-- `m_nonces[index].fetch_add(reserveCount)`; the value before is what the caller goes on with.
abbrev pub fetch_add : ℕ → Nonce → Nonce
fetch_add reserve s = record s { counter = (s.counter + reserve) % 2 ^ 64 }

-- What the body of the loop makes of a counter that it has fetched.
pub data Verdict : Type 0 where
  refused exhausted last straddles granted : Verdict

unfoldable pub verdict : ℕ → ℕ → ℕ → Verdict
verdict reserve mask counter =
    if ltb mask counter
    then refused
    else if leb (mask - counter) (reserve - 1)
    then (if ltb (mask - counter) (reserve - 1) then exhausted else last)
    else if ltb (0xffff_ffff - counter % 2 ^ 32) (reserve - 1)
    then straddles
    else granted

-- The two words at `nonce`.
pub record Words : Type 0 where
  pub low : ℕ
  pub high : ℕ

-- `~mask` of a uint64_t.
abbrev pub not64 : ℕ → ℕ
not64 mask = 2 ^ 64 - 1 - mask

unfoldable pub write_nonce : Words → ℕ → ℕ → Words
write_nonce w mask counter = record {
  low = bit_or (bit_and w.low (not64 mask)) counter % 2 ^ 32;
  high =
      if ltb 0xffff_ffff mask
      then bit_or (bit_and w.high (not64 mask / 2 ^ 32)) (counter / 2 ^ 32) % 2 ^ 32
      else w.high;
}

-- The loop, on fuel, for one thread alone; `none` means that the fuel ran out.
unfoldable pub loop : ℕ → Nonce → Words → ℕ → ℕ → ℕ → Option (Nonce × Words × Bool)
loop zero s w reserve mask counter = none
loop (suc fuel) s w reserve mask counter = elim (verdict reserve mask counter) [
  | refused ↦ some (s, w, false)
  | exhausted ↦ some (pause true s, w, false)
  | last ↦ some (pause true s, write_nonce w mask counter, true)
  | straddles ↦ loop fuel (fetch_add reserve s) w reserve mask s.counter
  | granted ↦ some (s, write_nonce w mask counter, true)
]

abbrev pub clear_top : ℕ → ℕ
clear_top mask = mask % 2 ^ 63

unfoldable pub next : ℕ → Nonce → Words → ℕ → ℕ → Option (Nonce × Words × Bool)
next fuel s w reserve mask =
    if reserve == 0 || ltb (clear_top mask) (reserve - 1)
    then some (s, w, false)
    else loop fuel (fetch_add reserve s) w reserve (clear_top mask) s.counter
