-- ===== src/Tools/Hashrate.antt =====
-- backend/common/Hashrate.{h,cpp}: rings of the counts of hashes, and the rate over a span of time. An
-- array is a function from its indices.
pub mod Window
pub mod Calls
mod Tests
use rxs_supported.Common.{
  ℕ, zero, suc, ◌+◌, ◌-◌, ◌*◌, ◌%◌, ◌^◌, List, [], ◌∷◌, Bool, true, false, not, ◌&&◌, ◌||◌, ltb,
  leb, ◌==◌, if◌then◌else◌, Option, none, some,
}

abbrev pub bucket_size : ℕ
bucket_size = 4096

-- One thread's m_counts, m_timestamps and m_top.
pub record Ring : Type 0 where
  pub counts : ℕ → ℕ
  pub stamps : ℕ → ℕ
  pub top : ℕ

pub record Hashrate : Type 0 where
  pub threads : ℕ
  pub rings : ℕ → Ring
  pub earliest : ℕ
  pub total : ℕ

abbrev pub new_ring : Ring
new_ring = record { counts = λ i. 0; stamps = λ i. 0; top = 0 }

-- The constructor; one ring more, the first, is for all threads together.
unfoldable pub new_hashrate : ℕ → Hashrate
new_hashrate threads = record {
  threads = threads + 1;
  rings = λ i. new_ring;
  earliest = 2 ^ 64 - 1;
  total = 0;
}

abbrev pub update {ℓ} : {A : Type ℓ} → ℕ → A → (ℕ → A) → ℕ → A
update i a f j = if j == i then a else f j

unfoldable pub push : ℕ → ℕ → Ring → Ring
push count timestamp r = record {
  counts = update r.top count r.counts;
  stamps = update r.top timestamp r.stamps;
  top = (r.top + 1) % bucket_size;
}

-- `addData`; `none` is a write past the arrays.
unfoldable pub add_data : ℕ → ℕ → ℕ → Hashrate → Option Hashrate
unfolding push
add_data index count timestamp h =
    if not (ltb index h.threads)
    then none
    else let h' = record h {
      rings = update index (push count timestamp (h.rings index)) h.rings;
    } in
      if index == 0
      then some (record h' {
        earliest = if h.earliest == 2 ^ 64 - 1 then timestamp else h.earliest;
        total = count;
      })
      else some h'

-- `{ false, 0.0 }`, `{ true, 0.0 }`, and so many hashes in so many milliseconds, as the quotient of which
-- the floating point number is made; neither number is 0, so that it is a normal one.
pub data Rate : Type 0 where
  unavailable idle : Rate
  rate : (hashes ms : ℕ) → Rate

abbrev pub sub64 : ℕ → ℕ → ℕ
sub64 a b = (a + 2 ^ 64 - b) % 2 ^ 64

-- What the loop of `hashrate` finds: haveFullSet, and the count and the stamp of the earliest sample.
pub record Found : Type 0 where
  pub full : Bool
  pub count : ℕ
  pub stamp : ℕ

-- The loop, with so many rounds left; `idx` moves down.
unfoldable pub scan : ℕ → ℕ → ℕ → ℕ → Ring → Found
scan zero limit start idx r = record { full = false; count = 0; stamp = 0 }
scan (suc rounds) limit start idx r =
    let up = (idx + 1) % bucket_size in
    let down = (idx + bucket_size - 1) % bucket_size in
    let more = scan rounds limit start down r in
    if ltb (r.stamps idx) limit
    then (if idx == start
        then record { full = not (r.stamps idx == 0); count = 0; stamp = 0 }
        else record { full = not (r.stamps idx == 0); count = r.counts up; stamp = r.stamps up })
    else if down == start
    then record { full = false; count = 0; stamp = 0 }
    else more

-- What follows the loop, for the latest count and stamp.
unfoldable pub judge : ℕ → ℕ → Found → Rate
judge count stamp f =
    if not f.full || f.stamp == 0 || stamp == 0
    then unavailable
    else if count == f.count
    then idle
    else if stamp == f.stamp
    then unavailable
    else rate (sub64 count f.count) (sub64 stamp f.stamp)

-- `hashrate` over one ring, at a time.
unfoldable pub ring_rate : ℕ → ℕ → Ring → Rate
ring_rate now ms r =
    let start = (r.top + bucket_size - 1) % bucket_size in
    judge (r.counts start) (r.stamps start) (scan bucket_size (sub64 now ms) start start r)

unfoldable pub hashrate : ℕ → ℕ → ℕ → Hashrate → Rate
hashrate now index ms h =
    if leb h.threads index then unavailable else ring_rate now ms (h.rings index)
