-- ===== src/Crypto/Nonce/Threads.antt =====
-- Nonce.cpp under any interleaving of threads: each `fetch_add` is one atomic step, and what follows
-- it depends only on the value that the thread has fetched. So an execution is the sequence of the
-- fetches of all threads, those of their loops included. A pause is counted with its fetch, so
-- `paused` is read when no call is between the two.
use rxs_supported.Common.{ℕ, ◌+◌, ◌^◌, ◌≤◌, ◌<◌, List, [], ◌∷◌, true, ◌≡◌, arith, All}
use rxs_supported.Crypto.Nonce.{
  Nonce, pause, fetch_add, refused, exhausted, last, straddles, granted, verdict,
}

-- The blocks handed out, the latest first: first nonce and size.
pub record Shared : Type 0 where
  pub nonce : Nonce
  pub blocks : List (ℕ × ℕ)

-- One fetch of some thread, and what the thread does with it.
unfoldable pub fetch : ℕ → Shared → ℕ → Shared
unfolding verdict
fetch mask s reserve =
    let s' : Nonce = fetch_add reserve s.nonce in
    elim (verdict reserve mask s.nonce.counter) [
      | refused ↦ record s { nonce = s' }
      | exhausted ↦ record s { nonce = pause true s' }
      | last ↦ record s { nonce = pause true s'; blocks = (s.nonce.counter, reserve) ∷ s.blocks }
      | straddles ↦ record s { nonce = s' }
      | granted ↦ record s { nonce = s'; blocks = (s.nonce.counter, reserve) ∷ s.blocks }
    ]

unfoldable pub fetches : ℕ → Shared → List ℕ → Shared
fetches mask s [] = s
fetches mask s (reserve ∷ reserves) = fetches mask (fetch mask s reserve) reserves

abbrev pub total : List ℕ → ℕ
total [] = 0
total (r ∷ rs) = r + total rs

-- Each block ends at or before the start of every later one, the last at or before `top`, and
-- lies under the mask.
abbrev pub Disjoint : ℕ → ℕ → List (ℕ × ℕ) → Type 0
Disjoint mask top [] = Unit
Disjoint mask top ((first, size) ∷ blocks) =
    (first + size ≤ top) × (first + size ≤ mask + 1) × Disjoint mask first blocks

pub record IsFair (mask : ℕ) (s : Shared) : Type 0 where
  pub disjoint : Disjoint mask s.nonce.counter s.blocks
  pub pauses : mask < s.nonce.counter → s.nonce.paused ≡ true

Disjoint-mono :
    (mask top top' : ℕ) (bs : List (ℕ × ℕ))
    → top ≤ top'
    → Disjoint mask top bs
    → Disjoint mask top' bs
Disjoint-mono mask top top' [] h d = tt
Disjoint-mono mask top top' (b ∷ bs) h d = (omega arith, d.1, d.2)

fetch-counter :
    (mask : ℕ) (s : Shared) (reserve : ℕ)
    → (fetch mask s reserve).nonce.counter ≤ s.nonce.counter + reserve
unfolding fetch
fetch-counter mask s reserve = ground arith

fetch-IsFair :
    (mask : ℕ) (s : Shared) (reserve : ℕ)
    → 0 < reserve
    → s.nonce.counter + reserve < 2 ^ 64
    → IsFair mask s
    → IsFair mask (fetch mask s reserve)
unfolding fetch
fetch-IsFair mask s reserve h k v =
    ground (arith, Disjoint-mono mask s.nonce.counter (s.nonce.counter + reserve) s.blocks)

-- However the calls of the threads interleave, the blocks that they are given never overlap and lie
-- under the mask, and mining is paused once the counter has passed the mask. The counter must not
-- run past 64 bits, and the calls reserve at least one nonce each.
pub fetches-IsFair :
    (mask : ℕ) (s : Shared) (reserves : List ℕ)
    → All (λ r. 0 < r) reserves
    → s.nonce.counter + total reserves < 2 ^ 64
    → IsFair mask s
    → IsFair mask (fetches mask s reserves)
unfolding fetches
fetches-IsFair mask s [] h k v = v
fetches-IsFair mask s (r ∷ rs) (h, hs) k v =
    let s' = fetch mask s r in
    fetches-IsFair mask s' rs hs (omega (arith, fetch-counter mask s r))
      (fetch-IsFair mask s r h (omega arith) v)
