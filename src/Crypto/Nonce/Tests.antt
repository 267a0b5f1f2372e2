-- ===== src/Crypto/Nonce/Tests.antt =====
-- Nonce.cpp at concrete input.
use rxs_supported.Common.{[], ◌∷◌, true, false, ◌≡◌, refl, arith}
use rxs_supported.Crypto.Nonce.{Nonce, init, Words, verdict}
use rxs_supported.Crypto.Nonce.Threads.{Shared, IsFair, fetches, fetch, fetches-IsFair}

abbrev mining : Nonce
mining = record init { paused = false }

abbrev fresh : Shared
fresh = record { nonce = mining; blocks = [] }

-- Three threads on a mask of five bits: the third block is cut off by the mask, and mining pauses.
three_blocks :
    ((fetches 31 fresh (16 ∷ 8 ∷ 16 ∷ [])).blocks ≡ (16, 8) ∷ (0, 16) ∷ [])
    × ((fetches 31 fresh (16 ∷ 8 ∷ 16 ∷ [])).nonce.paused ≡ true)
unfolding fetches fetch verdict
three_blocks = (refl, refl)

fetches-IsFair_example : IsFair 31 (fetches 31 fresh (16 ∷ 8 ∷ 16 ∷ []))
fetches-IsFair_example =
    fetches-IsFair 31 fresh (16 ∷ 8 ∷ 16 ∷ []) (omega arith) (omega arith)
      (record { disjoint = tt; pauses = λ h. absurd (omega arith) })

abbrev words : Words
words = record { low = 0xab12_3456; high = 7 }
