-- ===== src/Crypto/MemoryPool/Tests.antt =====
-- MemoryPool.cpp at concrete input.
use rxs_supported.Common.{ℕ, List, [], ◌∷◌, ◌+◌, ◌*◌, ◌%◌, ◌≡◌, refl, arith, length}
use rxs_supported.Crypto.MemoryPool.{Memory, page_size, alignment, new_pool, get, release}
use rxs_supported.Crypto.MemoryPool.Blocks.{
  Call, ask, give_back, act, acts, Apart, start_of, acts-Apart,
}

-- A system that maps every size from the same address on.
abbrev map : ℕ → Memory
map size = record { scratchpad = 4096; size = size }

-- Two blocks of a page are taken and the first one is given back; there is no room for three pages more.
abbrev calls : List Call
calls = ask (3 * page_size) ∷ give_back 1 ∷ ask page_size ∷ ask page_size ∷ []

calls_test : (acts calls (new_pool map 2)).1 ≡ (16777216 + page_size, page_size) ∷ []
unfolding act get release new_pool
calls_test = refl

acts-Apart_example :
    Apart
      (start_of (map (2 * page_size + alignment)))
      (4096 + (2 * page_size + alignment))
      (acts calls (new_pool map 2)).1
    × (start_of (map (2 * page_size + alignment)) % alignment ≡ 0)
    × ((acts calls (new_pool map 2)).0.refs ≡ length (acts calls (new_pool map 2)).1)
acts-Apart_example = acts-Apart map 2 calls (omega arith) (omega arith) (omega arith) (omega arith)
