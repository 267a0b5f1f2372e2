-- ===== src/Crypto/MemoryPool.antt =====
-- crypto/common/MemoryPool.{h,cpp}: blocks given out one after the other from one mapping.
pub mod Blocks
mod Tests
use rxs_supported.Common.{
  ℕ, zero, suc, ◌+◌, ◌-◌, ◌*◌, ◌%◌, ◌^◌, List, [], ◌∷◌, Bool, true, false, ltb, leb, ◌==◌,
  if◌then◌else◌, Option, none, some, length,
}

abbrev pub page_size : ℕ
page_size = 2 * 1024 * 1024

abbrev pub alignment : ℕ
alignment = 2 ^ 24

-- A VirtualMemory: where it starts and its size.
pub record Memory : Type 0 where
  pub scratchpad : ℕ
  pub size : ℕ

pub record MemoryPool : Type 0 where
  pub refs : ℕ
  pub offset : ℕ
  pub align_offset : ℕ
  pub memory : Option Memory

abbrev pub without_memory : MemoryPool
without_memory = record { refs = 0; offset = 0; align_offset = 0; memory = none }

-- The constructor; `map` is the VirtualMemory that the system gives for a size.
unfoldable pub new_pool : (ℕ → Memory) → ℕ → MemoryPool
new_pool map size =
    let m = map ((size * page_size + alignment) % 2 ^ 64) in
    if size == 0 then without_memory else record without_memory {
      memory = some m;
      align_offset = (alignment - m.scratchpad % alignment) % alignment;
    }

-- `a - b` of size_t.
abbrev pub sub64 : ℕ → ℕ → ℕ
sub64 a b = (a + 2 ^ 64 - b) % 2 ^ 64

-- `get`: the block's address, null when there is no room, and the pool after it.
unfoldable pub get : ℕ → MemoryPool → Option ℕ × MemoryPool
get size p = elim p.memory [
  | none ↦ (none, p)
  | some m ↦ if ltb (sub64 (sub64 m.size p.offset) p.align_offset) size then (none, p) else (
    some (m.scratchpad + p.align_offset + p.offset),
    record p { offset = (p.offset + size) % 2 ^ 64; refs = p.refs + 1 },
  )
]

-- `release`, with NDEBUG.
unfoldable pub release : MemoryPool → MemoryPool
release p =
    let refs = if ltb 0 p.refs then p.refs - 1 else p.refs in
    record p { refs = refs; offset = if refs == 0 then 0 else p.offset }
