-- ===== src/Crypto/MemoryPool/Blocks.antt =====
-- MemoryPool.cpp: the blocks that are held at one time.
use rxs_supported.Common.{
  ℕ, zero, suc, ◌+◌, ◌-◌, ◌*◌, ◌%◌, ◌^◌, ◌≤◌, ◌<◌, List, [], ◌∷◌, true, false, ltb, ◌==◌,
  if◌then◌else◌, Option, none, some, length, ◌≡◌, refl, ap, arith, Bool-cases, inl, inr,
}
use rxs_supported.Crypto.MemoryPool.{
  Memory, MemoryPool, new_pool, get, release, alignment, page_size,
}

-- The start and the size of each block that is held, the latest first.
abbrev pub Held : Type 0
Held = List (ℕ × ℕ)

-- The `i`th block is given back.
abbrev pub remove : ℕ → Held → Held
remove i [] = []
remove zero (b ∷ bs) = bs
remove (suc i) (b ∷ bs) = b ∷ remove i bs

-- What the holders do: ask for a block, or give back one that they hold.
pub data Call : Type 0 where
  ask : (size : ℕ) → Call
  give_back : (i : ℕ) → Call

abbrev pub take_block : ℕ → Option ℕ → Held → Held
take_block size none held = held
take_block size (some start) held = (start, size) ∷ held

unfoldable pub act : Call → MemoryPool × Held → MemoryPool × Held
act (ask size) (p, held) = ((get size p).1, take_block size (get size p).0 held)
act (give_back i) (p, held) = if ltb i (length held) then (release p, remove i held) else (p, held)

-- Calls, the latest first.
abbrev pub acts : List Call → MemoryPool → MemoryPool × Held
acts [] p = (p, [])
acts (c ∷ cs) p = act c (acts cs p)

-- Blocks between `base` and `top` that do not overlap: each starts where those before it have ended.
abbrev pub Apart : ℕ → ℕ → Held → Type 0
Apart base top [] = Unit
Apart base top ((start, size) ∷ held) =
    (start + size ≤ top) × (base ≤ start) × Apart base start held

Apart-higher :
    (base top top' : ℕ) (held : Held) → top ≤ top' → Apart base top held → Apart base top' held
Apart-higher base top top' [] l a = tt
Apart-higher base top top' ((start, size) ∷ held) l (e, b, a) = (omega arith, b, a)

remove-Apart : (base top i : ℕ) (held : Held) → Apart base top held → Apart base top (remove i held)
remove-Apart base top i [] a = tt
remove-Apart base top zero ((start, size) ∷ held) (e, b, a) =
    Apart-higher base start top held (omega arith) a
remove-Apart base top (suc i) ((start, size) ∷ held) (e, b, a) =
    (e, b, remove-Apart base start i held a)

none-Apart : (base top : ℕ) (held : Held) → length held ≡ 0 → Apart base top held
none-Apart base top [] l = tt
none-Apart base top (b ∷ held) l = absurd (omega arith)

length-remove : (i : ℕ) (held : Held) → i < length held → length held ≡ suc (length (remove i held))
length-remove i [] h = absurd (omega arith)
length-remove zero (b ∷ held) h = refl
length-remove (suc i) (b ∷ held) h = ap suc (length-remove i held (omega arith))

-- The pool over a memory, and the blocks that are held of it.
pub record Inv (m : Memory) (align : ℕ) (p : MemoryPool) (held : Held) : Type 0 where
  pub memory : p.memory ≡ some m
  pub aligned : p.align_offset ≡ align
  pub room : p.offset + align ≤ m.size
  pub counted : p.refs ≡ length held
  pub apart : Apart (m.scratchpad + align) (m.scratchpad + align + p.offset) held

-- `get` in a pool whose sizes do not wrap.
get_lem :
    (m : Memory) (align size : ℕ) (p : MemoryPool)
    → m.size < 2 ^ 64
    → p.memory ≡ some m
    → p.align_offset ≡ align
    → p.offset + align ≤ m.size
    → get size p ≡ (
        if ltb (m.size - (p.offset + align)) size then (none, p) else (
          some (m.scratchpad + align + p.offset),
          record p { offset = (p.offset + size) % 2 ^ 64; refs = p.refs + 1 },
        ))
unfolding get
get_lem m align size p s e a r =
    let left : (((m.size + 2 ^ 64 - p.offset) % 2 ^ 64) + 2 ^ 64 - align) % 2 ^ 64
        ≡ m.size - (p.offset + align) =
      omega arith in
    simp (get, e, a, left) refl

get-Inv :
    (m : Memory) (align size : ℕ) (p : MemoryPool) (held : Held)
    → m.size < 2 ^ 64
    → Inv m align p held
    → Inv m align (get size p).1 (take_block size (get size p).0 held)
get-Inv m align size p held s v = elim (Bool-cases (ltb (m.size - (p.offset + align)) size)) [
  | inl t ↦ rw (get_lem m align size p s v.memory v.aligned v.room, t) v
  | inr f ↦
      let fits : p.offset + size + align ≤ m.size = ground (arith, f, v.room) in
      let whole : (p.offset + size) % 2 ^ 64 ≡ p.offset + size = omega arith in
      rw (get_lem m align size p s v.memory v.aligned v.room, f, whole)
        (record {
          memory = v.memory;
          aligned = v.aligned;
          room = fits;
          counted = omega (arith, v.counted);
          apart = (omega arith, omega arith, v.apart);
        })
]

release-Inv :
    (m : Memory) (align i : ℕ) (p : MemoryPool) (held : Held)
    → i < length held
    → Inv m align p held
    → Inv m align (release p) (remove i held)
unfolding release
release-Inv m align i p held h v =
    let l = length-remove i held h in
    let some_refs : ltb 0 p.refs ≡ true = ground (arith, v.counted) in
    let r = remove-Apart (m.scratchpad + align) (m.scratchpad + align + p.offset) i held v.apart in
    elim (Bool-cases (p.refs - 1 == 0)) [
      | inl z ↦
          rw (release, some_refs, z)
            (record {
              memory = v.memory;
              aligned = v.aligned;
              room = omega (arith, v.room);
              counted = omega (arith, l, v.counted);
              apart =
                  none-Apart (m.scratchpad + align) (m.scratchpad + align + 0) (remove i held)
                    (ground (arith, l, v.counted, z));
            })
      | inr n ↦
          rw (release, some_refs, n)
            (record {
              memory = v.memory;
              aligned = v.aligned;
              room = v.room;
              counted = omega (arith, l, v.counted);
              apart = r;
            })
    ]

act-Inv :
    (m : Memory) (align : ℕ) (c : Call) (p : MemoryPool) (held : Held)
    → m.size < 2 ^ 64
    → Inv m align p held
    → Inv m align (act c (p, held)).0 (act c (p, held)).1
unfolding act
act-Inv m align (ask size) p held s v = get-Inv m align size p held s v
act-Inv m align (give_back i) p held s v = elim (Bool-cases (ltb i (length held))) [
  | inl t ↦ rw t (release-Inv m align i p held (ground (arith, t)) v)
  | inr f ↦ rw f v
]

acts-Inv :
    (m : Memory) (align : ℕ) (cs : List Call) (p : MemoryPool)
    → m.size < 2 ^ 64
    → Inv m align p []
    → Inv m align (acts cs p).0 (acts cs p).1
acts-Inv m align [] p s v = v
acts-Inv m align (c ∷ cs) p s v =
    act-Inv m align c (acts cs p).0 (acts cs p).1 s (acts-Inv m align cs p s v)

-- Where the aligned part of a memory starts.
abbrev pub start_of : Memory → ℕ
start_of m = m.scratchpad + (alignment - m.scratchpad % alignment) % alignment

new_pool-Inv :
    (map : ℕ → Memory) (size : ℕ)
    → 0 < size
    → size * page_size + alignment < 2 ^ 64
    → size * page_size + alignment ≤ (map (size * page_size + alignment)).size
    → Inv
        (map (size * page_size + alignment))
        ((alignment - (map (size * page_size + alignment)).scratchpad % alignment) % alignment)
        (new_pool map size)
        []
unfolding new_pool
new_pool-Inv map size p w h =
    let whole : (size * page_size + alignment) % 2 ^ 64 ≡ size * page_size + alignment =
      omega arith in
    let positive : (size == 0) ≡ false = ground arith in
    rw (new_pool, whole, positive)
      (record { memory = refl; aligned = refl; room = omega arith; counted = refl; apart = tt })

-- However blocks are asked for and given back, in any order, those held at one time do not overlap and
-- lie within the memory, from a multiple of 2 ^ 24 on, and the pool counts them. The system must give
-- a memory of at least the size asked for, and these sizes be a size_t.
pub acts-Apart :
    (map : ℕ → Memory) (size : ℕ) (cs : List Call)
    → 0 < size
    → size * page_size + alignment < 2 ^ 64
    → size * page_size + alignment ≤ (map (size * page_size + alignment)).size
    → (map (size * page_size + alignment)).size < 2 ^ 64
    → Apart
        (start_of (map (size * page_size + alignment)))
        ((map (size * page_size + alignment)).scratchpad
          + (map (size * page_size + alignment)).size)
        (acts cs (new_pool map size)).1
      × (start_of (map (size * page_size + alignment)) % alignment ≡ 0)
      × ((acts cs (new_pool map size)).0.refs ≡ length (acts cs (new_pool map size)).1)
acts-Apart map size cs p w h s =
    let m = map (size * page_size + alignment) in
    let align = (alignment - m.scratchpad % alignment) % alignment in
    let v = acts-Inv m align cs (new_pool map size) s (new_pool-Inv map size p w h) in
    (
      Apart-higher (start_of m) _ (m.scratchpad + m.size) (acts cs (new_pool map size)).1
          (omega (arith, v.room)) v.apart,
      omega arith,
      v.counted,
    )
