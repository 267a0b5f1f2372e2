-- ===== src/Tools/BlobReader.antt =====
-- base/tools/cryptonote/BlobReader.h, with exceptions, and the writer of varints in
-- BlockTemplate::generateHashingBlob.
pub mod Varint
pub mod Bounds
pub mod Agree
pub mod Locality
mod Tests
use Prim.Native.Nat.{bit_and, bit_or}
use rxs_supported.Common.{
  ℕ, zero, suc, ◌+◌, ◌-◌, ◌*◌, ◌/◌, ◌%◌, ◌^◌, List, [], ◌∷◌, ◌++◌, Bool, true, false, ltb, leb,
  ◌==◌, if◌then◌else◌, Option, none, some, get_elem?, take, drop, length,
}

-- The reader's `m_index` moves; `memory` is what stands at `m_data`, of which `m_size` bytes belong
-- to the reader.
pub record Reader : Type 0 where
  pub memory : List ℕ
  pub size : ℕ
  pub index : ℕ

-- `thrown` is std::out_of_range, `rejected` a `return false` of the caller, `fault` what C++ leaves
-- undefined: a read past the memory, or a shift by the width of the type or more; `running` is a loop
-- whose fuel has run out.
pub data Result (A : Type 0) : Type 0 where
  ok : A → Result A
  rejected thrown fault running : Result A

abbrev pub M : Type 0 → Type 0
M A = Reader → Result (A × Reader)

infixl 5 ◌>>=◌ ◌>>◌
abbrev pub ◌>>=◌ : {A B : Type 0} → M A → (A → M B) → M B
◌>>=◌ m f r = elim (m r) [
  | ok (a, r') ↦ f a r'
  | rejected ↦ rejected
  | thrown ↦ thrown
  | fault ↦ fault
  | running ↦ running
]

abbrev pub ◌>>◌ : {B : Type 0} → M (Unit {0}) → M B → M B
m >> k = m >>= λ _. k

abbrev pub pure : {A : Type 0} → A → M A
pure a r = ok (a, r)

abbrev pub add64 : ℕ → ℕ → ℕ
add64 a b = (a + b) % 2 ^ 64

abbrev pub remaining : Reader → ℕ
remaining r = r.size - r.index

abbrev pub index : M ℕ
index r = ok (r.index, r)

-- `m_index + n` wraps around, as a size_t does.
unfoldable pub skip : ℕ → M (Unit {0})
skip n r =
    if ltb r.size (add64 r.index n) then thrown else ok (tt, record r { index = add64 r.index n })

-- `n` bytes from `i` on; `none` past the end of the memory.
unfoldable pub copy : ℕ → ℕ → List ℕ → Option (List ℕ)
copy i n memory = if ltb (length memory) (i + n) then none else some (take n (drop i memory))

-- A Span: where it starts and its size. It is not read here.
pub record Span : Type 0 where
  pub start : ℕ
  pub size : ℕ

-- `operator()(T &data, size_t n)`, for a Span.
unfoldable pub get_span : ℕ → M Span
get_span n r =
    if ltb r.size (add64 r.index n)
    then thrown
    else ok (record { start = r.index; size = n }, record r { index = add64 r.index n })

-- `operator()(uint8_t (&data)[N])`.
unfoldable pub get_bytes : ℕ → M (List ℕ)
get_bytes n r = if ltb r.size (add64 r.index n) then thrown else elim (copy r.index n r.memory) [
  | none ↦ fault
  | some bytes ↦ ok (bytes, record r { index = add64 r.index n })
]

unfoldable pub get_byte : M ℕ
get_byte r = if leb r.size r.index then thrown else elim (get_elem? r.memory r.index) [
  | none ↦ fault
  | some b ↦ ok (b, record r { index = r.index + 1 })
]

-- The loop of `getVarint`, on fuel. A shift by 64 or more is undefined.
unfoldable pub varint_loop : ℕ → ℕ → ℕ → M ℕ
varint_loop zero shift result r = fault
varint_loop (suc fuel) shift result r = elim (get_byte r) [
  | ok (t, r') ↦
      let result' = bit_or result (bit_and t 0x7f * 2 ^ shift % 2 ^ 64) in
      let more = varint_loop fuel (shift + 7) result' r' in
      if leb 64 shift then fault else if bit_and t 0x80 == 0 then ok (result', r') else more
  | rejected ↦ rejected
  | thrown ↦ thrown
  | fault ↦ fault
  | running ↦ running
]

-- The eleventh round shifts by 70, so no round follows it.
unfoldable pub get_varint : M ℕ
get_varint = varint_loop 11 0 0

-- The loop at the end of `generateHashingBlob`, on fuel: a uint64_t has at most ten digits to the
-- base 128.
unfoldable pub put_varint_loop : ℕ → ℕ → List ℕ
put_varint_loop zero k = k % 2 ^ 8 ∷ []
put_varint_loop (suc fuel) k =
    let more = put_varint_loop fuel (k / 2 ^ 7) in
    if leb 0x80 k then bit_or (bit_and (k % 2 ^ 8) 0x7f) 0x80 ∷ more else k % 2 ^ 8 ∷ []

unfoldable pub put_varint : ℕ → List ℕ
put_varint = put_varint_loop 9
