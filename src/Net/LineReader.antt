-- ===== src/Net/LineReader.antt =====
-- base/net/tools/LineReader.{h,cpp}: cuts a byte stream that arrives in chunks into lines.
pub mod Stream
pub mod Feed
pub mod Bounds
pub mod Overlong
mod Tests
use rxs_supported.Common.{
  ℕ, zero, suc, ◌+◌, ◌<◌, List, [], ◌∷◌, ◌++◌, Option, none, some, Bool, true, false, ltb, ◌==◌,
  if◌then◌else◌, length, drop_last,
}

-- RXS_NET_BUFFER_CHUNK_SIZE, 64 * 1024.
abbrev pub chunk_size : ℕ
chunk_size = 65536

-- `held` is the first `m_pos` bytes at `m_buf`, the only ones that are read; `allocated` says that
-- `m_buf` is not null. `lines` is what `onLine` has been called with, the latest last.
pub record LineReader : Type 0 where
  pub allocated : Bool
  pub held : List ℕ
  pub lines : List (List ℕ)

abbrev pub init : LineReader
init = record { allocated = false; held = []; lines = [] }

unfoldable pub reset : LineReader → LineReader
reset r = if r.allocated then record r { allocated = false; held = [] } else r

-- A fresh buffer has `m_pos = 0`.
allocate : LineReader → LineReader
allocate r = if r.allocated then r else record r { allocated = true; held = [] }

unfoldable pub add : LineReader → List ℕ → LineReader
unfolding allocate
add r bytes =
    if ltb chunk_size (length bytes + length r.held)
    then r
    else let r' = allocate r in record r' { held = r'.held ++ bytes }

abbrev on_line : LineReader → List ℕ → LineReader
on_line r line = record r { lines = r.lines ++ line ∷ [] }

-- `memchr(start, '\n', remaining)`: what stands before the first newline, and what follows it.
unfoldable pub memchr : List ℕ → Option (List ℕ × List ℕ)
memchr [] = none
memchr (c ∷ cs) =
    if c == 10
    then some ([], cs)
    else elim (memchr cs) [ none ↦ none | some (line, rest) ↦ some (c ∷ line, rest) ]

-- The body of the `while`: `line` has its newline replaced by a zero byte, which is counted in
-- `len` and not passed on.
unfoldable pub end_line : LineReader → List ℕ → LineReader
unfolding add
end_line r line =
    if ltb 0 (length r.held)
    then (let r' = add r (line ++ 0 ∷ []) in record (on_line r' (drop_last r'.held)) { held = [] })
    else if ltb 1 (length line + 1)
    then on_line r line
    else r

-- What follows the loop.
unfoldable pub end_chunk : LineReader → List ℕ → LineReader
unfolding reset add
end_chunk r [] = reset r
end_chunk r (c ∷ cs) = add r (c ∷ cs)

-- The loop, on fuel; each round consumes a newline.
unfoldable pub getline : ℕ → LineReader → List ℕ → LineReader
unfolding memchr
getline zero r bytes = r
getline (suc fuel) r bytes = elim (memchr bytes) [
  | none ↦ end_chunk r bytes
  | some (line, rest) ↦ getline fuel (end_line r line) rest
]

unfoldable pub parse : LineReader → List ℕ → LineReader
parse r bytes = if length bytes == 0 then r else getline (suc (length bytes)) r bytes
