-- ===== src/Net/LineReader/Bounds.antt =====
-- LineReader.cpp on any input, lines longer than the buffer included.
use rxs_supported.Common.{
  ℕ, zero, suc, ◌+◌, ◌<◌, List, [], ◌∷◌, ◌++◌, Option, none, some, ◌==◌, length, drop_last, ◌≡◌,
  refl, arith, length-append, Bool-cases, inl, inr,
}
use rxs_supported.Net.LineReader.{
  LineReader, chunk_size, add, memchr, end_line, end_chunk, getline, parse,
}
use rxs_supported.Net.LineReader.Stream.{IsValid, feed}

add-IsValid : (r : LineReader) (bytes : List ℕ) → IsValid r → IsValid (add r bytes)
unfolding add
add-IsValid r bytes v = ground (arith, length-append r.held bytes)

end_line-IsValid : (r : LineReader) (line : List ℕ) → IsValid r → IsValid (end_line r line)
unfolding end_line
end_line-IsValid r line v = ground (arith, add-IsValid r (line ++ 0 ∷ []) v)

end_chunk-IsValid : (r : LineReader) (rest : List ℕ) → IsValid r → IsValid (end_chunk r rest)
unfolding end_chunk
end_chunk-IsValid r [] v = ground arith
end_chunk-IsValid r (c ∷ cs) v = add-IsValid r (c ∷ cs) v

-- One round of the loop keeps what the rest of the loop, `next`, keeps.
Round-IsValid :
    (next : LineReader → List ℕ → LineReader) (r : LineReader) (bytes : List ℕ)
    (m : Option (List ℕ × List ℕ))
    → IsValid r
    → ((q : LineReader) (rest : List ℕ) → IsValid q → IsValid (next q rest))
    → IsValid
        (elim m [ none ↦ end_chunk r bytes | some (line, rest) ↦ next (end_line r line) rest ])
Round-IsValid next r bytes none v ih = end_chunk-IsValid r bytes v
Round-IsValid next r bytes (some (line, rest)) v ih =
    ih (end_line r line) rest (end_line-IsValid r line v)

getline-IsValid :
    (fuel : ℕ) (r : LineReader) (bytes : List ℕ) → IsValid r → IsValid (getline fuel r bytes)
unfolding getline
getline-IsValid zero r bytes v = v
getline-IsValid (suc fuel) r bytes v =
    Round-IsValid (getline fuel) r bytes (memchr bytes) v (getline-IsValid fuel)

parse-IsValid : (r : LineReader) (bytes : List ℕ) → IsValid r → IsValid (parse r bytes)
unfolding parse
parse-IsValid r bytes v = ground (arith, getline-IsValid (suc (length bytes)) r bytes v)

-- Whatever a connection sends, in whatever chunks, the bytes held stay within the buffer, and there
-- are none where no buffer is allocated.
feed-IsValid : (r : LineReader) (chunks : List (List ℕ)) → IsValid r → IsValid (feed r chunks)
unfolding feed
feed-IsValid r [] v = v
feed-IsValid r (chunk ∷ chunks) v = feed-IsValid (parse r chunk) chunks (parse-IsValid r chunk v)

abbrev Shorter : List ℕ → Option (List ℕ × List ℕ) → Type 0
Shorter bytes none = Unit
Shorter bytes (some (line, rest)) = length bytes ≡ length line + 1 + length rest

Shorter-cons :
    (c : ℕ) (cs : List ℕ) (m : Option (List ℕ × List ℕ))
    → Shorter cs m
    → Shorter (c ∷ cs) (elim m [ none ↦ none | some (line, rest) ↦ some (c ∷ line, rest) ])
Shorter-cons c cs none h = tt
Shorter-cons c cs (some (line, rest)) h = omega arith

memchr-Shorter : (bytes : List ℕ) → Shorter bytes (memchr bytes)
unfolding memchr
memchr-Shorter [] = tt
memchr-Shorter (c ∷ cs) = elim (Bool-cases (c == 10)) [
  | inl e ↦ rw e (omega arith)
  | inr e ↦ rw e (Shorter-cons c cs (memchr cs) (memchr-Shorter cs))
]

getline_step :
    (f g : LineReader → List ℕ → LineReader) (r : LineReader) (bytes : List ℕ)
    (m : Option (List ℕ × List ℕ))
    → Shorter bytes m
    → ((q : LineReader) (rest : List ℕ) → length rest < length bytes → f q rest ≡ g q rest)
    → ◌≡◌ {A = LineReader}
        (elim m [ none ↦ end_chunk r bytes | some (line, rest) ↦ f (end_line r line) rest ])
        (elim m [ none ↦ end_chunk r bytes | some (line, rest) ↦ g (end_line r line) rest ])
getline_step f g r bytes none e h = refl
getline_step f g r bytes (some (line, rest)) e h = h (end_line r line) rest (omega arith)

-- Any fuel above the size of the chunk is enough: the loop ends by itself.
getline_fuel :
    (m n : ℕ) (r : LineReader) (bytes : List ℕ)
    → length bytes < m
    → length bytes < n
    → getline m r bytes ≡ getline n r bytes
unfolding getline
getline_fuel zero n r bytes p q = absurd (omega arith)
getline_fuel (suc m) zero r bytes p q = absurd (omega arith)
getline_fuel (suc m) (suc n) r bytes p q =
    getline_step (getline m) (getline n) r bytes (memchr bytes) (memchr-Shorter bytes)
      λ s rest lt. getline_fuel m n s rest (omega arith) (omega arith)

-- A line that no longer fits behind what is held is dropped, and what was held is delivered.
pub end_line_overlong :
    (r : LineReader) (line : List ℕ)
    → 0 < length r.held
    → chunk_size < length line + 1 + length r.held
    → ((end_line r line).lines ≡ r.lines ++ drop_last r.held ∷ []) × ((end_line r line).held ≡ [])
unfolding end_line
end_line_overlong r line p q = ground (arith, length-append line (0 ∷ []))
