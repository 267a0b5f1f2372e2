-- ===== src/Net/LineReader/Overlong.antt =====
-- LineReader.cpp: a line that is longer than the buffer.
use rxs_supported.Common.{
  ℕ, suc, ◌+◌, ◌≤◌, ◌<◌, List, [], ◌∷◌, ◌++◌, All, All-append, none, some, true, false, ◌==◌,
  length, length-append, drop_last, ◌≡◌, refl, ap, ◌∙◌, arith,
}
use rxs_supported.Net.LineReader.{
  LineReader, init, chunk_size, add, reset, memchr, end_line, end_chunk, getline, parse,
}
use rxs_supported.Net.LineReader.Stream.{feed}
use rxs_supported.Net.LineReader.Bounds.{end_line_overlong}

abbrev pub NoNewline : ℕ → Type 0
NoNewline c = (c == 10) ≡ false

memchr-none : (bytes : List ℕ) → All NoNewline bytes → memchr bytes ≡ none
unfolding memchr
memchr-none [] h = refl
memchr-none (c ∷ cs) (n, h) = rw (memchr, n, memchr-none cs h) refl

memchr-line : (line : List ℕ) → All NoNewline line → memchr (line ++ 10 ∷ []) ≡ some (line, [])
unfolding memchr
memchr-line [] h = refl
memchr-line (c ∷ cs) (n, h) = rw (memchr, n, memchr-line cs h) refl

parse_nonempty :
    (r : LineReader) (bytes : List ℕ)
    → 0 < length bytes
    → parse r bytes ≡ getline (suc (length bytes)) r bytes
unfolding parse
parse_nonempty r bytes h = let n : (length bytes == 0) ≡ false = ground arith in rw (parse, n) refl

getline-none :
    (fuel : ℕ) (r : LineReader) (bytes : List ℕ)
    → memchr bytes ≡ none
    → getline (suc fuel) r bytes ≡ end_chunk r bytes
unfolding getline
getline-none fuel r bytes e = rw (getline, e) refl

getline-line :
    (fuel : ℕ) (r : LineReader) (bytes line rest : List ℕ)
    → memchr bytes ≡ some (line, rest)
    → getline (suc fuel) r bytes ≡ getline fuel (end_line r line) rest
unfolding getline
getline-line fuel r bytes line rest e = rw (getline, e) refl

held_lem :
    (c : ℕ) (cs : List ℕ)
    → length (c ∷ cs) ≤ chunk_size
    → end_chunk init (c ∷ cs) ≡ record init { allocated = true; held = c ∷ cs }
unfolding end_chunk add
held_lem c cs q = ground arith

-- Bytes without a newline are held.
parse_part :
    (first : List ℕ)
    → All NoNewline first
    → 0 < length first
    → length first ≤ chunk_size
    → parse init first ≡ record init { allocated = true; held = first }
parse_part [] h p q = absurd (omega arith)
parse_part (c ∷ cs) h p q =
    parse_nonempty init (c ∷ cs) p
    ∙ getline-none (length (c ∷ cs)) init (c ∷ cs) (memchr-none (c ∷ cs) h)
    ∙ held_lem c cs q

end_chunk-reset : (r : LineReader) → end_chunk r [] ≡ reset r
unfolding end_chunk
end_chunk-reset r = refl

-- The rest of a line, with its newline, is taken to what is held, and nothing is held then.
parse_end :
    (r : LineReader) (line : List ℕ)
    → All NoNewline line
    → parse r (line ++ 10 ∷ []) ≡ reset (end_line r line)
parse_end r line h =
    let size : length (line ++ 10 ∷ []) ≡ suc (length line) =
      length-append line (10 ∷ []) ∙ omega arith in
    parse_nonempty r (line ++ 10 ∷ []) (omega (arith, size))
    ∙ getline-line (length (line ++ 10 ∷ [])) r (line ++ 10 ∷ []) line [] (memchr-line line h)
    ∙ ap (λ n. getline n (end_line r line) []) size
    ∙ getline-none (length line) (end_line r line) [] (memchr-none [] tt)
    ∙ end_chunk-reset (end_line r line)

reset-lines : (r : LineReader) → (reset r).lines ≡ r.lines
unfolding reset
reset-lines r = ground arith

whole_line : (line : List ℕ) → 0 < length line → (end_line init line).lines ≡ line ∷ []
unfolding end_line
whole_line line h = ground arith

-- What a new reader delivers of one line that, with its newline, is longer than a chunk depends on how it
-- arrives: in two chunks, the first of which is not empty and fits the buffer, that first one, short of its last
-- byte, is delivered as the line; in one chunk, the line itself.
pub feed-overlong :
    (first line : List ℕ)
    → All NoNewline first
    → All NoNewline line
    → 0 < length first
    → length first ≤ chunk_size
    → chunk_size < length line + 1 + length first
    → ((feed init (first ∷ (line ++ 10 ∷ []) ∷ [])).lines ≡ drop_last first ∷ [])
      × ((feed init ((first ++ line ++ 10 ∷ []) ∷ [])).lines ≡ (first ++ line) ∷ [])
unfolding feed
feed-overlong first line h k p q long =
    let held = record init { allocated = true; held = first } in
    let (cut, _) = end_line_overlong held line p long in
    (
      ap (λ r. (parse r (line ++ 10 ∷ [])).lines) (parse_part first h p q)
          ∙ ap (λ r. r.lines) (parse_end held line k)
          ∙ reset-lines (end_line held line)
          ∙ cut,
      ap (λ r. r.lines) (parse_end init (first ++ line) (All-append NoNewline first line h k))
          ∙ reset-lines (end_line init (first ++ line))
          ∙ whole_line (first ++ line) (omega (arith, length-append first line)),
    )
