-- ===== src/Net/LineReader/Stream.antt =====
-- LineReader.cpp as a stream transformer: how the stream is cut into chunks does not show.
use mathlib.Core.List.{append_assoc, append-nil}
use rxs_supported.Common.{
  ℕ, zero, suc, ◌+◌, ◌≤◌, ◌<◌, List, [], ◌∷◌, ◌++◌, Option, none, some, true, false, ◌==◌,
  if◌then◌else◌, length, ◌≡◌, refl, sym, ◌∙◌, arith, length-append, drop_last-snoc, Bool-cases,
  suc-ne-zero, inl, inr,
}
use rxs_supported.Net.LineReader.{
  LineReader, chunk_size, add, memchr, end_line, end_chunk, getline, parse,
}

-- The lines of a stream that a newline ends, the empty ones left out; `cur` has been read before.
abbrev pub cons_line : List ℕ → List (List ℕ) → List (List ℕ)
cons_line [] ls = ls
cons_line (c ∷ cs) ls = (c ∷ cs) ∷ ls

abbrev pub lines_of : List ℕ → List ℕ → List (List ℕ)
lines_of cur [] = []
lines_of cur (c ∷ cs) =
    let closed = cons_line cur (lines_of [] cs) in
    let longer = lines_of (cur ++ c ∷ []) cs in if c == 10 then closed else longer

-- What stands after the last newline.
abbrev pub tail_of : List ℕ → List ℕ → List ℕ
tail_of cur [] = cur
tail_of cur (c ∷ cs) = tail_of (if c == 10 then [] else cur ++ c ∷ []) cs

-- No line, its newline counted, is longer than a chunk.
abbrev pub Fits : List ℕ → List ℕ → Type 0
Fits cur [] = length cur ≤ chunk_size
Fits cur (c ∷ cs) = (length cur + 1 ≤ chunk_size) × Fits (if c == 10 then [] else cur ++ c ∷ []) cs

pub record IsValid (r : LineReader) : Type 0 where
  pub backed : r.allocated ≡ false → r.held ≡ []
  pub bounded : length r.held ≤ chunk_size

-- What a search for a newline says of the stream.
abbrev Round : List ℕ → List ℕ → Option (List ℕ × List ℕ) → Type 0
Round cur bytes none =
    (lines_of cur bytes ≡ [])
    × (tail_of cur bytes ≡ cur ++ bytes)
    × (length (cur ++ bytes) ≤ chunk_size)
Round cur bytes (some (line, rest)) =
    (lines_of cur bytes ≡ cons_line (cur ++ line) (lines_of [] rest))
    × (tail_of cur bytes ≡ tail_of [] rest)
    × (length (cur ++ line) + 1 ≤ chunk_size)
    × Fits [] rest
    × (length rest < length bytes)

memchr_step :
    (cur : List ℕ) (c : ℕ) (cs : List ℕ) (m : Option (List ℕ × List ℕ))
    → (c == 10) ≡ false
    → Round (cur ++ c ∷ []) cs m
    → Round cur (c ∷ cs) (elim m [ none ↦ none | some (line, rest) ↦ some (c ∷ line, rest) ])
memchr_step cur c cs none e h = rw e (
  h.0,
  ground (arith, append_assoc cur (c ∷ []) cs),
  ground (arith, append_assoc cur (c ∷ []) cs),
)
memchr_step cur c cs (some (line, rest)) e h =
    rw (e, ← append_assoc cur (c ∷ []) line) (h.0, h.1, h.2, h.3, omega arith)

memchr-Round : (cur bytes : List ℕ) → Fits cur bytes → Round cur bytes (memchr bytes)
unfolding memchr
memchr-Round cur [] h = (refl, sym (append-nil cur), rw append-nil h)
memchr-Round cur (c ∷ cs) h = elim (Bool-cases (c == 10)) [
  | inl e ↦ rw (e, append-nil cur) (rw e, rw e, h.0, rw e at h.1, omega arith)
  | inr e ↦
      rw e (memchr_step cur c cs (memchr cs) e (memchr-Round (cur ++ c ∷ []) cs (rw e at h.1)))
]

add_lem :
    (r : LineReader) (bytes : List ℕ)
    → IsValid r
    → length (r.held ++ bytes) ≤ chunk_size
    → ((add r bytes).lines ≡ r.lines)
      × ((add r bytes).held ≡ r.held ++ bytes)
      × ((add r bytes).allocated ≡ true)
unfolding add
add_lem r bytes v h = ground (arith, length-append r.held bytes)

-- A round with a line: `onLine` gets what was held and the line, unless both are empty.
abbrev Closes : LineReader → List ℕ → List ℕ → Type 0
Closes r held line =
    ((end_line r line).lines ≡ r.lines ++ cons_line (held ++ line) [])
    × ((end_line r line).held ≡ [])
    × IsValid (end_line r line)

end_line-Closes :
    (r : LineReader) (held line : List ℕ)
    → r.held ≡ held
    → IsValid r
    → length (held ++ line) + 1 ≤ chunk_size
    → Closes r held line
unfolding end_line
end_line-Closes r [] [] e v h = ground (arith, append-nil r.lines)
end_line-Closes r [] (c ∷ cs) e v h = ground arith
end_line-Closes r (x ∷ xs) line e v h = ground (
  arith,
  add_lem r (line ++ 0 ∷ []) v,
  append_assoc (x ∷ xs) line (0 ∷ []),
  drop_last-snoc (x ∷ xs ++ line) 0,
  length-append (x ∷ xs ++ line) (0 ∷ []),
)

end_chunk-Round :
    (r : LineReader) (rest : List ℕ)
    → IsValid r
    → length (r.held ++ rest) ≤ chunk_size
    → (rest ≡ [] → r.held ≡ [])
    → ((end_chunk r rest).lines ≡ r.lines)
      × ((end_chunk r rest).held ≡ r.held ++ rest)
      × IsValid (end_chunk r rest)
unfolding end_chunk
end_chunk-Round r [] v h k = ground (arith, k refl)
end_chunk-Round r (c ∷ cs) v h k = ground (arith, length-append r.held (c ∷ cs))

-- What a chunk does to a reader.
abbrev pub Reads : LineReader → List ℕ → LineReader → Type 0
Reads r bytes r' =
    (r'.lines ≡ r.lines ++ lines_of r.held bytes) × (r'.held ≡ tail_of r.held bytes) × IsValid r'

pub cons_line-append :
    (cur : List ℕ) (ls : List (List ℕ)) → cons_line cur [] ++ ls ≡ cons_line cur ls
cons_line-append [] ls = refl
cons_line-append (c ∷ cs) ls = refl

-- One round, the rest of the loop being `next`.
Round-Reads :
    (next : LineReader → List ℕ → LineReader) (r : LineReader) (bytes : List ℕ)
    (m : Option (List ℕ × List ℕ))
    → Round r.held bytes m
    → IsValid r
    → (bytes ≡ [] → r.held ≡ [])
    → ((q : LineReader) (rest : List ℕ)
        → length rest < length bytes
        → q.held ≡ []
        → IsValid q
        → Fits [] rest
        → Reads q rest (next q rest))
    → Reads r bytes
        (elim m [ none ↦ end_chunk r bytes | some (line, rest) ↦ next (end_line r line) rest ])
Round-Reads next r bytes none (l, t, n) v k ih =
    let (el, eh, ev) = end_chunk-Round r bytes v n k in
    (el ∙ rw l (sym (append-nil r.lines)), eh ∙ sym t, ev)
Round-Reads next r bytes (some (line, rest)) (l, t, n, f, lt) v k ih =
    let (el, eh, ev) = end_line-Closes r r.held line refl v n in
    let (nl, nh, nv) = ih (end_line r line) rest lt eh ev f in
    (
      cc (
        nl,
        el,
        eh,
        l,
        append_assoc r.lines (cons_line (r.held ++ line) []) (lines_of [] rest),
        cons_line-append (r.held ++ line) (lines_of [] rest),
      ),
      cc (nh, eh, t),
      nv,
    )

getline-Reads :
    (fuel : ℕ) (r : LineReader) (bytes : List ℕ)
    → IsValid r
    → length bytes < fuel
    → Fits r.held bytes
    → (bytes ≡ [] → r.held ≡ [])
    → Reads r bytes (getline fuel r bytes)
unfolding getline
getline-Reads zero r bytes v lt h k = absurd (omega arith)
getline-Reads (suc fuel) r bytes v lt h k =
    Round-Reads (getline fuel) r bytes (memchr bytes) (memchr-Round r.held bytes h) v k
      λ q rest shorter e qv f. getline-Reads fuel q rest qv (omega arith) (rw e f) (λ _. e)

-- A chunk whose lines fit adds its lines to those delivered, keeps what follows the last newline,
-- and leaves the buffer within its size.
pub parse-Reads :
    (r : LineReader) (bytes : List ℕ)
    → IsValid r
    → Fits r.held bytes
    → Reads r bytes (parse r bytes)
unfolding parse
parse-Reads r [] v h = (sym (append-nil r.lines), refl, v)
parse-Reads r (c ∷ cs) v h =
    rw (suc-ne-zero (length cs))
      (getline-Reads (suc (length (c ∷ cs))) r (c ∷ cs) v (omega arith) h (λ e. cc))

-- The chunks of a connection, in order.
unfoldable pub feed : LineReader → List (List ℕ) → LineReader
feed r [] = r
feed r (chunk ∷ chunks) = feed (parse r chunk) chunks
