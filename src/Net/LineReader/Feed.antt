-- ===== src/Net/LineReader/Feed.antt =====
-- LineReader.cpp over a whole connection, chunk by chunk.
use mathlib.Core.List.{append_assoc, append-nil, flatten}
use rxs_supported.Common.{
  ℕ, suc, ◌≤◌, List, [], ◌∷◌, ◌++◌, ◌==◌, if◌then◌else◌, length, ◌≡◌, refl, sym, arith,
  length-append, Bool-cases, inl, inr,
}
use rxs_supported.Net.LineReader.{LineReader, chunk_size, parse}
use rxs_supported.Net.LineReader.Stream.{
  IsValid, Reads, Fits, cons_line, lines_of, tail_of, cons_line-append, parse-Reads, feed,
}

lines_of-append :
    (cur xs ys : List ℕ) → lines_of cur (xs ++ ys) ≡ lines_of cur xs ++ lines_of (tail_of cur xs) ys
lines_of-append cur [] ys = refl
lines_of-append cur (c ∷ cs) ys = elim (Bool-cases (c == 10)) [
  | inl e ↦ rw e (
      cc (
        lines_of-append [] cs ys,
        cons_line-append cur (lines_of [] cs ++ lines_of (tail_of [] cs) ys),
        cons_line-append cur (lines_of [] cs),
        append_assoc (cons_line cur []) (lines_of [] cs) (lines_of (tail_of [] cs) ys),
      ))
  | inr e ↦ rw e (lines_of-append (cur ++ c ∷ []) cs ys)
]

tail_of-append : (cur xs ys : List ℕ) → tail_of cur (xs ++ ys) ≡ tail_of (tail_of cur xs) ys
tail_of-append cur [] ys = refl
tail_of-append cur (c ∷ cs) ys = tail_of-append (if c == 10 then [] else cur ++ c ∷ []) cs ys

length-tail-cons :
    (cur : List ℕ) (c : ℕ) → length (if c == 10 then [] else cur ++ c ∷ []) ≤ suc (length cur)
length-tail-cons cur c = ground (arith, length-append cur (c ∷ []))

Fits-cur : (cur xs : List ℕ) → Fits cur xs → length cur ≤ chunk_size
Fits-cur cur [] h = h
Fits-cur cur (c ∷ cs) h = omega arith

Fits-append : (cur xs ys : List ℕ) → Fits cur (xs ++ ys) → Fits cur xs × Fits (tail_of cur xs) ys
Fits-append cur [] ys h = (Fits-cur cur ys h, h)
Fits-append cur (c ∷ cs) ys h =
    let rest = Fits-append (if c == 10 then [] else cur ++ c ∷ []) cs ys h.1 in
    ((h.0, rest.0), rest.1)

-- The lines delivered depend only on the stream of bytes, however it is cut into chunks: they are
-- its nonempty lines, in order, if none of its lines is longer than the buffer.
pub feed-Reads :
    (r : LineReader) (chunks : List (List ℕ))
    → IsValid r
    → Fits r.held (flatten chunks)
    → Reads r (flatten chunks) (feed r chunks)
unfolding feed flatten
feed-Reads r [] v h = (sym (append-nil r.lines), refl, v)
feed-Reads r (chunk ∷ chunks) v h =
    let (h1, h2) = Fits-append r.held chunk (flatten chunks) h in
    let (pl, ph, pv) = parse-Reads r chunk v h1 in
    let (fl, fh, fv) = feed-Reads (parse r chunk) chunks pv (rw ph h2) in
    (
      cc (
        fl,
        pl,
        ph,
        lines_of-append r.held chunk (flatten chunks),
        append_assoc r.lines (lines_of r.held chunk)
            (lines_of (tail_of r.held chunk) (flatten chunks)),
      ),
      cc (fh, ph, tail_of-append r.held chunk (flatten chunks)),
      fv,
    )
