-- ===== src/Net/LineReader/Tests.antt =====
-- LineReader.cpp at concrete input.
use rxs_supported.Common.{
  ℕ, List, [], ◌∷◌, ◌++◌, ◌≡◌, refl, arith, replicate, length-replicate, All-replicate,
}
use rxs_supported.Net.LineReader.{init, end_line, end_chunk, memchr, getline, parse}
use rxs_supported.Net.LineReader.Stream.{IsValid, Reads, feed}
use rxs_supported.Net.LineReader.Feed.{feed-Reads}
use rxs_supported.Net.LineReader.Overlong.{NoNewline, feed-overlong}
use mathlib.Core.List.{flatten}

init-IsValid : IsValid init
init-IsValid = record { backed = λ _. refl; bounded = omega arith }

-- "ab\nc" and "d\n\n".
abbrev chunks : List (List ℕ)
chunks = (97 ∷ 98 ∷ 10 ∷ 99 ∷ []) ∷ (100 ∷ 10 ∷ 10 ∷ []) ∷ []

two_lines : (feed init chunks).lines ≡ (97 ∷ 98 ∷ []) ∷ (99 ∷ 100 ∷ []) ∷ []
unfolding feed parse getline memchr end_line end_chunk
two_lines = refl

feed-Reads_example : Reads init (flatten chunks) (feed init chunks)
unfolding flatten
feed-Reads_example = feed-Reads init chunks init-IsValid (omega arith)

-- "ab", and a line of a whole chunk behind it.
abbrev long : List ℕ
long = replicate {A = ℕ} 65536 99

feed-overlong_example :
    ((feed init ((97 ∷ 98 ∷ []) ∷ (long ++ 10 ∷ []) ∷ [])).lines ≡ (97 ∷ []) ∷ [])
    × ((feed init (((97 ∷ 98 ∷ []) ++ long ++ 10 ∷ []) ∷ [])).lines ≡ ((97 ∷ 98 ∷ []) ++ long) ∷ [])
feed-overlong_example =
    feed-overlong (97 ∷ 98 ∷ []) long (refl, (refl, tt))
      (All-replicate {A = ℕ} NoNewline 65536 99 refl) (omega arith) (omega arith)
      (omega (arith, length-replicate {A = ℕ} 65536 99))
