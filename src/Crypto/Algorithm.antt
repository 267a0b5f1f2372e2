-- ===== src/Crypto/Algorithm.antt =====
-- base/crypto/Algorithm.{h,cpp} and Coin.cpp: algorithms, coins and their names. An id is a number.
pub mod Search
mod Tests
use rxs_supported.Common.{
  ℕ, zero, suc, ◌+◌, ◌-◌, ◌*◌, ◌/◌, ◌%◌, ◌^◌, List, [], ◌∷◌, Bool, true, false, not, ◌&&◌, ◌||◌,
  ltb, leb, ◌==◌, if◌then◌else◌, Option, none, some, length, get_elem?,
}

-- Algorithm::
abbrev pub invalid : ℕ
invalid = 0

abbrev pub rx_0 : ℕ
rx_0 = 0x72151200

abbrev pub rx_v2 : ℕ
rx_v2 = 0x72151202

abbrev pub rx_wow : ℕ
rx_wow = 0x72141177

abbrev pub rx_arq : ℕ
rx_arq = 0x72121061

abbrev pub rx_graft : ℕ
rx_graft = 0x72151267

abbrev pub rx_sfx : ℕ
rx_sfx = 0x72151273

abbrev pub rx_yada : ℕ
rx_yada = 0x72151279

-- An alias, as text, and its id.
abbrev pub Alias : Type 0
Alias = List ℕ × ℕ

-- kAliases.
abbrev pub aliases : List Alias
aliases =
    (b'r' ∷ b'a' ∷ b'n' ∷ b'd' ∷ b'o' ∷ b'm' ∷ b'a' ∷ b'r' ∷ b'q' ∷ [], rx_arq)
    ∷ (b'r' ∷ b'a' ∷ b'n' ∷ b'd' ∷ b'o' ∷ b'm' ∷ b'g' ∷ b'r' ∷ b'a' ∷ b'f' ∷ b't' ∷ [], rx_graft)
    ∷ (b'r' ∷ b'a' ∷ b'n' ∷ b'd' ∷ b'o' ∷ b'm' ∷ b's' ∷ b'f' ∷ b'x' ∷ [], rx_sfx)
    ∷ (b'r' ∷ b'a' ∷ b'n' ∷ b'd' ∷ b'o' ∷ b'm' ∷ b'w' ∷ b'o' ∷ b'w' ∷ [], rx_wow)
    ∷ (b'r' ∷ b'a' ∷ b'n' ∷ b'd' ∷ b'o' ∷ b'm' ∷ b'x' ∷ [], rx_0)
    ∷ (b'r' ∷ b'a' ∷ b'n' ∷ b'd' ∷ b'o' ∷ b'm' ∷ b'y' ∷ b'a' ∷ b'd' ∷ b'a' ∷ [], rx_yada)
    ∷ (b'r' ∷ b'x' ∷ [], rx_0)
    ∷ (b'r' ∷ b'x' ∷ b'/' ∷ b'0' ∷ [], rx_0)
    ∷ (b'r' ∷ b'x' ∷ b'/' ∷ b'2' ∷ [], rx_v2)
    ∷ (b'r' ∷ b'x' ∷ b'/' ∷ b'a' ∷ b'r' ∷ b'q' ∷ [], rx_arq)
    ∷ (b'r' ∷ b'x' ∷ b'/' ∷ b'g' ∷ b'r' ∷ b'a' ∷ b'f' ∷ b't' ∷ [], rx_graft)
    ∷ (b'r' ∷ b'x' ∷ b'/' ∷ b's' ∷ b'f' ∷ b'x' ∷ [], rx_sfx)
    ∷ (b'r' ∷ b'x' ∷ b'/' ∷ b'w' ∷ b'o' ∷ b'w' ∷ [], rx_wow)
    ∷ (b'r' ∷ b'x' ∷ b'/' ∷ b'y' ∷ b'a' ∷ b'd' ∷ b'a' ∷ [], rx_yada)
    ∷ []

-- kNames.
abbrev pub names : List (ℕ × List ℕ)
names =
    (rx_arq, b'r' ∷ b'x' ∷ b'/' ∷ b'a' ∷ b'r' ∷ b'q' ∷ [])
    ∷ (rx_wow, b'r' ∷ b'x' ∷ b'/' ∷ b'w' ∷ b'o' ∷ b'w' ∷ [])
    ∷ (rx_0, b'r' ∷ b'x' ∷ b'/' ∷ b'0' ∷ [])
    ∷ (rx_v2, b'r' ∷ b'x' ∷ b'/' ∷ b'2' ∷ [])
    ∷ (rx_graft, b'r' ∷ b'x' ∷ b'/' ∷ b'g' ∷ b'r' ∷ b'a' ∷ b'f' ∷ b't' ∷ [])
    ∷ (rx_sfx, b'r' ∷ b'x' ∷ b'/' ∷ b's' ∷ b'f' ∷ b'x' ∷ [])
    ∷ (rx_yada, b'r' ∷ b'x' ∷ b'/' ∷ b'y' ∷ b'a' ∷ b'd' ∷ b'a' ∷ [])
    ∷ []

-- Of an ASCII letter, the lower case.
abbrev pub ascii_lower : ℕ → ℕ
ascii_lower c = if leb b'A' c && leb c b'Z' then c + 32 else c

-- The sign of a difference.
pub data Sign : Type 0 where
  less equal more : Sign

-- `ci_compare`: of its second text, which is in lower case, the bytes are compared as they are.
unfoldable pub ci_compare : List ℕ → List ℕ → Sign
ci_compare [] [] = equal
ci_compare [] (y ∷ ys) = less
ci_compare (x ∷ xs) [] = more
ci_compare (x ∷ xs) (y ∷ ys) =
    let rest = ci_compare xs ys in
    if ltb (ascii_lower x) y then less else if ltb y (ascii_lower x) then more else rest

abbrev pub alias_at : ℕ → Alias
alias_at i = elim (get_elem? aliases i) [ none ↦ ([], invalid) | some a ↦ a ]

-- The loop of `parse` between `lo` and `hi`, with so many rounds left; `none` when none is left.
unfoldable pub search : ℕ → List ℕ → ℕ → ℕ → Option ℕ
search zero name lo hi = none
search (suc rounds) name lo hi =
    let mid = lo + (hi - lo) / 2 in
    let lower = search rounds name lo mid in
    let upper = search rounds name (mid + 1) hi in
    if not (ltb lo hi) then some invalid else elim (ci_compare name (alias_at mid).0) [
      | less ↦ lower
      | equal ↦ some (alias_at mid).1
      | more ↦ upper
    ]

-- kMaxAliasLen.
abbrev pub longest : List Alias → ℕ
longest [] = 0
longest ((a, id) ∷ rest) = if ltb (longest rest) (length a) then length a else longest rest

-- `none` where the search has no round left.
unfoldable pub parse : List ℕ → Option ℕ
parse name =
    if ltb (length name) 2 || ltb (longest aliases) (length name)
    then some invalid
    else search 5 name 0 (length aliases)

-- nameView, whose binary search finds the first of the names, in the order of their ids, that is not
-- less: the text of an id of the list, and of no other.
unfoldable pub name_in : List (ℕ × List ℕ) → ℕ → Option (List ℕ)
name_in [] id = none
name_in ((i, name) ∷ rest) id =
    if ltb i id then name_in rest id else if i == id then some name else none

abbrev pub is_valid : ℕ → Bool
is_valid id = elim (name_in names id) [ none ↦ false | some name ↦ true ]
