-- ===== src/Crypto/Algorithm/Search.antt =====
-- Algorithm.cpp: the binary search over the aliases.
use native.Mathlib.Nat.{div-add-mod', mod-lt}
use native.Mathlib.Numerals.{unary_clauses}
use rxs_supported.Common.{
  ℕ, zero, suc, ◌+◌, ◌-◌, ◌*◌, ◌/◌, ◌^◌, ◌<◌, ◌≤◌, List, [], ◌∷◌, map, Bool, true, false, ◌&&◌,
  ◌||◌, ltb, ◌==◌, if◌then◌else◌, Option, none, some, length, get_elem?, All, ◌≡◌, ◌≢◌, refl, ap,
  sym, subst, ◌∙◌, arith, Bool-cases, Option-cases, inl, inr,
}
use rxs_supported.Crypto.Algorithm.{
  Alias, aliases, invalid, ascii_lower, Sign, less, equal, more, ci_compare, alias_at, search,
  parse,
}

lower : List ℕ → List ℕ
lower = map ascii_lower

abbrev same : List ℕ → List ℕ → Bool
same [] [] = true
same (x ∷ xs) (y ∷ ys) = x == y && same xs ys
same _ _ = false

same-true : (xs ys : List ℕ) → same xs ys ≡ true → xs ≡ ys
same-true [] [] e = refl
same-true [] (y ∷ ys) e = absurd (ground arith)
same-true (x ∷ xs) [] e = absurd (ground arith)
same-true (x ∷ xs) (y ∷ ys) e = ground (arith, same-true xs ys)

-- The first alias that is the text, one after the other.
unfoldable pub find : List ℕ → List Alias → Option ℕ
find t [] = none
find t ((a, id) ∷ rest) = if same t a then some id else find t rest

unfoldable pub or_invalid : Option ℕ → ℕ
or_invalid none = invalid
or_invalid (some id) = id

ascii_lower_idem : (c : ℕ) → ascii_lower (ascii_lower c) ≡ ascii_lower c
ascii_lower_idem c = ground arith

lower_idem : (xs : List ℕ) → lower (lower xs) ≡ lower xs
unfolding lower
lower_idem [] = refl
lower_idem (x ∷ xs) = rw (lower, map, ascii_lower_idem x, lower_idem xs) refl

-- `ci_compare` sees a text as it is in lower case.
ci_compare-lower : (xs ys : List ℕ) → ci_compare (lower xs) ys ≡ ci_compare xs ys
unfolding ci_compare lower
ci_compare-lower [] [] = refl
ci_compare-lower [] (y ∷ ys) = refl
ci_compare-lower (x ∷ xs) [] = refl
ci_compare-lower (x ∷ xs) (y ∷ ys) = ground (arith, ascii_lower_idem x, ci_compare-lower xs ys)

ci_compare-equal : (xs ys : List ℕ) → ci_compare xs ys ≡ equal → same (lower xs) ys ≡ true
unfolding ci_compare lower
ci_compare-equal [] [] e = refl
ci_compare-equal [] (y ∷ ys) e = absurd (ground arith)
ci_compare-equal (x ∷ xs) [] e = absurd (ground arith)
ci_compare-equal (x ∷ xs) (y ∷ ys) e = ground (arith, ci_compare-equal xs ys)

search-lower :
    (rounds : ℕ) (t : List ℕ) (lo hi : ℕ) → search rounds (lower t) lo hi ≡ search rounds t lo hi
unfolding search
search-lower zero t lo hi = refl
search-lower (suc rounds) t lo hi =
    let mid = lo + (hi - lo) / 2 in
    ground (
      arith,
      ci_compare-lower t (alias_at mid).0,
      search-lower rounds t lo mid,
      search-lower rounds t (mid + 1) hi,
    )

-- A round that does not find the text goes on in one of the halves.
round_lem :
    (s : Sign) (here low high missing : Option ℕ)
    → s ≢ equal
    → low ≡ missing
    → high ≡ missing
    → elim s [ less ↦ low | equal ↦ here | more ↦ high ] ≡ missing
round_lem less here low high missing n l h = l
round_lem equal here low high missing n l h = absurd (n refl)
round_lem more here low high missing n l h = h

halves :
    (rounds lo hi : ℕ)
    → hi - lo < 2 ^ suc rounds
    → (ltb lo hi ≡ true)
    → (lo + (hi - lo) / 2 - lo < 2 ^ rounds) × (hi - (lo + (hi - lo) / 2 + 1) < 2 ^ rounds)
halves rounds lo hi h e =
    let h' : hi - lo < 2 ^ rounds * 2 = simp unary_clauses at h in
    ground (arith, div-add-mod' (hi - lo) 2, mod-lt (hi - lo) {m = 2} (omega arith))

-- A text that no alias compares equal to is not found, when there are enough rounds.
search_missing :
    (rounds : ℕ) (t : List ℕ) (lo hi : ℕ)
    → ((i : ℕ) → ci_compare t (alias_at i).0 ≢ equal)
    → hi - lo < 2 ^ rounds
    → search (suc rounds) t lo hi ≡ some invalid
unfolding search
search_missing zero t lo hi n h = ground arith
search_missing (suc rounds) t lo hi n h = elim (Bool-cases (ltb lo hi)) [
  | inl e ↦
      let mid = lo + (hi - lo) / 2 in
      let (a, b) = halves rounds lo hi h e in
      rw (search, e)
        (round_lem (ci_compare t (alias_at mid).0) (some (alias_at mid).1) _ _ (some invalid)
          (n mid) (search_missing rounds t lo mid n a) (search_missing rounds t (mid + 1) hi n b))
  | inr e ↦ rw (search, e) refl
]

-- Every alias is found.
Found : Alias → Type 0
Found a = search 5 (a.0) 0 14 ≡ some a.1

aliases-Found : All Found aliases
unfolding Found search ci_compare
aliases-Found = (
  refl,
  (
    refl,
    (
      refl,
      (refl, (refl, (refl, (refl, (refl, (refl, (refl, (refl, (refl, (refl, (refl, tt))))))))))),
    ),
  ),
)

search_hit :
    (t : List ℕ) (id : ℕ) (m : List Alias)
    → All Found m
    → find t m ≡ some id
    → search 5 t 0 14 ≡ some id
unfolding find Found
search_hit t id [] h e = absurd (ground arith)
search_hit t id ((a, i) ∷ m) (p, h) e = elim (Bool-cases (same t a)) [
  | inl y ↦
      let found : some i ≡ some id = rw (find, y) at e in
      subst (λ x. search 5 x 0 14 ≡ some id) (sym (same-true t a y)) (p ∙ found)
  | inr n ↦ search_hit t id m h (rw (find, n) at e)
]

search_miss_at :
    (t : List ℕ) (m : List Alias) (i : ℕ) (a : Alias)
    → lower t ≡ t
    → find t m ≡ none
    → get_elem? m i ≡ some a
    → ci_compare t (a.0) ≢ equal
unfolding find
search_miss_at t [] i a l e g q = absurd (ground arith)
search_miss_at t ((b, id) ∷ m) zero a l e g q =
    let s : same t (a.0) ≡ true = subst (λ x. same x (a.0) ≡ true) l (ci_compare-equal t (a.0) q) in
    absurd (ground (arith, s))
search_miss_at t ((b, id) ∷ m) (suc i) a l e g q = search_miss_at t m i a l (ground arith) g q

search_miss :
    (t : List ℕ)
    → lower t ≡ t
    → 0 < length t
    → find t aliases ≡ none
    → (i : ℕ) → ci_compare t (alias_at i).0 ≢ equal
unfolding ci_compare
search_miss [] l p e i = absurd (omega arith)
search_miss (x ∷ xs) l p e i = elim (Option-cases (get_elem? aliases i)) [
  | inl g ↦ rw (alias_at, g) (λ q. absurd (ground arith))
  | inr (a, g) ↦ rw (alias_at, g) (search_miss_at (x ∷ xs) aliases i a l e g)
]

-- The lengths of the aliases.
Fits : Alias → Type 0
Fits a = (2 ≤ length (a.0)) × (length (a.0) ≤ 11)

aliases-Fits : All Fits aliases
unfolding Fits
aliases-Fits = (
  (omega arith, omega arith),
  (
    (omega arith, omega arith),
    (
      (omega arith, omega arith),
      (
        (omega arith, omega arith),
        (
          (omega arith, omega arith),
          (
            (omega arith, omega arith),
            (
              (omega arith, omega arith),
              (
                (omega arith, omega arith),
                (
                  (omega arith, omega arith),
                  (
                    (omega arith, omega arith),
                    (
                      (omega arith, omega arith),
                      (
                        (omega arith, omega arith),
                        ((omega arith, omega arith), ((omega arith, omega arith), tt)),
                      ),
                    ),
                  ),
                ),
              ),
            ),
          ),
        ),
      ),
    ),
  ),
)

find-Fits :
    (t : List ℕ) (id : ℕ) (m : List Alias)
    → All Fits m
    → find t m ≡ some id
    → (2 ≤ length t) × (length t ≤ 11)
unfolding find Fits
find-Fits t id [] h e = absurd (ground arith)
find-Fits t id ((a, i) ∷ m) (p, h) e = elim (Bool-cases (same t a)) [
  | inl y ↦ subst (λ x. (2 ≤ length x) × (length x ≤ 11)) (sym (same-true t a y)) p
  | inr n ↦ find-Fits t id m h (rw (find, n) at e)
]

length-lower : (t : List ℕ) → length (lower t) ≡ length t
unfolding lower
length-lower [] = refl
length-lower (x ∷ t) = ap suc (length-lower t)

-- The search comes to an end within its five rounds, and finds, whatever the case of its letters, the id
-- of the alias that the name is, and no id where there is none.
pub parse-find :
    (name : List ℕ) → parse name ≡ some (or_invalid (find (map ascii_lower name) aliases))
unfolding parse or_invalid lower
parse-find name =
    let t = map ascii_lower name in
    let same_search = search-lower 5 name 0 14 in
    elim (Option-cases (find t aliases)) [
      | inr (id, e) ↦
          let fits = find-Fits t id aliases aliases-Fits e in
          rw e (
            ground (
              arith,
              fits,
              length-lower name,
              same_search,
              search_hit t id aliases aliases-Found e,
            ))
      | inl e ↦ elim (Bool-cases (ltb (length name) 2 || ltb 11 (length name))) [
        | inl y ↦ rw (parse, y, e) refl
        | inr n ↦
            rw (parse, n, e)
              (sym same_search
                ∙ search_missing 4 t 0 14
                    (search_miss t (lower_idem name) (ground (arith, length-lower name)) e)
                    (omega arith))
      ]
    ]
