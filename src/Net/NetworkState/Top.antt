-- ===== src/Net/NetworkState/Top.antt =====
-- NetworkState.cpp: the ten best differences are the greatest of all.
use rxs_supported.Common.{
  ℕ, zero, suc, ◌≤◌, ◌<◌, List, [], ◌∷◌, ◌++◌, true, false, ltb, take, length, length-append, All,
  ◌≡◌, refl, ap, sym, ◌∙◌, arith, Bool-cases, inl, inr,
}
use rxs_supported.Net.NetworkState.{
  Event, active, job, pause, result, insert, sort_reversed, last, set_last, add_top, add, step, run,
  new_state, zeros, on_active, on_job, on_pause, stop,
}

-- The greatest first.
abbrev pub Sorted : List ℕ → Type 0
Sorted [] = Unit
Sorted (x ∷ xs) = All (λ y. y ≤ x) xs × Sorted xs

insert-All : (P : ℕ → Type 0) (d : ℕ) (xs : List ℕ) → P d → All P xs → All P (insert d xs)
unfolding insert
insert-All P d [] p h = (p, tt)
insert-All P d (x ∷ xs) p (px, h) = elim (Bool-cases (ltb x d)) [
  | inl e ↦ rw e (p, (px, h))
  | inr e ↦ rw e (px, insert-All P d xs p h)
]

All-weaker : (x y : ℕ) (xs : List ℕ) → x ≤ y → All (λ z. z ≤ x) xs → All (λ z. z ≤ y) xs
All-weaker x y [] l h = tt
All-weaker x y (z ∷ xs) l (p, h) = (omega arith, All-weaker x y xs l h)

insert-Sorted : (d : ℕ) (xs : List ℕ) → Sorted xs → Sorted (insert d xs)
unfolding insert
insert-Sorted d [] s = (tt, tt)
insert-Sorted d (x ∷ xs) (h, s) = elim (Bool-cases (ltb x d)) [
  | inl e ↦ rw e ((ground (arith, e), All-weaker x d xs (ground (arith, e)) h), (h, s))
  | inr e ↦ rw e (insert-All (λ y. y ≤ x) d xs (ground (arith, e)) h, insert-Sorted d xs s)
]

pub sort_reversed-Sorted : (xs : List ℕ) → Sorted (sort_reversed xs)
unfolding sort_reversed
sort_reversed-Sorted [] = tt
sort_reversed-Sorted (x ∷ xs) = insert-Sorted x (sort_reversed xs) (sort_reversed-Sorted xs)

length-insert : (d : ℕ) (xs : List ℕ) → length (insert d xs) ≡ suc (length xs)
unfolding insert
length-insert d [] = refl
length-insert d (x ∷ xs) = elim (Bool-cases (ltb x d)) [
  | inl e ↦ rw e refl
  | inr e ↦ rw e (ap suc (length-insert d xs))
]

length-sort_reversed : (xs : List ℕ) → length (sort_reversed xs) ≡ length xs
unfolding sort_reversed
length-sort_reversed [] = refl
length-sort_reversed (x ∷ xs) =
    length-insert x (sort_reversed xs) ∙ ap suc (length-sort_reversed xs)

take-All : (P : ℕ → Type 0) (n : ℕ) (xs : List ℕ) → All P xs → All P (take n xs)
take-All P zero xs h = tt
take-All P (suc n) [] h = tt
take-All P (suc n) (x ∷ xs) (p, h) = (p, take-All P n xs h)

take-Sorted : (n : ℕ) (xs : List ℕ) → Sorted xs → Sorted (take n xs)
take-Sorted zero xs s = tt
take-Sorted (suc n) [] s = tt
take-Sorted (suc n) (x ∷ xs) (h, s) = (take-All (λ y. y ≤ x) n xs h, take-Sorted n xs s)

length-take : (n : ℕ) (xs : List ℕ) → n ≤ length xs → length (take n xs) ≡ n
length-take zero xs h = refl
length-take (suc n) [] h = absurd (omega arith)
length-take (suc n) (x ∷ xs) h = ap suc (length-take n xs (omega arith))

take-take : (n : ℕ) (xs : List ℕ) → take n (take (suc n) xs) ≡ take n xs
take-take zero xs = refl
take-take (suc n) [] = refl
take-take (suc n) (x ∷ xs) = ap (λ t. x ∷ t) (take-take n xs)

-- A cut before the insertion is not seen after it.
take_cons : (n y : ℕ) (ys : List ℕ) → take n (y ∷ take n ys) ≡ take n (y ∷ ys)
take_cons zero y ys = refl
take_cons (suc n) y ys = ap (λ t. y ∷ t) (take-take n ys)

take-insert : (n d : ℕ) (xs : List ℕ) → take n (insert d (take n xs)) ≡ take n (insert d xs)
unfolding insert
take-insert zero d xs = refl
take-insert (suc n) d [] = refl
take-insert (suc n) d (x ∷ xs) = elim (Bool-cases (ltb x d)) [
  | inl e ↦ rw (e, insert) (ap (λ t. d ∷ t) (take_cons n x xs))
  | inr e ↦ rw (e, insert) (ap (λ t. x ∷ t) (take-insert n d xs))
]

insert_greatest : (d : ℕ) (xs : List ℕ) → All (λ y. y ≤ d) xs → insert d xs ≡ d ∷ xs
unfolding insert
insert_greatest d [] h = refl
insert_greatest d (x ∷ xs) (p, h) = elim (Bool-cases (ltb x d)) [
  | inl e ↦ rw e refl
  | inr e ↦ let same : x ≡ d = ground (arith, e) in rw (e, insert_greatest d xs h, same) refl
]

last-All : (P : ℕ → Type 0) (x : ℕ) (xs : List ℕ) → All P (x ∷ xs) → P (last (x ∷ xs))
last-All P x [] (p, h) = p
last-All P x (y ∷ ys) (p, h) = last-All P y ys h

-- A difference that is not above the last one falls off again.
insert_least :
    (d x : ℕ) (xs : List ℕ)
    → Sorted (x ∷ xs)
    → d ≤ last (x ∷ xs)
    → take (suc (length xs)) (insert d (x ∷ xs)) ≡ x ∷ xs
unfolding insert
insert_least d x [] s h = let e : ltb x d ≡ false = ground arith in rw e refl
insert_least d x (y ∷ ys) (p, s) h =
    let l = last-All (λ z. z ≤ x) y ys p in
    let e : ltb x d ≡ false = ground (arith, l) in
    rw (insert, e) (ap (λ t. x ∷ t) (insert_least d y ys s h))

-- A difference above the last one takes its place, and the last one falls off.
replaced_last :
    (d x : ℕ) (xs : List ℕ)
    → Sorted (x ∷ xs)
    → last (x ∷ xs) < d
    → sort_reversed (set_last d (x ∷ xs)) ≡ take (suc (length xs)) (insert d (x ∷ xs))
unfolding sort_reversed insert
replaced_last d x [] s h = let e : ltb x d ≡ true = ground arith in rw e refl
replaced_last d x (y ∷ ys) (p, s) h =
    let again = replaced_last d y ys s h in
    elim (Bool-cases (ltb x d)) [
      | inl e ↦
          let above : insert d (y ∷ ys) ≡ d ∷ y ∷ ys =
            insert_greatest d (y ∷ ys) (All-weaker x d (y ∷ ys) (ground (arith, e)) p) in
          let below : ltb d x ≡ false = ground (arith, e) in
          rw (sort_reversed, again, above, e)
            (rw
              (
                below,
                insert_greatest x (take (length ys) (y ∷ ys))
                    (take-All (λ z. z ≤ x) (length ys) (y ∷ ys) p),
              )
              refl)
      | inr e ↦
          let small : All (λ z. z ≤ x) (take (suc (length ys)) (insert d (y ∷ ys))) =
            take-All (λ z. z ≤ x) (suc (length ys)) (insert d (y ∷ ys))
              (insert-All (λ z. z ≤ x) d (y ∷ ys) (ground (arith, e)) p) in
          rw (sort_reversed, again)
            (insert_greatest x (take (suc (length ys)) (insert d (y ∷ ys))) small
              ∙ rw (insert, e) refl)
    ]

add_top_lem :
    (d x : ℕ) (xs : List ℕ)
    → Sorted (x ∷ xs)
    → add_top d (x ∷ xs) ≡ take (suc (length xs)) (insert d (x ∷ xs))
unfolding add_top
add_top_lem d x xs s = elim (Bool-cases (ltb (last (x ∷ xs)) d)) [
  | inl e ↦ rw e (replaced_last d x xs s (ground (arith, e)))
  | inr e ↦ rw e (sym (insert_least d x xs s (ground (arith, e))))
]

-- The actual differences of the accepted results, the latest first.
abbrev pub diffs : List Event → List ℕ
diffs [] = []
diffs (result submitted false ∷ es) = submitted.actual_diff ∷ diffs es
diffs (_ ∷ es) = diffs es

add_ten :
    (d : ℕ) (xs : List ℕ)
    → 10 ≤ length xs
    → add_top d (take 10 (sort_reversed xs)) ≡ take 10 (sort_reversed (d ∷ xs))
unfolding sort_reversed
add_ten d xs h =
    let l = length-take 10 (sort_reversed xs) (omega (arith, length-sort_reversed xs)) in
    let s = take-Sorted 10 (sort_reversed xs) (sort_reversed-Sorted xs) in
    cut (take 10 (sort_reversed xs)) l s ∙ take-insert 10 d (sort_reversed xs)
  where
    cut : (t : List ℕ) → length t ≡ 10 → Sorted t → add_top d t ≡ take 10 (insert d t)
    cut [] l s = absurd (omega arith)
    cut (x ∷ t) l s = rw l at (add_top_lem d x t s)

enough : (es : List Event) → 10 ≤ length (diffs es ++ zeros)
enough es = omega (arith, length-append (diffs es) zeros)

-- The ten best differences are, after any events, the ten greatest of all actual differences of accepted
-- results and ten zeros, the greatest first.
pub top_diff-sort_reversed :
    (es : List Event) → (run es).top_diff ≡ take 10 (sort_reversed (diffs es ++ zeros))
unfolding step new_state on_active on_job on_pause stop add insert sort_reversed
top_diff-sort_reversed [] = refl
top_diff-sort_reversed (active client now ∷ es) = top_diff-sort_reversed es
top_diff-sort_reversed (job algorithm diff ∷ es) = top_diff-sort_reversed es
top_diff-sort_reversed (pause true ∷ es) = top_diff-sort_reversed es
top_diff-sort_reversed (pause false ∷ es) = top_diff-sort_reversed es
top_diff-sort_reversed (result submitted true ∷ es) = top_diff-sort_reversed es
top_diff-sort_reversed (result submitted false ∷ es) =
    ap (add_top submitted.actual_diff) (top_diff-sort_reversed es)
    ∙ add_ten submitted.actual_diff (diffs es ++ zeros) (enough es)
