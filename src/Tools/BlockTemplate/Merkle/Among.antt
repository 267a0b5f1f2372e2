-- ===== src/Tools/BlockTemplate/Merkle/Among.antt =====
-- BlockTemplate.cpp: a hash among those of a level.
use rxs_supported.Common.{
  ℕ, zero, suc, ◌-◌, ◌≤◌, List, [], ◌∷◌, ◌++◌, Bool, true, false, not, ◌&&◌, ◌||◌, some, get_elem?,
  take, drop, length, ◌≡◌, refl, ap, sym, ◌∙◌, arith,
}
use rxs_supported.Net.Job.{bytes_eq}
use rxs_supported.Net.Job.Copies.{bytes_eq-true}

-- A hash is one of these.
unfoldable pub among : List ℕ → List (List ℕ) → Bool
among h [] = false
among h (x ∷ xs) = bytes_eq x h || among h xs

pub bytes_eq_refl : (xs : List ℕ) → bytes_eq xs xs ≡ true
bytes_eq_refl [] = refl
bytes_eq_refl (x ∷ xs) = ground (arith, bytes_eq_refl xs)

pub and_both : (a b : Bool) → a && b ≡ true → (a ≡ true) × (b ≡ true)
and_both true b e = (refl, e)
and_both false b e = absurd (ground arith)

pub not-false : (a : Bool) → not a ≡ true → a ≡ false
not-false true e = absurd (ground arith)
not-false false e = refl

pub or_left : (a b : Bool) → a ≡ true → a || b ≡ true
or_left true b e = refl
or_left false b e = absurd (ground arith)

pub or_right : (a b : Bool) → b ≡ true → a || b ≡ true
or_right true b e = refl
or_right false b e = e

pub or_none : (a b : Bool) → a || b ≡ false → (a ≡ false) × (b ≡ false)
or_none true b e = absurd (ground arith)
or_none false b e = (refl, e)

pub among_one : (h x : List ℕ) → among h (x ∷ []) ≡ true → h ≡ x
unfolding among
among_one h x e = sym (bytes_eq-true x h (ground arith))

or_assoc : (a b c : Bool) → (a || (b || c)) ≡ ((a || b) || c)
or_assoc true b c = refl
or_assoc false b c = refl

pub among-append :
    (h : List ℕ) (xs ys : List (List ℕ)) → among h (xs ++ ys) ≡ (among h xs || among h ys)
unfolding among
among-append h [] ys = refl
among-append h (x ∷ xs) ys =
    ap (λ b. bytes_eq x h || b) (among-append h xs ys)
    ∙ or_assoc (bytes_eq x h) (among h xs) (among h ys)

pub among-get_elem? :
    (i : ℕ) (h : List ℕ) (xs : List (List ℕ)) → get_elem? xs i ≡ some h → among h xs ≡ true
unfolding among
among-get_elem? i h [] e = absurd (ground arith)
among-get_elem? zero h (x ∷ xs) e =
    let s : x ≡ h = ground arith in or_left _ _ (ap (λ y. bytes_eq y h) s ∙ bytes_eq_refl h)
among-get_elem? (suc i) h (x ∷ xs) e = or_right (bytes_eq x h) _ (among-get_elem? i h xs e)

pub take-drop : (k : ℕ) (xs : List (List ℕ)) → take k xs ++ drop k xs ≡ xs
take-drop zero xs = refl
take-drop (suc k) [] = refl
take-drop (suc k) (x ∷ xs) = ap (λ t. x ∷ t) (take-drop k xs)

pub length-take : (k : ℕ) (xs : List (List ℕ)) → k ≤ length xs → length (take k xs) ≡ k
length-take zero xs l = refl
length-take (suc k) [] l = absurd (omega arith)
length-take (suc k) (x ∷ xs) l = let r = length-take k xs (omega arith) in omega (arith, r)

pub length-drop : (k : ℕ) (xs : List (List ℕ)) → length (drop k xs) ≡ length xs - k
length-drop zero xs = omega arith
length-drop (suc k) [] = omega arith
length-drop (suc k) (x ∷ xs) = let r = length-drop k xs in omega (arith, r)

pub or_only : (a b : Bool) → (a || b) ≡ true → b ≡ false → a ≡ true
or_only true b e n = refl
or_only false b e n = absurd (ground arith)
