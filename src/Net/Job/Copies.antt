-- ===== src/Net/Job/Copies.antt =====
-- Job.cpp: copies and moves of jobs.
use rxs_supported.Common.{
  ℕ, zero, suc, ◌≤◌, List, [], ◌∷◌, ◌++◌, Bool, true, false, ◌&&◌, ◌==◌, none, some, take, drop,
  length, ◌≡◌, refl, ap, sym, ◌∙◌, arith,
}
use rxs_supported.Net.Job.{
  Job, Text, bytes_eq, text_eq, is_equal, is_equal_blob, is_valid, copy, move,
}

bytes_eq_refl : (xs : List ℕ) → bytes_eq xs xs ≡ true
bytes_eq_refl [] = refl
bytes_eq_refl (x ∷ xs) = ground (arith, bytes_eq_refl xs)

pub bytes_eq-true : (xs ys : List ℕ) → bytes_eq xs ys ≡ true → xs ≡ ys
bytes_eq-true [] [] e = refl
bytes_eq-true [] (y ∷ ys) e = absurd (ground arith)
bytes_eq-true (x ∷ xs) [] e = absurd (ground arith)
bytes_eq-true (x ∷ xs) (y ∷ ys) e = ground (arith, bytes_eq-true xs ys)

text_eq_refl : (t : Text) → text_eq t t ≡ true
text_eq_refl none = refl
text_eq_refl (some t) = bytes_eq_refl t

text_eq-true : (s t : Text) → text_eq s t ≡ true → s ≡ t
text_eq-true none none e = refl
text_eq-true none (some t) e = absurd (ground arith)
text_eq-true (some s) none e = absurd (ground arith)
text_eq-true (some s) (some t) e = ap some (bytes_eq-true s t e)

take-take_append : (n : ℕ) (xs ys : List ℕ) → n ≤ length xs → take n (take n xs ++ ys) ≡ take n xs
take-take_append zero xs ys h = refl
take-take_append (suc n) [] ys h = absurd (omega arith)
take-take_append (suc n) (x ∷ xs) ys h = ap (λ t. x ∷ t) (take-take_append n xs ys (omega arith))

-- What `isEqual` looks at.
pub record Same (j other : Job) : Type 0 where
  pub id : j.id ≡ other.id
  pub client_id : j.client_id ≡ other.client_id
  pub size : j.size ≡ other.size
  pub blob : take j.size j.blob ≡ take other.size other.blob
  pub target : j.target ≡ other.target

five_tests :
    (a b c d e : Bool)
    → (a && b && (c && d) && e) ≡ true
    → (a ≡ true) × (b ≡ true) × (c ≡ true) × (d ≡ true) × (e ≡ true)
five_tests a b c d e h = (ground arith, ground arith, ground arith, ground arith, ground arith)

eq_true : (m n : ℕ) → (m == n) ≡ true → m ≡ n
eq_true m n e = ground arith

all-Same : (j other : Job) → Same j other → is_equal j other ≡ true
unfolding is_equal is_equal_blob
all-Same j other s =
    let b : take j.size j.blob ≡ take j.size other.blob =
      s.blob ∙ ap (λ k. take k other.blob) (sym s.size) in
    rw
      (
        is_equal,
        is_equal_blob,
        s.id,
        s.client_id,
        b,
        s.size,
        s.target,
        text_eq_refl other.id,
        text_eq_refl other.client_id,
        bytes_eq_refl (take other.size other.blob),
      )
      (ground arith)

-- isEqual answers true exactly for jobs with the same id, client, blob and target.
is_equal-Same :
    (j other : Job)
    → (is_equal j other ≡ true → Same j other) × (Same j other → is_equal j other ≡ true)
unfolding is_equal is_equal_blob
is_equal-Same j other = (
  (λ e.
      let (i, c, n, b, t) = five_tests (text_eq j.id other.id) _ _ _ _ e in
      let n' = eq_true j.size other.size n in
      record {
        id = text_eq-true j.id other.id i;
        client_id = text_eq-true j.client_id other.client_id c;
        size = n';
        blob = bytes_eq-true _ _ b ∙ ap (λ k. take k other.blob) n';
        target = eq_true j.target other.target t;
      }),
  (λ s. all-Same j other s),
)

-- A copy equals what it was copied from, as does a job moved to, whatever the buffer held before, if the other
-- job's size is within its buffer; the job moved from is no longer valid.
move-Same :
    (j other : Job)
    → other.size ≤ length other.blob
    → Same (copy j other) other × Same (move j other).0 other × (is_valid (move j other).1 ≡ false)
unfolding copy move
move-Same j other h =
    let b = take-take_append other.size other.blob (drop other.size j.blob) h in
    let s : Same (copy j other) other = record {
      id = refl;
      client_id = refl;
      size = refl;
      blob = b;
      target = refl;
    } in
    (s, s, refl)
