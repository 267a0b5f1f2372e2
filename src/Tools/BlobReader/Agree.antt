-- ===== src/Tools/BlobReader/Agree.antt =====
-- Memories that begin with the same bytes.
use rxs_supported.Common.{
  ℕ, zero, suc, ◌+◌, ◌≤◌, ◌<◌, List, [], ◌∷◌, some, get_elem?, take, drop, length, ◌≡◌, refl, arith,
}
use rxs_supported.Tools.BlobReader.{copy}

-- The first `n` bytes of two memories are the same.
abbrev pub Agree : ℕ → List ℕ → List ℕ → Type 0
Agree n xs ys = (i : ℕ) → i < n → get_elem? xs i ≡ get_elem? ys i

Agree-tail : (n x y : ℕ) (xs ys : List ℕ) → Agree (suc n) (x ∷ xs) (y ∷ ys) → Agree n xs ys
Agree-tail n x y xs ys a = λ i h. a (suc i) (omega arith)

pub Agree-length : (n : ℕ) (xs ys : List ℕ) → Agree n xs ys → n ≤ length xs → n ≤ length ys
Agree-length zero xs ys a h = omega arith
Agree-length (suc n) [] ys a h = absurd (omega arith)
Agree-length (suc n) (x ∷ xs) [] a h = absurd (ground (arith, a 0 (omega arith)))
Agree-length (suc n) (x ∷ xs) (y ∷ ys) a h =
    omega (arith, Agree-length n xs ys (Agree-tail n x y xs ys a) (omega arith))

pub Agree-take : (n : ℕ) (xs ys : List ℕ) → Agree n xs ys → take n xs ≡ take n ys
Agree-take zero xs ys a = refl
Agree-take (suc n) [] [] a = refl
Agree-take (suc n) [] (y ∷ ys) a = absurd (ground (arith, a 0 (omega arith)))
Agree-take (suc n) (x ∷ xs) [] a = absurd (ground (arith, a 0 (omega arith)))
Agree-take (suc n) (x ∷ xs) (y ∷ ys) a =
    ground (arith, a 0 (omega arith), Agree-take n xs ys (Agree-tail n x y xs ys a))

pub Agree-drop : (i n : ℕ) (xs ys : List ℕ) → Agree (i + n) xs ys → Agree n (drop i xs) (drop i ys)
Agree-drop zero n xs ys a = λ k h. a k (omega arith)
Agree-drop (suc i) n [] [] a = λ k h. refl
Agree-drop (suc i) n [] (y ∷ ys) a = absurd (ground (arith, a 0 (omega arith)))
Agree-drop (suc i) n (x ∷ xs) [] a = absurd (ground (arith, a 0 (omega arith)))
Agree-drop (suc i) n (x ∷ xs) (y ∷ ys) a = Agree-drop i n xs ys (λ k h. a (suc k) (omega arith))

pub copy-Agree :
    (i n : ℕ) (xs ys bytes : List ℕ)
    → Agree (i + n) xs ys
    → copy i n xs ≡ some bytes
    → copy i n ys ≡ some bytes
unfolding copy
copy-Agree i n xs ys bytes a e =
    let l = Agree-length (i + n) xs ys a in
    let t = Agree-take n (drop i xs) (drop i ys) (Agree-drop i n xs ys a) in ground (arith, l, t)
