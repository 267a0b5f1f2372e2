-- ===== src/Common/Maps.antt =====
-- Maps from numbers, as lists of entries.
use Prim.Native.Nat.{ℕ, suc, ◌+◌, ◌≤◌}
use mathlib.Core.Path.{◌≡◌}
use mathlib.Core.List.{List, [], ◌∷◌}
use mathlib.Core.Bool.{Bool}
use mathlib.Core.Option.{Option, none, some}
use native.Mathlib.Omega.{arith}
use rxs_supported.Common.Tests.{◌==◌, if◌then◌else◌}

module _ {ℓ} {A : Type ℓ} where
  unfoldable pub lookup : ℕ → List (ℕ × A) → Option A
  lookup key [] = none
  lookup key ((k, a) ∷ m) = if k == key then some a else lookup key m

  unfoldable pub erase : ℕ → List (ℕ × A) → List (ℕ × A)
  erase key [] = []
  erase key ((k, a) ∷ m) = if k == key then m else (k, a) ∷ erase key m

  -- `m[key] = a`: what stands under the key is replaced.
  unfoldable pub put : ℕ → A → List (ℕ × A) → List (ℕ × A)
  put key a [] = (key, a) ∷ []
  put key a ((k, b) ∷ m) = if k == key then (k, a) ∷ m else (k, b) ∷ put key a m

  -- `m.insert`: what stands under the key is kept.
  unfoldable pub insert : ℕ → A → List (ℕ × A) → List (ℕ × A)
  insert key a [] = (key, a) ∷ []
  insert key a ((k, b) ∷ m) = if k == key then (k, b) ∷ m else (k, b) ∷ insert key a m

  -- How many entries pass a test.
  unfoldable pub count : (A → Bool) → List (ℕ × A) → ℕ
  count q [] = 0
  count q ((k, a) ∷ m) = if q a then suc (count q m) else count q m

  pub count-put :
      (q : A → Bool) (k : ℕ) (a : A) (m : List (ℕ × A))
      → count q (put k a m) ≤ (if q a then count q m + 1 else count q m)
  unfolding count put
  count-put q k a [] = ground arith
  count-put q k a ((j, b) ∷ m) = ground (arith, count-put q k a m)

  -- An entry that is found is one fewer after it is erased.
  pub count-erase :
      (q : A → Bool) (k : ℕ) (a : A) (m : List (ℕ × A))
      → lookup k m ≡ some a
      → (if q a then count q (erase k m) + 1 else count q (erase k m)) ≡ count q m
  unfolding count erase lookup
  count-erase q k a [] e = absurd (ground arith)
  count-erase q k a ((j, b) ∷ m) e = ground (arith, count-erase q k a m)
