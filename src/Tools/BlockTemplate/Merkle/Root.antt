-- ===== src/Tools/BlockTemplate/Merkle/Root.antt =====
-- BlockTemplate.cpp: the branch that is kept leads from the transaction to the root of the tree.
use rxs_supported.Common.{
  ℕ, zero, suc, ◌*◌, ◌^◌, ◌-◌, ◌<◌, ◌≤◌, List, [], ◌∷◌, ◌++◌, Bool, true, ◌&&◌, leb, Option, none,
  some, get_elem?, take, drop, length, length-append, ◌≡◌, refl, ap, sym, subst, ◌∙◌, arith,
  Bool-cases, inl, inr,
}
use native.Mathlib.Nat.{pow-suc}
use rxs_supported.Tools.BlockTemplate.Merkle.{
  Tree, turn_first, grow, miner_tx_hash, climb, root_hash, nodes, pass, reduce, finish, large_tree,
  leaf_tree, tree_hash,
}
use rxs_supported.Tools.BlockTemplate.Merkle.Among.{
  among, or_only, and_both, or_left, or_right, among-append, among-get_elem?, take-drop,
  length-take, length-drop,
}
use rxs_supported.Tools.BlockTemplate.Merkle.Climb.{Leads}
use rxs_supported.Tools.BlockTemplate.Merkle.Pass.{fresh, pass-Moved, pass-none, length-nodes}
use rxs_supported.Tools.BlockTemplate.Merkle.Levels.{
  start, turn_first-Leads, fresh_levels, reduce-Leads,
}

twice : (cnt n : ℕ) → cnt * 2 ^ suc n ≡ cnt * 2 * 2 ^ n
twice cnt n = ap (λ (t : ℕ). cnt * t) (pow-suc 2 n) ∙ grind arith

grow_lem :
    (fuel cnt count j : ℕ)
    → cnt ≡ 2 ^ j
    → cnt ≤ count
    → count < cnt * 2 ^ fuel
    → (m : ℕ) × (grow fuel cnt count ≡ 2 ^ m) × (2 ^ m ≤ count) × (count < 2 ^ m * 2)
unfolding grow
grow_lem zero cnt count j c l g = absurd (omega arith)
grow_lem (suc fuel) cnt count j c l g = elim (Bool-cases (leb (cnt * 2) count)) [
  | inl y ↦
      rw (grow, y)
        (grow_lem fuel (cnt * 2) count (suc j) (ap (λ t. t * 2) c ∙ sym (pow-suc 2 j))
          (ground arith) (subst (λ t. count < t) (twice cnt fuel) g))
  | inr n ↦ rw (grow, n) (j, c, omega (arith, c), grind arith)
]

below_two_pow : (n : ℕ) → n < 2 ^ n
below_two_pow zero = omega arith
below_two_pow (suc n) = omega (arith, below_two_pow n, pow-suc 2 n)

some_value : (a b : List ℕ) → some a ≡ some b → a ≡ b
some_value a b e = ap (λ o. elim o [ none ↦ [] | some x ↦ x ]) e

module _ (keccak : List ℕ → List ℕ) where
  abbrev level : ℕ → List (List ℕ) → List (List ℕ)
  level k hashes = take k hashes ++ nodes keccak (drop k hashes)

  -- No node is one of the hashes that stand on a level after the two that it is made of.
  unfoldable pub apart : List (List ℕ) → Bool
  apart hashes =
      let cnt = grow (length hashes) 1 (length hashes) in
      let k = cnt * 2 - length hashes in
      fresh keccak (drop k hashes) && fresh_levels keccak cnt (level k hashes)

  length-level :
      (m : ℕ) (hashes : List (List ℕ))
      → m ≤ length hashes
      → length hashes < m * 2
      → (length (drop (m * 2 - length hashes) hashes) ≡ (length hashes - m) * 2)
        × (length (level (m * 2 - length hashes) hashes) ≡ m)
  length-level m hashes lo hi =
      let k = m * 2 - length hashes in
      let dropped : length (drop k hashes) ≡ (length hashes - m) * 2 =
        length-drop k hashes ∙ omega arith in
      let taken = length-take k hashes (omega arith) in
      let made = length-nodes keccak (drop k hashes) (length hashes - m) dropped in
      (
        dropped,
        length-append (take k hashes) (nodes keccak (drop k hashes)) ∙ omega (arith, taken, made),
      )

  start-Leads : (leaf : List ℕ) → Leads keccak leaf (start leaf)
  unfolding climb start
  start-Leads leaf = record { up = refl; path = omega arith }

  ToRoot : List ℕ → Option Tree → Type 0
  ToRoot leaf o = (t : Tree) × (o ≡ some t) × (climb keccak t.branch t.path leaf ≡ t.root)

  levels_lem :
      (m k : ℕ) (leaf : List ℕ) (hashes : List (List ℕ))
      → 2 ^ m ≤ 2 ^ 31
      → length (drop k hashes) ≡ (length hashes - 2 ^ m) * 2
      → length (level k hashes) ≡ 2 ^ m
      → among leaf hashes ≡ true
      → fresh keccak (drop k hashes) ≡ true
      → fresh_levels keccak (2 ^ m) (level k hashes) ≡ true
      → ToRoot leaf (
          finish keccak (
            reduce keccak
              (2 ^ m)
              (level k hashes)
              (pass keccak turn_first (drop k hashes) (start leaf))))
  unfolding ToRoot start
  levels_lem m k leaf hashes big odd len a f g =
      let fuel : m ≤ 2 ^ m = let b = below_two_pow m in omega (arith, b) in
      let split = among-append leaf (take k hashes) (drop k hashes) in
      let whole = ap (among leaf) (take-drop k hashes) in
      elim (Bool-cases (among leaf (drop k hashes))) [
        | inl y ↦
            let (mv, i) =
              pass-Moved keccak turn_first (drop k hashes) (start leaf) (length hashes - 2 ^ m) odd
                y f in
            let (d, one) = turn_first-Leads keccak leaf _ mv in
            reduce-Leads keccak m (2 ^ m) (level k hashes) leaf
              (pass keccak turn_first (drop k hashes) (start leaf)) len fuel
              (among-append _ (take k hashes) (nodes keccak (drop k hashes)) ∙ or_right _ _ i) g d
              (subst (λ x. 2 ^ x * length (level k hashes) ≤ 2 ^ 32) (sym one)
                (omega (arith, len, big)))
        | inr n ↦
            subst (λ p. ToRoot leaf (finish keccak (reduce keccak (2 ^ m) (level k hashes) p)))
              (sym (pass-none keccak turn_first (drop k hashes) (start leaf) n))
              (reduce-Leads keccak m (2 ^ m) (level k hashes) leaf (start leaf) len fuel
                (among-append leaf (take k hashes) (nodes keccak (drop k hashes))
                  ∙ or_left _ _ (or_only _ _ (sym split ∙ whole ∙ a) n))
                g (start-Leads leaf) (omega (arith, len, big)))
      ]

  large_tree_lem :
      (leaf : List ℕ) (hashes : List (List ℕ))
      → 0 < length hashes
      → length hashes ≤ 2 ^ 31
      → among leaf hashes ≡ true
      → apart hashes ≡ true
      → ToRoot leaf (large_tree keccak leaf hashes)
  unfolding large_tree apart start
  large_tree_lem leaf hashes pos big a f =
      let n = length hashes in
      let (m, g, lo, hi) =
        grow_lem n 1 n 0 refl pos (let b = below_two_pow n in omega (arith, b)) in
      let (odd, len) = length-level (2 ^ m) hashes lo hi in
      let P : ℕ → Type 0 = λ c.
        fresh keccak (drop (c * 2 - n) hashes) && fresh_levels keccak c (level (c * 2 - n) hashes)
          ≡ true
        → ToRoot leaf (
            finish keccak (
              reduce keccak c (level (c * 2 - n) hashes)
                (pass keccak turn_first (drop (c * 2 - n) hashes) (start leaf)))) in
      subst P (sym g)
        (λ h.
          let (x, y) = and_both _ _ h in
          levels_lem m (2 ^ m * 2 - n) leaf hashes (omega (arith, lo, big)) odd len a x y)
        f

  -- The hashes of a block's transactions are a tree that calculateMerkleTreeHash can follow: with three or
  -- more, no node is one of the hashes after the two that it is made of.
  unfoldable pub is_tree : List (List ℕ) → Bool
  is_tree (a ∷ b ∷ c ∷ hashes) = apart (a ∷ b ∷ c ∷ hashes)
  is_tree _ = true

  -- Where the hash of the miner transaction, with this prefix, is the one at `index` of at most 2 ^ 31
  -- hashes, and no node is one of the hashes after its children on their level, calculateMerkleTreeHash gives
  -- a root, a branch and a path, and from these calculateRootHash gives the same root.
  pub root_hash-tree_hash :
      (prefix : List ℕ) (index : ℕ) (hashes : List (List ℕ))
      → get_elem? hashes index ≡ some (miner_tx_hash keccak prefix)
      → length hashes ≤ 2 ^ 31
      → is_tree hashes ≡ true
      → (t : Tree) × (tree_hash keccak index hashes ≡ some t)
        × (root_hash keccak prefix t.branch t.path ≡ t.root)
  unfolding root_hash tree_hash is_tree ToRoot climb
  root_hash-tree_hash prefix index [] e l f = absurd (ground arith)
  root_hash-tree_hash prefix zero (a ∷ []) e l f = (_, refl, sym (some_value _ _ e))
  root_hash-tree_hash prefix (suc i) (a ∷ []) e l f = absurd (ground arith)
  root_hash-tree_hash prefix zero (a ∷ b ∷ []) e l f =
      (_, refl, ap (λ h. keccak (h ++ b)) (sym (some_value _ _ e)))
  root_hash-tree_hash prefix (suc zero) (a ∷ b ∷ []) e l f =
      (_, refl, ap (λ h. keccak (a ++ h)) (sym (some_value _ _ e)))
  root_hash-tree_hash prefix (suc (suc i)) (a ∷ b ∷ []) e l f = absurd (ground arith)
  root_hash-tree_hash prefix index (a ∷ b ∷ c ∷ hashes) e l f =
      subst (λ o. ToRoot (miner_tx_hash keccak prefix) (leaf_tree keccak o (a ∷ b ∷ c ∷ hashes)))
        (sym e)
        (large_tree_lem (miner_tx_hash keccak prefix) (a ∷ b ∷ c ∷ hashes) (omega arith) l
          (among-get_elem? index _ _ e) f)
