-- ===== src/Tools/BlockTemplate/Merkle.antt =====
-- base/tools/cryptonote/BlockTemplate.cpp: the tree of the hashes of a block's transactions. A buffer of
-- hashes is the list of them; `keccak` is that of base/crypto/keccak.h, whose hash has 32 bytes.
pub mod Among
pub mod Climb
pub mod Pass
pub mod Levels
pub mod Root
mod Tests
use rxs_supported.Common.{
  ℕ, zero, suc, ◌+◌, ◌*◌, ◌/◌, ◌%◌, ◌^◌, ◌-◌, List, [], ◌∷◌, ◌++◌, Bool, true, false, ltb, leb,
  ◌==◌, if◌then◌else◌, Option, none, some, get_elem?, take, drop, length, replicate,
}
use rxs_supported.Net.Job.{bytes_eq}

abbrev known_second_hash : List ℕ
known_second_hash =
    188 ∷ 54 ∷ 120 ∷ 158 ∷ 122 ∷ 30 ∷ 40 ∷ 20 ∷ 54 ∷ 70 ∷ 66 ∷ 41 ∷ 130 ∷ 143 ∷ 129 ∷ 125 ∷ 102 ∷ 18
    ∷ 247 ∷ 180 ∷ 119 ∷ 214 ∷ 101 ∷ 145 ∷ 255 ∷ 150 ∷ 169 ∷ 224 ∷ 100 ∷ 188 ∷ 201 ∷ 138 ∷ []

-- h2, m_minerTxMerkleTreeBranch and m_minerTxMerkleTreePath.
pub record Proof : Type 0 where
  pub h2 : List ℕ
  pub branch : List (List ℕ)
  pub path : ℕ

-- The path after a node that is a right one, or a left one: in the loop over the leaves, and in those over
-- the nodes.
abbrev pub turn_first : Bool → ℕ → ℕ
turn_first right path = if right then 1 else path

abbrev pub turn_next : Bool → ℕ → ℕ
turn_next right path = (path * 2 + (if right then 1 else 0)) % 2 ^ 32

-- What calculateMerkleTreeHash leaves: the branch, the path and m_rootHash.
pub record Tree : Type 0 where
  pub branch : List (List ℕ)
  pub path : ℕ
  pub root : List ℕ

-- The largest power of two up to `count`, from `cnt` on.
unfoldable pub grow : ℕ → ℕ → ℕ → ℕ
grow zero cnt count = cnt
grow (suc fuel) cnt count =
    let more = grow fuel (cnt * 2) count in if leb (cnt * 2) count then more else cnt

module _ (keccak : List ℕ → List ℕ) where
  unfoldable pub miner_tx_hash : List ℕ → List ℕ
  miner_tx_hash prefix = keccak (keccak prefix ++ (known_second_hash ++ replicate 32 0))

  -- The hash of a node, from the hash below and its sibling, which stands on the left or not.
  abbrev pub join : Bool → List ℕ → List ℕ → List ℕ
  join right sibling hash = if right then keccak (sibling ++ hash) else keccak (hash ++ sibling)

  -- The loop of calculateRootHash; a branch has 32 hashes at most.
  unfoldable pub climb : List (List ℕ) → ℕ → List ℕ → List ℕ
  climb [] path hash = hash
  climb (sibling ∷ branch) path hash =
      climb branch path (join (path / 2 ^ length branch % 2 == 1) sibling hash)

  -- `calculateRootHash`.
  unfoldable pub root_hash : List ℕ → List (List ℕ) → ℕ → List ℕ
  root_hash prefix branch path = climb branch path (miner_tx_hash prefix)

  -- The hashes of a level of the tree, from two of the level below each. The one array is overwritten
  -- behind the place where it is read.
  unfoldable pub nodes : List (List ℕ) → List (List ℕ)
  nodes (a ∷ b ∷ hashes) = keccak (a ++ b) ∷ nodes hashes
  nodes _ = []

  unfoldable pub visit : (Bool → ℕ → ℕ) → List ℕ → List ℕ → Proof → Proof
  visit turn a b p =
      if bytes_eq a p.h2
      then record { h2 = keccak (a ++ b); branch = p.branch ++ b ∷ []; path = turn false p.path }
      else if bytes_eq b p.h2
      then record { h2 = keccak (a ++ b); branch = p.branch ++ a ∷ []; path = turn true p.path }
      else p

  -- The same loop's work on the branch.
  unfoldable pub pass : (Bool → ℕ → ℕ) → List (List ℕ) → Proof → Proof
  pass turn (a ∷ b ∷ hashes) p = pass turn hashes (visit turn a b p)
  pass turn _ p = p

  -- `while (cnt >= 2)`.
  unfoldable pub reduce : ℕ → List (List ℕ) → Proof → List (List ℕ) × Proof
  reduce zero ints p = (ints, p)
  reduce (suc fuel) ints p =
      let rest = reduce fuel (nodes ints) (pass turn_next ints p) in
      if ltb (length ints) 2 then (ints, p) else rest

  unfoldable pub finish : List (List ℕ) × Proof → Option Tree
  finish ([], p) = none
  finish (root ∷ ints, p) = some (record { branch = p.branch; path = p.path; root = root })

  -- From three hashes on, with the leaf's hash: the last ones are paired first, so that a power of two is
  -- left.
  unfoldable pub large_tree : List ℕ → List (List ℕ) → Option Tree
  large_tree leaf hashes =
      let cnt = grow (length hashes) 1 (length hashes) in
      let k = cnt * 2 - length hashes in
      finish (
        reduce cnt (take k hashes ++ nodes (drop k hashes))
          (pass turn_first (drop k hashes) (record { h2 = leaf; branch = []; path = 0 })))

  -- The same, where the leaf is read; `none` is a read past the hashes.
  abbrev pub leaf_tree : Option (List ℕ) → List (List ℕ) → Option Tree
  leaf_tree none hashes = none
  leaf_tree (some leaf) hashes = large_tree leaf hashes

  -- `calculateMerkleTreeHash`.
  unfoldable pub tree_hash : ℕ → List (List ℕ) → Option Tree
  tree_hash index [] = none
  tree_hash index (root ∷ []) = some (record { branch = []; path = 0; root = root })
  tree_hash zero (a ∷ b ∷ []) = some (record { branch = b ∷ []; path = 0; root = keccak (a ++ b) })
  tree_hash (suc zero) (a ∷ b ∷ []) =
      some (record { branch = a ∷ []; path = 1; root = keccak (a ++ b) })
  tree_hash (suc (suc index)) (a ∷ b ∷ []) = none
  tree_hash index (a ∷ b ∷ c ∷ hashes) =
      leaf_tree (get_elem? (a ∷ b ∷ c ∷ hashes) index) (a ∷ b ∷ c ∷ hashes)
