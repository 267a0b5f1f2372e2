-- ===== src/Tools/BlockTemplate/Merkle/Tests.antt =====
-- Trees of hashes, at fixed inputs.
use rxs_supported.Common.{ℕ, List, [], ◌∷◌, some, take, ◌≡◌, refl, arith}
use rxs_supported.Tools.BlockTemplate.Merkle.{
  Tree, grow, miner_tx_hash, root_hash, nodes, visit, pass, reduce, finish, large_tree, tree_hash,
}
use rxs_supported.Tools.BlockTemplate.Merkle.Among.{among}
use rxs_supported.Tools.BlockTemplate.Merkle.Pass.{fresh}
use rxs_supported.Tools.BlockTemplate.Merkle.Levels.{fresh_levels}
use rxs_supported.Tools.BlockTemplate.Merkle.Root.{apart, is_tree, root_hash-tree_hash}

-- A short hash: a mark and the first three bytes.
abbrev short : List ℕ → List ℕ
short bytes = 7 ∷ take 3 bytes

abbrev prefix : List ℕ
prefix = 5 ∷ 6 ∷ 8 ∷ []

-- Five hashes, the last of which is that of the prefix.
abbrev five : List (List ℕ)
five = (1 ∷ []) ∷ (2 ∷ []) ∷ (3 ∷ []) ∷ (4 ∷ []) ∷ (7 ∷ 7 ∷ 5 ∷ 6 ∷ []) ∷ []

five-tree :
    tree_hash short 4 five
    ≡ some (record {
      branch = (4 ∷ []) ∷ (3 ∷ []) ∷ (7 ∷ 1 ∷ 2 ∷ []) ∷ [];
      path = 7;
      root = 7 ∷ 7 ∷ 1 ∷ 2 ∷ [];
    })
unfolding tree_hash large_tree grow nodes visit pass reduce finish
five-tree = refl

root_hash-tree_hash_example :
    (t : Tree) × (tree_hash short 4 five ≡ some t)
    × (root_hash short prefix t.branch t.path ≡ t.root)
unfolding miner_tx_hash is_tree apart fresh fresh_levels among grow nodes
root_hash-tree_hash_example = root_hash-tree_hash short prefix 4 five refl (omega arith) refl
