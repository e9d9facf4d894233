-- ===== src/Merkle/Tests.antt =====
-- MerkleTree/merkel.go on concrete data, with a hash function that returns what it is given.
use alg_bc_db.Prelude.{◌≡◌, refl, some, none, List, [], ◌∷◌, Bytes, equal}
use alg_bc_db.Merkle.{
  MerkleTree, node, ref, leaf, get_merkle_node, next_level, pair_up, get_node_prove, padded,
  get_merkle_root, get_merkle_root_fuel, get_prove, proved,
}
use alg_bc_db.Merkle.Build.{RootOf, get_merkle_root-RootOf}
use alg_bc_db.Merkle.Shape.{Descends}
use alg_bc_db.Merkle.Search.{get_prove-Descends, get_prove_sound}

abbrev same : Bytes → Bytes
same bs = bs

abbrev data_items : List Bytes
data_items = (1 ∷ []) ∷ (2 ∷ []) ∷ (3 ∷ []) ∷ []

get_prove-Descends_example :
    (t : MerkleTree) × (p : List Bytes) × (get_merkle_root same data_items ≡ some t)
    × (get_prove same (some t) (2 ∷ []) ≡ proved (some p))
    × Descends (2 ∷ []) t.root p
get_prove-Descends_example = get_prove-Descends same data_items 1 2 [] refl

abbrev sample_tree : MerkleTree
sample_tree = record {
  root = node (ref (leaf same (1 ∷ []))) (ref (leaf same (2 ∷ []))) (1 ∷ 2 ∷ []);
  hash = 1 ∷ 2 ∷ [];
}

sample_tree_built : get_merkle_root same ((1 ∷ []) ∷ (2 ∷ []) ∷ []) ≡ some sample_tree
unfolding get_merkle_root get_merkle_root_fuel get_merkle_node next_level pair_up padded
sample_tree_built = refl

sample_tree_proof :
    get_prove same (some sample_tree) (2 ∷ []) ≡ proved (some ((1 ∷ 2 ∷ []) ∷ (2 ∷ []) ∷ []))
unfolding get_prove get_node_prove equal
sample_tree_proof = refl

sample_tree_no_proof : get_prove same (some sample_tree) (3 ∷ []) ≡ proved none
unfolding get_prove get_node_prove equal
sample_tree_no_proof = refl

get_prove_sound_example : Descends (2 ∷ []) sample_tree.root ((1 ∷ 2 ∷ []) ∷ (2 ∷ []) ∷ [])
get_prove_sound_example =
    get_prove_sound same sample_tree (2 ∷ []) ((1 ∷ 2 ∷ []) ∷ (2 ∷ []) ∷ []) (refl, tt, tt)
      sample_tree_proof

get_merkle_root-RootOf_example : RootOf same data_items
get_merkle_root-RootOf_example = get_merkle_root-RootOf same data_items
