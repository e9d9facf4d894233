-- ===== src/Merkle.antt =====
-- MerkleTree/merkel.go: the tree over the hashed transactions, and the search that collects the
-- hashes from the root down to a given datum.
pub mod Shape
pub mod Build
pub mod Search
mod Tests
use alg_bc_db.Prelude.{
  ℕ, zero, suc, ◌%◌, Bool, true, false, ◌&&◌, not, Option, none, some, List, [], ◌∷◌, ◌++◌, map,
  Bytes, equal, length, ◌==◌, if◌then◌else◌,
}

-- `*MerkleNode` is a pointer: `null`, or a reference to a node.
mutual
  pub data MerkleNode : Type 0 where
    node : Pointer → Pointer → Bytes → MerkleNode

  pub data Pointer : Type 0 where
    null : Pointer
    ref : MerkleNode → Pointer

-- `n.Data`.
abbrev pub value : MerkleNode → Bytes
value (node l r d) = d

pub record MerkleTree : Type 0 where
  pub root : MerkleNode
  pub hash : Bytes

-- `append(xs, xs[len(xs)-1])`; the index is out of range on the empty slice, where it is not called.
unfoldable pub append_last {ℓ} : {A : Type ℓ} → List A → List A
append_last [] = []
append_last (x ∷ []) = x ∷ x ∷ []
append_last (x ∷ y ∷ xs) = x ∷ append_last (y ∷ xs)

-- An odd slice is made even by a copy of its last element.
unfoldable pub padded {ℓ} : {A : Type ℓ} → List A → List A
padded xs = if length xs % 2 == 0 then xs else append_last xs

-- The copy's child pointers are cleared after the level is built.
abbrev pub clear : MerkleNode → MerkleNode
clear (node l r d) = node null null d

-- The last parent shares the copied node, so it sees the cleared pointers.
unfoldable pub clear_last : List MerkleNode → List MerkleNode
clear_last [] = []
clear_last (node l null d ∷ []) = node l null d ∷ []
clear_last (node l (ref r) d ∷ []) = node l (ref (clear r)) d ∷ []
clear_last (n ∷ m ∷ ns) = n ∷ clear_last (m ∷ ns)

-- `&MerkleTree{nodes[0], nodes[0].Data}`.
abbrev pub tree_of : Option (List MerkleNode) → Option MerkleTree
tree_of none = none
tree_of (some []) = none
tree_of (some (n ∷ ns)) = some (record { root = n; hash = value n })

pub data ProveError : Type 0 where
  no_tree empty_datum : ProveError

pub data ProveResult : Type 0 where
  fail : ProveError → ProveResult
  -- `none` is the nil slice: the datum was not found.
  proved : Option (List Bytes) → ProveResult

-- The depth-first search for the hash, left before right; `none` is the nil slice.
unfoldable pub get_node_prove : Bytes → List Bytes → MerkleNode → Option (List Bytes)
get_node_prove hash prove (node null null d) = if equal d hash then some (prove ++ d ∷ []) else none
get_node_prove hash prove (node (ref l) null d) =
    if equal d hash then some (prove ++ d ∷ []) else get_node_prove hash [] l
get_node_prove hash prove (node null (ref r) d) =
    if equal d hash then some (prove ++ d ∷ []) else get_node_prove hash [] r
get_node_prove hash prove (node (ref l) (ref r) d) =
    if equal d hash
    then some (prove ++ d ∷ [])
    else elim (get_node_prove hash (prove ++ d ∷ []) l) [
      | some p ↦ some p
      | none ↦ get_node_prove hash (prove ++ d ∷ []) r
    ]

-- `md5.Sum` is a function of Go's library.
module _ (md5 : Bytes → Bytes) where
  abbrev pub parent : MerkleNode → MerkleNode → MerkleNode
  parent l r = node (ref l) (ref r) (md5 (value l ++ value r))

  -- The loop over the pairs.
  unfoldable pub pair_up : List MerkleNode → List MerkleNode
  pair_up [] = []
  pair_up (a ∷ []) = []
  pair_up (a ∷ b ∷ rest) = parent a b ∷ pair_up rest

  -- One level: an odd one is made even by a copy of its last node.
  unfoldable pub next_level : List MerkleNode → List MerkleNode
  next_level nodes =
      if length nodes % 2 == 0 then pair_up nodes else clear_last (pair_up (append_last nodes))

  -- The recursion, with fuel for its depth; `none` means that the fuel ran out.
  unfoldable pub get_merkle_node : ℕ → List MerkleNode → Bool → Option (List MerkleNode)
  get_merkle_node zero nodes is_leaf = none
  get_merkle_node (suc fuel) nodes is_leaf =
      let rest = get_merkle_node fuel (next_level nodes) false in
      if not is_leaf && length nodes == 1 then some nodes else rest

  abbrev pub leaf : Bytes → MerkleNode
  leaf v = node null null (md5 v)

  abbrev pub leaves : List Bytes → List MerkleNode
  leaves xs = map leaf (padded xs)

  -- The depth of the recursion is bounded by `fuel`.
  unfoldable pub get_merkle_root_fuel : ℕ → List Bytes → Option MerkleTree
  get_merkle_root_fuel fuel xs = tree_of (get_merkle_node fuel (leaves xs) true)

  -- The fuel is one more than the leaves.
  unfoldable pub get_merkle_root : List Bytes → Option MerkleTree
  get_merkle_root xs = get_merkle_root_fuel (suc (length (leaves xs))) xs

  unfoldable pub get_prove : Option MerkleTree → Bytes → ProveResult
  get_prove none datum = fail no_tree
  get_prove (some t) [] = fail empty_datum
  get_prove (some t) (b ∷ bs) = proved (get_node_prove (md5 (b ∷ bs)) [] t.root)
