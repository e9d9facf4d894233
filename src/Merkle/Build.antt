-- ===== src/Merkle/Build.antt =====
-- The construction of MerkleTree/merkel.go: it ends, its root depends on the leaf hashes alone, and
-- every parent hashes its children.
use alg_bc_db.Prelude.{
  ℕ, zero, suc, ◌<◌, ◌≡◌, refl, ap, Bool, true, false, Option, none, some, some, List, [], ◌∷◌,
  ◌++◌, map, Bytes, length, arith, All, ◌==◌, ◌%◌, Bool-cases, inl, inr,
}
use alg_bc_db.Merkle.{
  MerkleNode, node, null, ref, value, MerkleTree, append_last, padded, parent, pair_up, next_level,
  get_merkle_node, leaf, tree_of, get_merkle_root_fuel, get_merkle_root,
}
use alg_bc_db.Merkle.Shape.{
  level_nodes, next_level-level_nodes, length-level_nodes, level, value-level_nodes, Found,
  level_nodes-Found,
}

module _ (md5 : Bytes → Bytes) where
  -- One hash that the levels of hashes above `hs` reduce to.
  pub data Reduces : List Bytes → Bytes → Type 0 where
    done : {h : Bytes} → Reduces (h ∷ []) h
    above :
        {a b h : Bytes} {hs : List Bytes}
        → Reduces (level md5 (a ∷ b ∷ hs)) h
        → Reduces (a ∷ b ∷ hs) h

  -- Every parent's data is the hash of its children's, and a node has two children or none.
  abbrev pub IsHashed : MerkleNode → Type 0
  IsHashed (node null null d) = Unit
  IsHashed (node (ref l) (ref r) d) = (d ≡ md5 (value l ++ value r)) × IsHashed l × IsHashed r
  IsHashed (node null (ref r) d) = ⊥
  IsHashed (node (ref l) null d) = ⊥

  level_nodes-IsHashed :
      (xs : List MerkleNode) → All IsHashed xs → All IsHashed (level_nodes md5 xs)
  unfolding level_nodes
  level_nodes-IsHashed [] h = tt
  level_nodes-IsHashed (node l r d ∷ []) h = ((refl, h.0, tt), tt)
  level_nodes-IsHashed (a ∷ b ∷ rest) h = ((refl, h.0, h.1.0), level_nodes-IsHashed rest h.1.1)

  -- What the recursion returns: one root, over the nodes that it was given.
  abbrev Rooted : List MerkleNode → Option (List MerkleNode) → Type 0
  Rooted xs r =
      (n : MerkleNode) × (r ≡ some (n ∷ []))
      × Reduces (map value xs) (value n)
      × IsHashed n
      × ((h : Bytes) → Found h xs → Found h (n ∷ []))

  -- Two nodes or more, or leaves, are reduced by a level.
  get_merkle_node-level_nodes :
      (fuel : ℕ) (x y : MerkleNode) (ys : List MerkleNode) (b : Bool)
      → get_merkle_node md5 (suc fuel) (x ∷ y ∷ ys) b
        ≡ get_merkle_node md5 fuel (level_nodes md5 (x ∷ y ∷ ys)) false
  unfolding get_merkle_node
  get_merkle_node-level_nodes fuel x y ys b =
      ground (arith, next_level-level_nodes md5 (x ∷ y ∷ ys))

  Rooted-level_nodes :
      (x y : MerkleNode) (ys : List MerkleNode) (r : Option (List MerkleNode))
      → Rooted (level_nodes md5 (x ∷ y ∷ ys)) r
      → Rooted (x ∷ y ∷ ys) r
  Rooted-level_nodes x y ys r h = (
    h.0,
    h.1,
    above (rw (value-level_nodes md5 (x ∷ y ∷ ys)) at h.2),
    h.3,
    λ k f. h.4 k (level_nodes-Found md5 k (x ∷ y ∷ ys) f),
  )

  -- Enough fuel gives the root.
  get_merkle_node-Rooted :
      (fuel : ℕ) (x : MerkleNode) (xs : List MerkleNode)
      → length xs < fuel
      → All IsHashed (x ∷ xs)
      → Rooted (x ∷ xs) (get_merkle_node md5 fuel (x ∷ xs) false)
  unfolding get_merkle_node level_nodes
  get_merkle_node-Rooted zero x xs h w = absurd (omega arith)
  get_merkle_node-Rooted (suc fuel) x [] h w = (x, refl, done, w.0, λ h f. f)
  get_merkle_node-Rooted (suc fuel) x (y ∷ ys) h w =
      rw (get_merkle_node-level_nodes fuel x y ys false) (
        Rooted-level_nodes x y ys _ (
          get_merkle_node-Rooted fuel (parent md5 x y) (level_nodes md5 ys)
            (omega (arith, length-level_nodes md5 ys)) (level_nodes-IsHashed (x ∷ y ∷ ys) w)))

append_last-cons {ℓ} :
    {A : Type ℓ} (x : A) (xs : List A)
    → (y : A) × (ys : List A) × (append_last (x ∷ xs) ≡ x ∷ y ∷ ys)
unfolding append_last
append_last-cons x [] = (x, [], refl)
append_last-cons x (y ∷ []) = (y, y ∷ [], refl)
append_last-cons x (y ∷ z ∷ zs) = (y, append_last (z ∷ zs), refl)

padded-cons {ℓ} :
    {A : Type ℓ} (x : A) (xs : List A) → (y : A) × (ys : List A) × (padded (x ∷ xs) ≡ x ∷ y ∷ ys)
unfolding padded
padded-cons x [] = append_last-cons x []
padded-cons x (y ∷ ys) = elim (Bool-cases (length (x ∷ y ∷ ys) % 2 == 0)) [
  | inl even ↦ (y, ys, rw (even, padded))
  | inr odd ↦ let (z, zs, e) = append_last-cons x (y ∷ ys) in (z, zs, rw (odd, padded) e)
]

module _ (md5 : Bytes → Bytes) where
  leaves-IsHashed : (xs : List Bytes) → All (IsHashed md5) (map (leaf md5) xs)
  leaves-IsHashed [] = tt
  leaves-IsHashed (x ∷ xs) = (tt, leaves-IsHashed xs)

  value-leaves : (xs : List Bytes) → map value (map (leaf md5) xs) ≡ map md5 xs
  value-leaves [] = refl
  value-leaves (x ∷ xs) = ap (◌∷◌ (md5 x)) (value-leaves xs)

  tree_of-Rooted :
      (xs : List MerkleNode) (r : Option (List MerkleNode))
      → Rooted md5 xs r
      → (t : MerkleTree) × (tree_of r ≡ some t)
        × Reduces md5 (map value xs) t.hash
        × (value t.root ≡ t.hash)
        × IsHashed md5 t.root
        × ((h : Bytes) → Found h xs → Found h (t.root ∷ []))
  tree_of-Rooted xs r (n, e, red, w, f) =
      (record { root = n; hash = value n }, rw e, red, refl, w, f)

  leaves-Rooted :
      (y z : MerkleNode) (zs : List MerkleNode)
      → All (IsHashed md5) (y ∷ z ∷ zs)
      → Rooted md5
          (y ∷ z ∷ zs)
          (get_merkle_node md5 (suc (suc (suc (length zs)))) (y ∷ z ∷ zs) true)
  unfolding level_nodes
  leaves-Rooted y z zs w =
      rw (get_merkle_node-level_nodes md5 (suc (suc (length zs))) y z zs true) (
        Rooted-level_nodes md5 y z zs _ (
          get_merkle_node-Rooted md5 (suc (suc (length zs))) (parent md5 y z) (level_nodes md5 zs)
            (omega (arith, length-level_nodes md5 zs)) (level_nodes-IsHashed md5 (y ∷ z ∷ zs) w)))

  abbrev pub Built : List Bytes → Type 0
  Built xs =
      (t : MerkleTree) × (get_merkle_root md5 xs ≡ some t)
      × Reduces md5 (map md5 (padded xs)) t.hash
      × (value t.root ≡ t.hash)
      × IsHashed md5 t.root
      × ((h : Bytes) → Found h (map (leaf md5) (padded xs)) → Found h (t.root ∷ []))

  pub get_merkle_root-Built : (x : Bytes) (xs : List Bytes) → Built (x ∷ xs)
  unfolding get_merkle_root get_merkle_root_fuel
  get_merkle_root-Built x xs =
      let (y, ys, e) = padded-cons x xs in
      let (t, made, red, same, w, f) = tree_of-Rooted (map (leaf md5) (x ∷ y ∷ ys)) _ (
        leaves-Rooted (leaf md5 x) (leaf md5 y) (map (leaf md5) ys)
          (leaves-IsHashed (x ∷ y ∷ ys))) in
      (
        t,
        rw (e, get_merkle_root_fuel) made,
        rw (e, ← value-leaves (x ∷ y ∷ ys)) red,
        same,
        w,
        λ h g. f h (rw e at g),
      )

  -- For one datum or more the construction ends: it returns a tree whose hash is what the
  -- hashes of the padded data reduce to, level by level, and whose parents hash their children.
  pub get_merkle_root-Reduces :
      (x : Bytes) (xs : List Bytes)
      → (t : MerkleTree) × (get_merkle_root md5 (x ∷ xs) ≡ some t)
        × Reduces md5 (map md5 (padded (x ∷ xs))) t.hash
        × (value t.root ≡ t.hash)
        × IsHashed md5 t.root
  get_merkle_root-Reduces x xs =
      let (t, made, red, same, w, _) = get_merkle_root-Built x xs in (t, made, red, same, w)

  get_merkle_node-nil : (fuel : ℕ) (b : Bool) → get_merkle_node md5 fuel [] b ≡ none
  unfolding get_merkle_node next_level pair_up
  get_merkle_node-nil zero b = refl
  get_merkle_node-nil (suc fuel) true = get_merkle_node-nil fuel false
  get_merkle_node-nil (suc fuel) false = get_merkle_node-nil fuel false

  -- With no data the recursion does not end, whatever its depth.
  pub get_merkle_root_fuel-nil : (fuel : ℕ) → get_merkle_root_fuel md5 fuel [] ≡ none
  unfolding get_merkle_root_fuel padded
  get_merkle_root_fuel-nil fuel = rw (get_merkle_node-nil fuel true)

  pub get_merkle_root-nil : get_merkle_root md5 [] ≡ none
  unfolding get_merkle_root padded
  get_merkle_root-nil = get_merkle_root_fuel-nil 1

  -- What the construction comes to on the data.
  abbrev pub RootOf : List Bytes → Type 0
  RootOf [] = (fuel : ℕ) → get_merkle_root_fuel md5 fuel [] ≡ none
  RootOf (x ∷ xs) =
      (t : MerkleTree) × (get_merkle_root md5 (x ∷ xs) ≡ some t)
      × Reduces md5 (map md5 (padded (x ∷ xs))) t.hash
      × (value t.root ≡ t.hash)
      × IsHashed md5 t.root

  -- `GetMerkleRoot` on any data. For one datum or more it returns a tree whose hash is what the hashes of
  -- the padded data reduce to, level by level, and whose parents hash their children. With no data
  -- its recursion does not end, whatever its depth.
  pub get_merkle_root-RootOf : (xs : List Bytes) → RootOf xs
  get_merkle_root-RootOf [] = get_merkle_root_fuel-nil
  get_merkle_root-RootOf (x ∷ xs) = get_merkle_root-Reduces x xs
