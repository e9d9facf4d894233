-- ===== src/Merkle/Shape.antt =====
-- The shape of one level of MerkleTree/merkel.go, in a form without parity tests.
use alg_bc_db.Prelude.{
  ◌+◌, ◌/◌, ◌%◌, ◌≡◌, refl, ap, List, [], ◌∷◌, ◌++◌, map, Bytes, length, arith, ◌⊎◌, inl, inr,
}
use alg_bc_db.Merkle.{
  MerkleNode, node, Pointer, ref, value, append_last, clear, clear_last, parent, pair_up,
  next_level,
}

module _ (md5 : Bytes → Bytes) where
  unfoldable pub level_nodes : List MerkleNode → List MerkleNode
  level_nodes [] = []
  level_nodes (a ∷ []) = node (ref a) (ref (clear a)) (md5 (value a ++ value a)) ∷ []
  level_nodes (a ∷ b ∷ rest) = parent md5 a b ∷ level_nodes rest

  pair_up-level_nodes : (xs : List MerkleNode) → length xs % 2 ≡ 0 → pair_up md5 xs ≡ level_nodes xs
  unfolding level_nodes pair_up
  pair_up-level_nodes [] h = refl
  pair_up-level_nodes (a ∷ []) h = absurd (omega arith)
  pair_up-level_nodes (a ∷ b ∷ rest) h =
      ap (◌∷◌ (parent md5 a b)) (pair_up-level_nodes rest (omega arith))

  clear_last-level_nodes :
      (xs : List MerkleNode)
      → length xs % 2 ≡ 1
      → clear_last (pair_up md5 (append_last xs)) ≡ level_nodes xs
  unfolding level_nodes pair_up clear_last append_last
  clear_last-level_nodes [] h = refl
  clear_last-level_nodes (a ∷ []) h = refl
  clear_last-level_nodes (a ∷ b ∷ []) h = absurd (omega arith)
  clear_last-level_nodes (a ∷ b ∷ c ∷ []) h = refl
  clear_last-level_nodes (a ∷ b ∷ c ∷ d ∷ []) h = absurd (omega arith)
  clear_last-level_nodes (a ∷ b ∷ c ∷ d ∷ e ∷ rest) h =
      ap (◌∷◌ (parent md5 a b)) (clear_last-level_nodes (c ∷ d ∷ e ∷ rest) (omega arith))

  pub next_level-level_nodes : (xs : List MerkleNode) → next_level md5 xs ≡ level_nodes xs
  unfolding next_level
  next_level-level_nodes xs = ground (arith, pair_up-level_nodes xs, clear_last-level_nodes xs)

  pub length-level_nodes : (xs : List MerkleNode) → length (level_nodes xs) ≡ (length xs + 1) / 2
  unfolding level_nodes
  length-level_nodes [] = refl
  length-level_nodes (a ∷ []) = refl
  length-level_nodes (a ∷ b ∷ rest) = omega (arith, length-level_nodes rest)

  -- The hashes of one level, computed from the hashes of the level below alone.
  unfoldable pub level : List Bytes → List Bytes
  level [] = []
  level (a ∷ []) = md5 (a ++ a) ∷ []
  level (a ∷ b ∷ rest) = md5 (a ++ b) ∷ level rest

  pub value-level_nodes : (xs : List MerkleNode) → map value (level_nodes xs) ≡ level (map value xs)
  unfolding level level_nodes
  value-level_nodes [] = refl
  value-level_nodes (a ∷ []) = refl
  value-level_nodes (a ∷ b ∷ rest) = ap (◌∷◌ (md5 (value a ++ value b))) (value-level_nodes rest)

-- The data on the way from a node down to a node whose data is `h`.
pub data Descends (h : Bytes) : MerkleNode → List Bytes → Type 0 where
  here : {l r : Pointer} → Descends h (node l r h) (h ∷ [])
  left :
      {l : MerkleNode} {r : Pointer} {d : Bytes} {p : List Bytes}
      → Descends h l p
      → Descends h (node (ref l) r d) (d ∷ p)
  right :
      {l : Pointer} {r : MerkleNode} {d : Bytes} {p : List Bytes}
      → Descends h r p
      → Descends h (node l (ref r) d) (d ∷ p)

-- Some node of the list leads down to `h`.
abbrev pub Found : Bytes → List MerkleNode → Type 0
Found h [] = ⊥
Found h (n ∷ ns) = ((p : List Bytes) × Descends h n p) ⊎ Found h ns

module _ (md5 : Bytes → Bytes) where
  -- A level loses nothing.
  pub level_nodes-Found :
      (h : Bytes) (xs : List MerkleNode) → Found h xs → Found h (level_nodes md5 xs)
  unfolding level_nodes
  level_nodes-Found h [] f = f
  level_nodes-Found h (a ∷ []) (inl (p, d)) = inl (_, left d)
  level_nodes-Found h (a ∷ []) (inr f) = absurd f
  level_nodes-Found h (a ∷ b ∷ rest) (inl (p, d)) = inl (_, left d)
  level_nodes-Found h (a ∷ b ∷ rest) (inr (inl (p, d))) = inl (_, right d)
  level_nodes-Found h (a ∷ b ∷ rest) (inr (inr f)) = inr (level_nodes-Found h rest f)
