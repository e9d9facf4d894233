-- ===== src/Merkle/Search.antt =====
-- `GetProve` and `GetNodeProve` of MerkleTree/merkel.go: what the search returns is a path of the
-- tree down to the datum's hash, and every datum of the tree is found.
use alg_bc_db.Prelude.{
  ℕ, zero, suc, ◌≡◌, sym, ◌∙◌, subst, true, some, List, [], ◌∷◌, ◌++◌, map, append_assoc, Bytes,
  equal, equal_sound, equal_refl, get_elem?, arith, ◌⊎◌, inl, inr, Bool-cases, Option-cases,
}
use alg_bc_db.Merkle.{
  MerkleNode, node, Pointer, null, ref, MerkleTree, append_last, padded, leaf, proved,
  get_merkle_root, get_node_prove, get_prove,
}
use alg_bc_db.Merkle.Shape.{Descends, here, left, right, Found}
use alg_bc_db.Merkle.Build.{IsHashed, get_merkle_root-Built}

module _ (md5 : Bytes → Bytes) (h : Bytes) where
  -- A result extends the prefix by a path down to `h`.
  abbrev Extends : List Bytes → MerkleNode → List Bytes → Type 0
  Extends pre n p = (q : List Bytes) × (p ≡ pre ++ q) × Descends h n q

  hit-Extends :
      (pre : List Bytes) (l r : Pointer) (d : Bytes) (p : List Bytes)
      → equal d h ≡ true
      → some (pre ++ d ∷ []) ≡ some p
      → Extends pre (node l r d) p
  hit-Extends pre l r d p e k =
      (d ∷ [], cc, subst (λ x. Descends h (node l r x) (x ∷ [])) (sym (equal_sound d h e)) here)

  get_node_prove-Extends :
      (n : MerkleNode) (pre p : List Bytes)
      → IsHashed md5 n
      → get_node_prove h pre n ≡ some p
      → Extends pre n p
  unfolding get_node_prove
  get_node_prove-Extends (node null null d) pre p w k = elim (Bool-cases (equal d h)) [
    | inl e ↦ hit-Extends pre null null d p e (rw e at k)
    | inr e ↦ absurd (ground arith)
  ]
  get_node_prove-Extends (node null (ref r) d) pre p w k = absurd w
  get_node_prove-Extends (node (ref l) null d) pre p w k = absurd w
  get_node_prove-Extends (node (ref l) (ref r) d) pre p w k = elim (Bool-cases (equal d h)) [
    | inl e ↦ hit-Extends pre (ref l) (ref r) d p e (rw e at k)
    | inr e ↦ elim (Option-cases (get_node_prove h (pre ++ d ∷ []) l)) [
      | inl missed ↦
          let (q, e', s) = get_node_prove-Extends r (pre ++ d ∷ []) p w.2 (ground arith) in
          (d ∷ q, e' ∙ append_assoc pre (d ∷ []) q, right s)
      | inr (p', found) ↦
          let same : p ≡ p' = ground arith in
          let (q, e', s) = get_node_prove-Extends l (pre ++ d ∷ []) p' w.1 found in
          (d ∷ q, same ∙ e' ∙ append_assoc pre (d ∷ []) q, left s)
    ]
  ]

  get_node_prove-here :
      (l r : Pointer) (pre : List Bytes) → get_node_prove h pre (node l r h) ≡ some (pre ++ h ∷ [])
  unfolding get_node_prove
  get_node_prove-here null null pre = rw (equal_refl h)
  get_node_prove-here null (ref r) pre = rw (equal_refl h)
  get_node_prove-here (ref l) null pre = rw (equal_refl h)
  get_node_prove-here (ref l) (ref r) pre = rw (equal_refl h)

  abbrev Finds : List Bytes → MerkleNode → Type 0
  Finds pre n = (p : List Bytes) × (get_node_prove h pre n ≡ some p)

  -- A node with two children finds what one of them finds.
  Finds-parent :
      (l r : MerkleNode) (d : Bytes) (pre : List Bytes)
      → Finds (pre ++ d ∷ []) l ⊎ Finds (pre ++ d ∷ []) r
      → Finds pre (node (ref l) (ref r) d)
  unfolding get_node_prove
  Finds-parent l r d pre f = elim (Bool-cases (equal d h)) [
    | inl e ↦ (pre ++ d ∷ [], rw e)
    | inr e ↦ elim (Option-cases (get_node_prove h (pre ++ d ∷ []) l)) [
      | inr (p', found) ↦ (p', rw (e, found))
      | inl missed ↦ elim f [
        | inl (p', found) ↦ absurd (ground arith)
        | inr (p', found) ↦ (p', rw (e, missed, found))
      ]
    ]
  ]

  -- The search finds what is there.
  get_node_prove-Descends :
      {n : MerkleNode} {q : List Bytes}
      → Descends h n q
      → (pre : List Bytes) → IsHashed md5 n
      → Finds pre n
  get_node_prove-Descends (here {l} {r}) pre w = (pre ++ h ∷ [], get_node_prove-here l r pre)
  get_node_prove-Descends (left {r = null} s) pre w = absurd w
  get_node_prove-Descends (left {l} {r = ref r} {d} s) pre w =
      Finds-parent l r d pre (inl (get_node_prove-Descends s (pre ++ d ∷ []) w.1))
  get_node_prove-Descends (right {l = null} s) pre w = absurd w
  get_node_prove-Descends (right {l = ref l} {r} {d} s) pre w =
      Finds-parent l r d pre (inr (get_node_prove-Descends s (pre ++ d ∷ []) w.2))

get_elem?-append_last {ℓ} :
    {A : Type ℓ} (xs : List A) (i : ℕ) {v : A}
    → get_elem? xs i ≡ some v
    → get_elem? (append_last xs) i ≡ some v
unfolding append_last
get_elem?-append_last [] i e = cc
get_elem?-append_last (x ∷ []) zero e = e
get_elem?-append_last (x ∷ []) (suc i) e = cc
get_elem?-append_last (x ∷ y ∷ xs) zero e = e
get_elem?-append_last (x ∷ y ∷ xs) (suc i) e = get_elem?-append_last (y ∷ xs) i e

module _ (md5 : Bytes → Bytes) where
  Found-leaves :
      (xs : List Bytes) (i : ℕ) (v : Bytes)
      → get_elem? xs i ≡ some v
      → Found (md5 v) (map (leaf md5) xs)
  Found-leaves [] i v e = cc
  Found-leaves (x ∷ xs) zero v e =
      inl (md5 v ∷ [], subst (λ u. Descends (md5 v) (leaf md5 u) (md5 v ∷ [])) (ground arith) here)
  Found-leaves (x ∷ xs) (suc i) v e = inr (Found-leaves xs i v e)

  get_elem?-padded :
      (xs : List Bytes) (i : ℕ) {v : Bytes}
      → get_elem? xs i ≡ some v
      → get_elem? (padded xs) i ≡ some v
  unfolding padded
  get_elem?-padded xs i e = ground (arith, get_elem?-append_last xs i e)

  Built-Found :
      (xs : List Bytes) (i : ℕ) (v : Bytes)
      → get_elem? xs i ≡ some v
      → (t : MerkleTree) × (get_merkle_root md5 xs ≡ some t)
        × IsHashed md5 t.root
        × Found (md5 v) (t.root ∷ [])
  Built-Found [] i v e = cc
  Built-Found (x ∷ xs) i v e =
      let (t, made, red, same, w, f) = get_merkle_root-Built md5 x xs in
      (t, made, w, f (md5 v) (Found-leaves (padded (x ∷ xs)) i v (get_elem?-padded (x ∷ xs) i e)))

  Extends-root :
      (v : Bytes) (t : MerkleTree)
      → IsHashed md5 t.root
      → Found (md5 v) (t.root ∷ [])
      → (p : List Bytes) × (get_node_prove (md5 v) [] t.root ≡ some p) × Descends (md5 v) t.root p
  Extends-root v t w (inl (q, s)) =
      let (p, found) = get_node_prove-Descends md5 (md5 v) s [] w in
      let (q', e, d) = get_node_prove-Extends md5 (md5 v) t.root [] p w found in
      (p, found, subst (Descends (md5 v) t.root) (sym e) d)
  Extends-root v t w (inr f) = absurd f

  -- Every non-empty datum of the tree has a proof: `get_prove` returns the data of the nodes on a
  -- way from the root down to a node whose data is the datum's hash.
  pub get_prove-Descends :
      (xs : List Bytes) (i b : ℕ) (bs : Bytes)
      → get_elem? xs i ≡ some (b ∷ bs)
      → (t : MerkleTree) × (p : List Bytes) × (get_merkle_root md5 xs ≡ some t)
        × (get_prove md5 (some t) (b ∷ bs) ≡ proved (some p))
        × Descends (md5 (b ∷ bs)) t.root p
  unfolding get_prove
  get_prove-Descends xs i b bs e =
      let (t, made, w, f) = Built-Found xs i (b ∷ bs) e in
      let (p, found, d) = Extends-root (b ∷ bs) t w f in (t, p, made, rw found, d)

  -- Whatever `get_prove` returns as a proof over a tree that hashes its children, for any datum, is
  -- a way from the root down to the datum's hash; so a datum whose hash is not in the tree has none.
  pub get_prove_sound :
      (t : MerkleTree) (v : Bytes) (p : List Bytes)
      → IsHashed md5 t.root
      → get_prove md5 (some t) v ≡ proved (some p)
      → Descends (md5 v) t.root p
  unfolding get_prove
  get_prove_sound t [] p w e = cc
  get_prove_sound t (b ∷ bs) p w e =
      let (q, e', d) = get_node_prove-Extends md5 (md5 (b ∷ bs)) t.root [] p w (ground arith) in
      subst (Descends (md5 (b ∷ bs)) t.root) (sym e') d
