-- ===== src/Cache/Lru/Segments.antt =====
-- Doubly linked segments on the heap of cache/cache_lru.go.
use alg_bc_db.Prelude.{ℕ, ◌≡◌, ◌≢◌, refl, ◌∙◌, some, List, [], ◌∷◌, ◌++◌, All, false, ◌==◌, arith}
use alg_bc_db.Cache.Lru.{Heap, set_next, set_pre, unlink_node, link_tail}

abbrev pub NotIn : ℕ → List ℕ → Type 0
NotIn a = All (λ x. a ≢ x)

abbrev pub Distinct : List ℕ → Type 0
Distinct [] = Unit {0}
Distinct (x ∷ xs) = NotIn x xs × Distinct xs

-- The last of `a` and the nodes after it.
abbrev pub last_of : ℕ → List ℕ → ℕ
last_of a [] = a
last_of a (x ∷ xs) = last_of x xs

pub last_of-ne : (a x : ℕ) (xs : List ℕ) → NotIn a (x ∷ xs) → a ≢ last_of x xs
last_of-ne a x [] n = n.0
last_of-ne a x (y ∷ ys) n = last_of-ne a y ys n.1

-- Where a segment goes first.
abbrev pub first_of : List ℕ → ℕ → ℕ
first_of [] b = b
first_of (x ∷ xs) b = x

module _ {V : Type 0} where
  abbrev pub Linked : Heap V → ℕ → ℕ → Type 0
  Linked h a b = (h.next a ≡ some b) × (h.pre b ≡ some a)

  -- From `a` the nodes `xs` lead to `b`, and back.
  abbrev pub Segment : Heap V → ℕ → List ℕ → ℕ → Type 0
  Segment h a [] b = Linked h a b
  Segment h a (x ∷ xs) b = Linked h a x × Segment h x xs b

  pub Segment-last :
      (h : Heap V) (a b : ℕ) (xs : List ℕ) → Segment h a xs b → Linked h (last_of a xs) b
  Segment-last h a b [] s = s
  Segment-last h a b (x ∷ xs) s = Segment-last h x b xs s.1

  -- A heap with the same links at the nodes has the same segment.
  pub Segment-mono :
      (h h' : Heap V) (a b : ℕ) (xs : List ℕ)
      → All (λ x. h'.next x ≡ h.next x) (a ∷ xs)
      → All (λ x. h'.pre x ≡ h.pre x) xs
      → h'.pre b ≡ h.pre b
      → Segment h a xs b
      → Segment h' a xs b
  Segment-mono h h' a b [] n p e s = (n.0 ∙ s.0, e ∙ s.1)
  Segment-mono h h' a b (x ∷ xs) n p e s =
      ((n.0 ∙ s.0.0, p.0 ∙ s.0.1), Segment-mono h h' x b xs n.1 p.1 e s.1)

  -- The four writes put a node `p` before the end `b`, after the node `last`.
  abbrev pub linked_heap : Heap V → ℕ → ℕ → ℕ → Heap V
  linked_heap h b p last =
      set_next last (some p) (set_pre p (some last) (set_pre b (some p) (set_next p (some b) h)))

  pub link_tail-linked_heap :
      (h : Heap V) (b p last : ℕ)
      → p ≢ last
      → Linked h last b
      → link_tail b p h ≡ some (linked_heap h b p last)
  unfolding link_tail
  link_tail-linked_heap h b p last ne (n, r) =
      let apart : (p == last) ≡ false = ground arith in rw (r, n, apart) refl

  pub Segment-append :
      (h : Heap V) (a b p : ℕ) (xs : List ℕ)
      → Segment h a xs b
      → Distinct (a ∷ xs)
      → NotIn p (a ∷ xs)
      → NotIn b (a ∷ xs)
      → p ≢ b
      → Segment (linked_heap h b p (last_of a xs)) a (xs ++ p ∷ []) b
  Segment-append h a b p [] s d np nb ne =
      ((ground arith, ground arith), (ground arith, ground arith))
  Segment-append h a b p (x ∷ xs) s d np nb ne =
      let far : a ≢ last_of x xs = last_of-ne a x xs d.0 in
      let link : Linked (linked_heap h b p (last_of x xs)) a x = (ground arith, ground arith) in
      (link, Segment-append h x b p xs s.1 d.1 np.1 nb.1 ne)

  -- The two writes take the first node out.
  abbrev pub unlinked_heap : Heap V → ℕ → ℕ → Heap V
  unlinked_heap h a b = set_next a (some b) (set_pre b (some a) h)

  pub unlink_node-first :
      (h : Heap V) (a x y : ℕ)
      → x ≢ y
      → Linked h a x
      → Linked h x y
      → unlink_node x h ≡ some (unlinked_heap h a y)
  unfolding unlink_node
  unlink_node-first h a x y ne (n1, r1) (n2, r2) =
      let apart : (y == x) ≡ false = ground arith in rw (n2, apart, r1) refl

  pub Segment-first :
      (h : Heap V) (a b : ℕ) (xs : List ℕ) → Segment h a xs b → Linked h a (first_of xs b)
  Segment-first h a b [] s = s
  Segment-first h a b (x ∷ xs) s = s.0

  ne-All-next :
      (h : Heap V) (a y : ℕ) (xs : List ℕ)
      → NotIn a xs
      → All (λ x. (unlinked_heap h a y).next x ≡ h.next x) xs
  ne-All-next h a y [] n = tt
  ne-All-next h a y (x ∷ xs) n = (ground arith, ne-All-next h a y xs n.1)

  ne-All-pre :
      (h : Heap V) (a y : ℕ) (xs : List ℕ)
      → NotIn y xs
      → All (λ x. (unlinked_heap h a y).pre x ≡ h.pre x) xs
  ne-All-pre h a y [] n = tt
  ne-All-pre h a y (x ∷ xs) n = (ground arith, ne-All-pre h a y xs n.1)

  pub Segment-unlinked :
      (h : Heap V) (a b x : ℕ) (xs : List ℕ)
      → Segment h a (x ∷ xs) b
      → Distinct (a ∷ x ∷ xs)
      → NotIn b (a ∷ x ∷ xs)
      → Segment (unlinked_heap h a (first_of xs b)) a xs b
  Segment-unlinked h a b x [] s d nb = (ground arith, ground arith)
  Segment-unlinked h a b x (y ∷ ys) s d nb = (
    (ground arith, ground arith),
    Segment-mono h (unlinked_heap h a y) y b ys (ne-All-next h a y (y ∷ ys) d.0.1)
        (ne-All-pre h a y ys d.1.1.0) (ground arith) s.1.1,
  )
