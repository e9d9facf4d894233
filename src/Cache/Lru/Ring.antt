-- ===== src/Cache/Lru/Ring.antt =====
-- `toTail` of cache/cache_lru.go, twice on the node that waited longest.
use alg_bc_db.Prelude.{
  ℕ, zero, suc, ◌≡◌, ◌≢◌, ◌⊎◌, refl, sym, ap, ◌∙◌, subst, false, Option, some, List, [], ◌∷◌, Bytes,
  lookup, ◌==◌, arith, Bool-cases, inl, inr,
}
use alg_bc_db.Cache.Lru.{
  Heap, LruQueue, ◌>>=◌, set_next, set_pre, same_pointer, link_tail, move_to_tail, to_tail,
}
use alg_bc_db.Cache.Lru.Segments.{NotIn, Distinct, last_of, last_of-ne, Segment, Segment-last}
use alg_bc_db.Cache.Lru.Valid.{IsValid, Among, Among-All}

-- `n` steps forward.
abbrev pub walk_forward : {V : Type 0} → Heap V → ℕ → ℕ → Option ℕ
walk_forward h zero a = some a
walk_forward h (suc n) a = h.next a >>= walk_forward h n

-- Of the nodes of a segment, each but the last leads to a later one.
Segment-next :
    {V : Type 0} (h : Heap V) (a z b : ℕ) (zs : List ℕ)
    → Segment h z zs b
    → Among a (z ∷ zs)
    → (a ≡ last_of z zs) ⊎ ((c : ℕ) × (h.next a ≡ some c) × Among c zs)
Segment-next h a z b [] s (inl e) = inl e
Segment-next h a z b [] s (inr m) = absurd m
Segment-next h a z b (y ∷ ys) s (inl e) = inr (y, ap h.next e ∙ s.0.0, inl refl)
Segment-next h a z b (y ∷ ys) s (inr m) = elim (Segment-next h a y b ys s.1 m) [
  | inl e ↦ inl e
  | inr (c, e, m') ↦ inr (c, e, inr m')
]

some-eq : {a b : ℕ} → some a ≡ some b → a ≡ b
some-eq h = cc

not_Among : (tail : ℕ) (xs : List ℕ) → NotIn tail xs → Among tail xs → ⊥
not_Among tail xs n m = Among-All (λ c. tail ≢ c) tail xs m n refl

module _ {V : Type 0} where
  -- `toTail` of `p`, between `before` and `after`, where the tail leads back to `q` and `q` to `r`.
  abbrev pub moved : Heap V → ℕ → ℕ → ℕ → ℕ → ℕ → Heap V
  moved h p before after q r = set_next q (some p) (
      set_pre p (some q) (
        set_pre r (some p)
          (set_next p (some r) (set_next p (some before) (set_next before (some after) h)))))

  move_to_tail-moved :
      (h : Heap V) (tail p before after q r : ℕ)
      → h.pre p ≡ some before
      → h.next p ≡ some after
      → h.pre tail ≡ some q
      → (set_next p (some before) (set_next before (some after) h)).next q ≡ some r
      → p ≢ q
      → move_to_tail tail p h ≡ some (moved h p before after q r)
  unfolding move_to_tail link_tail
  move_to_tail-moved h tail p before after q r e1 e2 e3 e4 ne =
      let apart : (p == q) ≡ false = ground arith in rw (e1, e2, e3, e4, apart) refl

  -- The first node of a queue, and then the one that was second.
  abbrev pub first_moved : Heap V → ℕ → ℕ → ℕ → ℕ → ℕ → Heap V
  first_moved h head tail x y last = moved h x head y last tail

  abbrev pub ring_heap : Heap V → ℕ → ℕ → ℕ → ℕ → ℕ → ℕ → Heap V
  ring_heap h head tail x y z last = moved (first_moved h head tail x y last) y x z x z

  -- Inside the ring, and from the head into it, every step forward stays in the ring.
  ring_heap-next :
      (h : Heap V) (head tail x y z : ℕ) (zs : List ℕ) (a : ℕ)
      → Segment h head (x ∷ y ∷ z ∷ zs) tail
      → Distinct (head ∷ x ∷ y ∷ z ∷ zs)
      → Among a (head ∷ x ∷ y ∷ z ∷ zs)
      → (b : ℕ) × ((ring_heap h head tail x y z (last_of z zs)).next a ≡ some b)
        × Among b (head ∷ x ∷ y ∷ z ∷ zs)
  ring_heap-next h head tail x y z zs a s d (inl e) =
      let n1 = d.0.0 in
      let n2 = d.0.1.0 in
      let n3 = last_of-ne head z zs d.0.1.1 in (y, ground arith, inr (inr (inl refl)))
  ring_heap-next h head tail x y z zs a s d (inr (inl e)) = (y, ground arith, inr (inr (inl refl)))
  ring_heap-next h head tail x y z zs a s d (inr (inr (inl e))) =
      let n1 = d.1.0.0 in (z, ground arith, inr (inr (inr (inl refl))))
  ring_heap-next h head tail x y z zs a s d (inr (inr (inr m))) =
      let n0 : head ≢ a = Among-All (λ c. head ≢ c) a (z ∷ zs) m d.0.1.1 in
      let n1 : x ≢ a = Among-All (λ c. x ≢ c) a (z ∷ zs) m d.1.0.1 in
      let n2 : y ≢ a = Among-All (λ c. y ≢ c) a (z ∷ zs) m d.1.1.0 in
      elim (Bool-cases (last_of z zs == a)) [
        | inl e ↦ (x, ground arith, inr (inl refl))
        | inr e ↦ elim (Segment-next h a z tail zs s.1.1.1 m) [
          | inl same ↦ absurd (ground arith)
          | inr (c, k, m') ↦ (c, ground arith, inr (inr (inr (inr m'))))
        ]
      ]

  ring_heap-walk :
      (h : Heap V) (head tail x y z : ℕ) (zs : List ℕ) (n a b : ℕ)
      → Segment h head (x ∷ y ∷ z ∷ zs) tail
      → Distinct (head ∷ x ∷ y ∷ z ∷ zs)
      → Among a (head ∷ x ∷ y ∷ z ∷ zs)
      → walk_forward (ring_heap h head tail x y z (last_of z zs)) n a ≡ some b
      → Among b (head ∷ x ∷ y ∷ z ∷ zs)
  ring_heap-walk h head tail x y z zs zero a b s d m e =
      subst (λ c. Among c (head ∷ x ∷ y ∷ z ∷ zs)) (some-eq e) m
  ring_heap-walk h head tail x y z zs (suc n) a b s d m e =
      let (c, k, m') = ring_heap-next h head tail x y z zs a s d m in
      ring_heap-walk h head tail x y z zs n c b s d m'
        (ap (λ o. o >>= walk_forward (ring_heap h head tail x y z (last_of z zs)) n) (sym k) ∙ e)

  module _ (key : V → Bytes) where
    -- In a queue in order of three nodes or more, `toTail` of the first and then of the second does
    -- not fault, but leaves the links in a ring: the walk forward from the head never comes to the
    -- tail, however long it goes on.
    pub to_tail_twice-Ring :
        (l : LruQueue V) (x y z : ℕ) (zs : List ℕ) (first second : Bytes)
        → IsValid key l (x ∷ y ∷ z ∷ zs)
        → lookup first l.node_map ≡ some x
        → lookup second l.node_map ≡ some y
        → (l1 l2 : LruQueue V) × (to_tail l first ≡ some l1)
          × (to_tail l1 second ≡ some l2)
          × ((n : ℕ) → walk_forward l2.heap n l2.head ≢ some l2.tail)
    unfolding to_tail
    to_tail_twice-Ring l x y z zs first second w e1 e2 =
        let h = l.heap in
        let last = last_of z zs in
        let d = w.distinct in
        let hx = d.0.0 in
        let hy = d.0.1.0 in
        let hl = last_of-ne l.head z zs d.0.1.1 in
        let xy = d.1.0.0 in
        let xl = last_of-ne x z zs d.1.0.1 in
        let yl = last_of-ne y z zs d.1.1.0 in
        let tx = w.tail_apart.1.0 in
        let ty = w.tail_apart.1.1.0 in
        let end = Segment-last h l.head l.tail (x ∷ y ∷ z ∷ zs) w.links in
        let l1 : LruQueue V = record l { heap = first_moved h l.head l.tail x y last } in
        let l2 : LruQueue V = record l { heap = ring_heap h l.head l.tail x y z last } in
        let m1 =
          move_to_tail-moved h l.tail x l.head y last l.tail w.links.0.1 w.links.1.0.0 end.1
            (ground arith) xl in
        let m2 =
          move_to_tail-moved l1.heap l.tail y x z x z (ground arith) (ground arith) (ground arith)
            (ground arith) (λ e. xy (sym e)) in
        let apart : (last == x) ≡ false = ground arith in
        let apart2 : same_pointer (l1.heap.pre l.tail) y ≡ false = ground arith in
        (
          l1,
          l2,
          rw (e1, end.1, apart, m1) refl,
          rw (e2, apart2, m2) refl,
          λ n e.
              not_Among l.tail (l.head ∷ x ∷ y ∷ z ∷ zs) w.tail_apart
                (ring_heap-walk h l.head l.tail x y z zs n l.head l.tail w.links d (inl refl) e),
        )
