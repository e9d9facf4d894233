-- ===== src/Cache/Lru/Queue.antt =====
-- `queueIn` of cache/cache_lru.go on a queue in order, for both queues.
use mathlib.Core.Option.{none-ne-some}
use alg_bc_db.Prelude.{
  ℕ, suc, ◌≤◌, ◌<◌, ◌≡◌, ◌≢◌, refl, sym, ap, ◌∙◌, subst, true, false, none, some, List, [], ◌∷◌,
  ◌++◌, Bytes, equal, equal_iff, equal_sound, lookup, insert, delete, lookup-insert,
  lookup-insert_self, lookup-delete, length, length-append, ltb, if◌then◌else◌, arith, Bool-cases,
  inl, inr,
}
use alg_bc_db.Prelude.Int.{pos, ltb_ℤ, ◌+ℤ◌, ◌-ℤ◌, +ℤ-one, -ℤ-one}
use alg_bc_db.Cache.Lru.{Heap, LruQueue, new_node, evict, make_room, link_tail, queue_node, enqueue}
use alg_bc_db.Cache.Lru.Segments.{
  NotIn, last_of, last_of-ne, first_of, Segment, Segment-last, Segment-first, Segment-mono,
  Segment-append, Segment-unlinked, linked_heap, unlinked_heap, link_tail-linked_heap,
  unlink_node-first,
}
use alg_bc_db.Cache.Lru.Valid.{
  Among, Among-append_left, Among-append_self, Among-All, All-imp, All-snoc, Distinct-snoc, IsValid,
  kept, HasRoom,
}

module _ {V : Type 0} (key : V → Bytes) where
  enqueue-mapped :
      (l : LruQueue V) (ys : List ℕ) (p : ℕ) (v : V) (id : Bytes)
      → HasRoom key l ys p v
      → key v ≡ id
      → (id' : Bytes) (a : ℕ) → lookup id' (insert id p l.node_map) ≡ some a
      → Among a (ys ++ p ∷ []) × (key (l.heap.value a) ≡ id')
  enqueue-mapped l ys p v id r k id' a h = elim (Bool-cases (equal id id')) [
    | inl e ↦
        let same : some p ≡ some a =
          ap (λ b. if b then some p else lookup id' l.node_map) (sym e)
          ∙ sym (lookup-insert id id' p l.node_map)
          ∙ h in
        let p_is : p ≡ a = cc in
        subst (λ x. Among x (ys ++ p ∷ []) × (key (l.heap.value x) ≡ id')) p_is
          (Among-append_self p ys, ap key r.held ∙ k ∙ equal_sound id id' e)
    | inr e ↦
        let (m, k') = r.mapped id' a (
          ap (λ b. if b then some p else lookup id' l.node_map) (sym e)
          ∙ sym (lookup-insert id id' p l.node_map)
          ∙ h) in
        (Among-append_left a ys (p ∷ []) m, k')
  ]

  enqueue-IsValid :
      (l : LruQueue V) (ys : List ℕ) (p : ℕ) (v : V) (id : Bytes)
      → HasRoom key l ys p v
      → key v ≡ id
      → (h : Heap V) × (link_tail l.tail p l.heap ≡ some h)
        × IsValid key (enqueue id p l h) (ys ++ p ∷ [])
        × (h.value p ≡ v)
  enqueue-IsValid l ys p v id r k =
      let apart : NotIn p (l.head ∷ ys) =
        All-imp (l.head ∷ ys) (λ x lt e. absurd (omega arith)) r.below in
      let last = last_of l.head ys in
      let p_ne : p ≢ last = last_of-ne p l.head ys apart in
      let h = linked_heap l.heap l.tail p last in
      (
        h,
        link_tail-linked_heap l.heap l.tail p last p_ne
            (Segment-last l.heap l.head l.tail ys r.links),
        record {
          links =
              Segment-append l.heap l.head l.tail p ys r.links r.distinct apart r.tail_apart
                (λ e. let lt = r.tail_below in absurd (omega arith));
          distinct = Distinct-snoc (l.head ∷ ys) p r.distinct apart;
          tail_apart =
              All-snoc (λ z. l.tail ≢ z) (l.head ∷ ys) p r.tail_apart
                (λ e. let lt = r.tail_below in absurd (omega arith));
          below =
              All-snoc (λ z. z < l.heap.fresh) (l.head ∷ ys) p
                (All-imp (l.head ∷ ys) (λ x lt. let e = r.next_fresh in omega arith) r.below)
                (let e = r.next_fresh in omega arith);
          tail_below = let lt = r.tail_below in let e = r.next_fresh in omega arith;
          size =
              ap (λ s. s +ℤ pos 1) r.size
              ∙ +ℤ-one (length ys)
              ∙ ap pos (sym (length-append ys (p ∷ [])));
          bounded = let le = r.room in omega (arith, length-append ys (p ∷ []));
          mapped = enqueue-mapped l ys p v id r k;
        },
        r.held,
      )

  new_node-links :
      (l : LruQueue V) (xs : List ℕ) (v : V)
      → IsValid key l xs
      → Segment (new_node v l.heap) l.head xs l.tail
  new_node-links l xs v w =
      Segment-mono l.heap (new_node v l.heap) l.head l.tail xs
        (All-imp (l.head ∷ xs) (λ x lt. ground arith) w.below)
        (All-imp xs (λ x lt. ground arith) w.below.1) (let lt = w.tail_below in ground arith)
        w.links

  -- The value of a node of the queue is that of the old heap.
  new_node-value :
      (l : LruQueue V) (xs : List ℕ) (v : V) (a : ℕ)
      → IsValid key l xs
      → Among a xs
      → (new_node v l.heap).value a ≡ l.heap.value a
  new_node-value l xs v a w m =
      let lt : a < l.heap.fresh = Among-All (λ x. x < l.heap.fresh) a xs m w.below.1 in ground arith

  first_of-ne : (x b : ℕ) (xs : List ℕ) → x ≢ b → NotIn x xs → x ≢ first_of xs b
  first_of-ne x b [] ne n = ne
  first_of-ne x b (y ∷ ys) ne n = n.0

  evict-mapped :
      (l : LruQueue V) (x : ℕ) (xs : List ℕ) (v : V)
      → IsValid key l (x ∷ xs)
      → (id : Bytes) (a : ℕ)
      → lookup id (delete (key ((new_node v l.heap).value x)) l.node_map) ≡ some a
      → Among a xs × (key ((new_node v l.heap).value a) ≡ id)
  evict-mapped l x xs v w id a h =
      let gone = key ((new_node v l.heap).value x) in
      elim (Bool-cases (equal gone id)) [
        | inl e ↦ absurd (
            none-ne-some a (
              ap (λ b. if b then none else lookup id l.node_map) (sym e)
              ∙ sym (lookup-delete gone id l.node_map)
              ∙ h))
        | inr e ↦
            let (m, k) = w.mapped id a (
              ap (λ b. if b then none else lookup id l.node_map) (sym e)
              ∙ sym (lookup-delete gone id l.node_map)
              ∙ h) in
            let k' = ap key (new_node-value l (x ∷ xs) v a w m) ∙ k in
            elim m [
              | inl same ↦
                  let gone_is : gone ≡ id =
                    ap (λ z. key ((new_node v l.heap).value z)) (sym same) ∙ k' in
                  absurd (ground (arith, equal_iff gone id))
              | inr later ↦ (later, k')
            ]
      ]

  abbrev evicted : LruQueue V → ℕ → List ℕ → V → LruQueue V
  evicted l x xs v = record l {
    heap = unlinked_heap (new_node v l.heap) l.head (first_of xs l.tail);
    node_map = delete (key ((new_node v l.heap).value x)) l.node_map;
    cur_size = l.cur_size -ℤ pos 1;
  }

  evict-evicted :
      (l : LruQueue V) (x : ℕ) (xs : List ℕ) (v : V)
      → IsValid key l (x ∷ xs)
      → evict key (record l { heap = new_node v l.heap }) ≡ some (evicted l x xs v)
  unfolding evict
  evict-evicted l x xs v w =
      let h0 : Heap V = new_node v l.heap in
      let links : Segment h0 l.head (x ∷ xs) l.tail = new_node-links l (x ∷ xs) v w in
      let apart = first_of-ne x l.tail xs (λ e. w.tail_apart.1.0 (sym e)) w.distinct.1.0 in
      rw
        (
          links.0.0,
          unlink_node-first h0 l.head x (first_of xs l.tail) apart links.0
              (Segment-first h0 x l.tail xs links.1),
        )
        refl

  evicted-HasRoom :
      (l : LruQueue V) (x : ℕ) (xs : List ℕ) (v : V)
      → IsValid key l (x ∷ xs)
      → HasRoom key (evicted l x xs v) xs l.heap.fresh v
  evicted-HasRoom l x xs v w = record {
    links =
        Segment-unlinked (new_node v l.heap) l.head l.tail x xs (new_node-links l (x ∷ xs) v w)
          w.distinct w.tail_apart;
    distinct = (w.distinct.0.1, w.distinct.1.1);
    tail_apart = (w.tail_apart.0, w.tail_apart.1.1);
    below = (w.below.0, w.below.1.1);
    tail_below = w.tail_below;
    next_fresh = refl;
    held = ground arith;
    size = ap (λ s. s -ℤ pos 1) w.size ∙ -ℤ-one (length xs);
    room = let le = w.bounded in omega arith;
    mapped = evict-mapped l x xs v w;
  }

  new_node-HasRoom :
      (l : LruQueue V) (xs : List ℕ) (v : V)
      → IsValid key l xs
      → length xs ≤ l.max_size
      → HasRoom key (record l { heap = new_node v l.heap }) xs l.heap.fresh v
  new_node-HasRoom l xs v w le = record {
    links = new_node-links l xs v w;
    distinct = w.distinct;
    tail_apart = w.tail_apart;
    below = w.below;
    tail_below = w.tail_below;
    next_fresh = refl;
    held = ground arith;
    size = w.size;
    room = le;
    mapped =
        λ id a h. let (m, k) = w.mapped id a h in (m, ap key (new_node-value l xs v a w m) ∙ k);
  }

  make_room-HasRoom :
      (l : LruQueue V) (xs : List ℕ) (v : V)
      → IsValid key l xs
      → (l' : LruQueue V) × (make_room key (record l { heap = new_node v l.heap }) ≡ some l')
        × HasRoom key l' (kept l.max_size xs) l.heap.fresh v
        × (l'.max_size ≡ l.max_size)
  unfolding make_room
  make_room-HasRoom l [] v w = (
    record l { heap = new_node v l.heap },
    rw w.size (ground arith),
    new_node-HasRoom l [] v w (omega arith),
    refl,
  )
  make_room-HasRoom l (x ∷ xs) v w = elim (Bool-cases (ltb l.max_size (suc (length xs)))) [
    | inl full ↦
        let more : ltb_ℤ (pos l.max_size) l.cur_size ≡ true =
          ap (ltb_ℤ (pos l.max_size)) w.size ∙ ground arith in
        (
          evicted l x xs v,
          rw more (evict-evicted l x xs v w),
          rw full (evicted-HasRoom l x xs v w),
          refl,
        )
    | inr short ↦
        let few : ltb_ℤ (pos l.max_size) l.cur_size ≡ false =
          ap (ltb_ℤ (pos l.max_size)) w.size ∙ ground arith in
        (
          record l { heap = new_node v l.heap },
          rw few refl,
          rw short (new_node-HasRoom l (x ∷ xs) v w (ground arith)),
          refl,
        )
  ]

  -- `queueIn` of a value with its id on a queue in order: it does not follow a nil pointer, and the
  -- queue is in order after it. The nodes are the old ones, but for the one that waited longest if the
  -- size was above the maximum, with a new node of the value at the end, where the map finds the id.
  -- So the queue has never more than one node above the maximum.
  pub queue_node-IsValid :
      (l : LruQueue V) (xs : List ℕ) (id : Bytes) (v : V)
      → IsValid key l xs
      → key v ≡ id
      → (l' : LruQueue V) × (queue_node key l id v ≡ some l')
        × IsValid key l' (kept l.max_size xs ++ l.heap.fresh ∷ [])
        × (lookup id l'.node_map ≡ some l.heap.fresh)
        × (l'.heap.value l.heap.fresh ≡ v)
        × (l'.max_size ≡ l.max_size)
  unfolding queue_node
  queue_node-IsValid l xs id v w k =
      let (l1, e1, r, m) = make_room-HasRoom l xs v w in
      let (h, e2, w', held) = enqueue-IsValid l1 (kept l.max_size xs) l.heap.fresh v id r k in
      (
        enqueue id l.heap.fresh l1 h,
        rw (e1, e2) refl,
        w',
        lookup-insert_self id l.heap.fresh l1.node_map,
        held,
        m,
      )
