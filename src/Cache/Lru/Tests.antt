-- ===== src/Cache/Lru/Tests.antt =====
-- The queues of cache/cache_lru.go with three transactions.
use alg_bc_db.Prelude.{
  ℕ, ◌≡◌, ◌≢◌, refl, ap, ◌∙◌, sym, Option, none, some, [], ◌∷◌, ◌++◌, Bytes, equal, equal_sound,
  lookup, ◌==◌, if◌then◌else◌, arith, Bool-cases, inl, inr,
}
use mathlib.Core.Option.{none-ne-some}
use alg_bc_db.Prelude.Int.{pos}
use alg_bc_db.DataChain.{Transaction, zero_transaction}
use alg_bc_db.Cache.Lru.{Heap, LruQueue, init_queue, queue_node, to_tail}
use alg_bc_db.Cache.Lru.Valid.{Among, IsValid, kept, init_queue-IsValid}
use alg_bc_db.Cache.Lru.Queue.{queue_node-IsValid}
use alg_bc_db.Cache.Lru.Ring.{walk_forward, to_tail_twice-Ring}

abbrev id_of_tx : Transaction → Bytes
id_of_tx tx = tx.data_id

abbrev tx_of : ℕ → Transaction
tx_of n = record zero_transaction { data_id = n ∷ [] }

queue_node-IsValid_example :
    (l' : LruQueue Transaction) × (queue_node id_of_tx
        (init_queue 120 zero_transaction)
        (5 ∷ [])
        (tx_of 5)
      ≡ some l')
    × IsValid id_of_tx l' (kept 120 [] ++ (init_queue 120 zero_transaction).heap.fresh ∷ [])
    × (lookup (5 ∷ []) l'.node_map ≡ some (init_queue 120 zero_transaction).heap.fresh)
    × (l'.heap.value (init_queue 120 zero_transaction).heap.fresh ≡ tx_of 5)
    × (l'.max_size ≡ (init_queue 120 zero_transaction).max_size)
unfolding init_queue
queue_node-IsValid_example =
    queue_node-IsValid id_of_tx (init_queue 120 zero_transaction) [] (5 ∷ []) (tx_of 5)
      (init_queue-IsValid id_of_tx 120 zero_transaction) refl

-- Three nodes, and a map that leads to the first two.
abbrev three_heap : Heap Transaction
three_heap = record {
  next = λ a.
      if a == 0
      then some 2
      else if a == 2
      then some 3
      else if a == 3
      then some 4
      else if a == 4
      then some 1
      else none;
  pre = λ a.
      if a == 1
      then some 4
      else if a == 4
      then some 3
      else if a == 3
      then some 2
      else if a == 2
      then some 0
      else none;
  value = tx_of;
  fresh = 5;
}

abbrev three_nodes : LruQueue Transaction
three_nodes = record {
  max_size = 120;
  cur_size = pos 3;
  node_map = (2 ∷ [], 2) ∷ (3 ∷ [], 3) ∷ [];
  head = 0;
  tail = 1;
  heap = three_heap;
}

abbrev two_entries : Bytes → Option ℕ
two_entries id = if equal (2 ∷ []) id then some 2 else if equal (3 ∷ []) id then some 3 else none

two_entries-mapped :
    (id : Bytes) (a : ℕ) → two_entries id ≡ some a → Among a (2 ∷ 3 ∷ 4 ∷ []) × (a ∷ [] ≡ id)
two_entries-mapped id a h = elim (Bool-cases (equal (2 ∷ []) id)) [
  | inl e ↦
      let same : some 2 ≡ some a =
        ap (λ b. if b then some 2 else if equal (3 ∷ []) id then some 3 else none) (sym e) ∙ h in
      let a_is : 2 ≡ a = cc in
      (inl (sym a_is), ap (λ x. x ∷ []) (sym a_is) ∙ equal_sound (2 ∷ []) id e)
  | inr e ↦
      let h' : (if equal (3 ∷ []) id then some 3 else none) ≡ some a =
        ap (λ b. if b then some 2 else if equal (3 ∷ []) id then some 3 else none) (sym e) ∙ h in
      elim (Bool-cases (equal (3 ∷ []) id)) [
        | inl k ↦
            let same : some 3 ≡ some a = ap (λ b. if b then some 3 else none) (sym k) ∙ h' in
            let a_is : 3 ≡ a = cc in
            (inr (inl (sym a_is)), ap (λ x. x ∷ []) (sym a_is) ∙ equal_sound (3 ∷ []) id k)
        | inr k ↦ absurd (none-ne-some a (ap (λ b. if b then some 3 else none) (sym k) ∙ h'))
      ]
]

three_nodes-IsValid : IsValid id_of_tx three_nodes (2 ∷ 3 ∷ 4 ∷ [])
unfolding lookup
three_nodes-IsValid = record {
  links = ((refl, refl), ((refl, refl), ((refl, refl), (refl, refl))));
  distinct = (
    (omega arith, (omega arith, (omega arith, tt))),
    ((omega arith, (omega arith, tt)), ((omega arith, tt), (tt, tt))),
  );
  tail_apart = (omega arith, (omega arith, (omega arith, (omega arith, tt))));
  below = (omega arith, (omega arith, (omega arith, (omega arith, tt))));
  tail_below = omega arith;
  size = refl;
  bounded = omega arith;
  mapped = two_entries-mapped;
}

first_known : lookup (2 ∷ []) three_nodes.node_map ≡ some 2
unfolding lookup equal
first_known = refl

second_known : lookup (3 ∷ []) three_nodes.node_map ≡ some 3
unfolding lookup equal
second_known = refl

to_tail_twice-Ring_example :
    (l1 l2 : LruQueue Transaction) × (to_tail three_nodes (2 ∷ []) ≡ some l1)
    × (to_tail l1 (3 ∷ []) ≡ some l2)
    × ((n : ℕ) → walk_forward l2.heap n l2.head ≢ some l2.tail)
to_tail_twice-Ring_example =
    to_tail_twice-Ring id_of_tx three_nodes 2 3 4 [] (2 ∷ []) (3 ∷ []) three_nodes-IsValid
      first_known second_known
