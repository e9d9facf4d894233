-- ===== src/TxPool/Validity.antt =====
-- The operations of the queue of txpool/txpool_data.go keep it in order.
use mathlib.Core.Option.{none-ne-some}
use alg_bc_db.Prelude.{
  ℕ, ◌+◌, ◌≡◌, ◌≢◌, refl, sym, ap, ◌∙◌, subst, inl, inr, Bool, true, false, Option, none, some,
  List, [], ◌∷◌, ◌++◌, Bytes, equal, equal_iff, equal_sound, lookup, insert, delete, lookup-insert,
  lookup-insert_self, lookup-delete, lookup-delete_self, length, arith, ◌==◌, if◌then◌else◌,
  Bool-cases, Option-cases,
}
use alg_bc_db.DataChain.{Transaction}
use alg_bc_db.TxPool.{
  TxNode, TxQueue, init, place, queue_in, unlink, out_at, queue_out, tx_in, ordinary_run,
}
use alg_bc_db.TxPool.Order.{
  InOrder, Apart, Holds, place-InOrder, length-place, place-Apart, place-Holds, place-Holds_self,
  unlink-InOrder, unlink-Apart, length-unlink, unlink-Holds, Holds-same,
}

-- Each entry of the map points to a node with its id.
abbrev pub Mapped : List (Bytes × ℕ) → List TxNode → Type 0
Mapped tx_map nodes = (id : Bytes) (a : ℕ) → lookup id tx_map ≡ some a → Holds a id nodes

abbrev pub IsValid : TxQueue → Type 0
IsValid q =
    (q.cur_size ≡ length q.nodes)
    × InOrder q.nodes
    × Apart q.next_address q.nodes
    × Mapped q.tx_map q.nodes

pub init-IsValid : IsValid init
unfolding init lookup
init-IsValid = (refl, tt, tt, λ id a h. cc)

insert-Mapped :
    (tx_map : List (Bytes × ℕ)) (next : ℕ) (tx : Transaction) (nodes : List TxNode)
    → Mapped tx_map nodes
    → Mapped (insert tx.tx_id next tx_map) (place (next, tx) nodes)
insert-Mapped tx_map next tx nodes mapped id a h = elim (Bool-cases (equal tx.tx_id id)) [
  | inl e ↦
      let same : some next ≡ some a =
        ap (λ b. if b then some next else lookup id tx_map) (sym e)
        ∙ sym (lookup-insert tx.tx_id id next tx_map)
        ∙ h in
      let next≡a : next ≡ a = cc in
      subst (λ x. Holds x id (place (next, tx) nodes)) next≡a
        (subst (λ i. Holds next i (place (next, tx) nodes)) (equal_sound tx.tx_id id e)
          (place-Holds_self (next, tx) nodes))
  | inr e ↦
      place-Holds a id (next, tx) nodes
        (mapped id a (
          ap (λ b. if b then some next else lookup id tx_map) (sym e)
          ∙ sym (lookup-insert tx.tx_id id next tx_map)
          ∙ h))
]

queue_in-IsValid : (q : TxQueue) (tx : Transaction) → IsValid q → IsValid (queue_in q tx)
unfolding queue_in
queue_in-IsValid q tx (size, order, apart, mapped) = (
  let longer = length-place (q.next_address, tx) q.nodes in omega arith,
  place-InOrder (q.next_address, tx) q.nodes order,
  place-Apart q.next_address tx q.nodes apart,
  insert-Mapped q.tx_map q.next_address tx q.nodes mapped,
)

-- What `TxIn` does: it refuses, or the map points to a node of the transaction, which is new.
abbrev pub Taken : TxQueue → Transaction → TxQueue × Bool → Type 0
Taken q tx (q', false) = (q.cur_size ≡ q.max_size) × (q' ≡ q)
Taken q tx (q', true) =
    (q.cur_size ≢ q.max_size)
    × (q'.cur_size ≡ q.cur_size + 1)
    × (lookup tx.tx_id q'.tx_map ≡ some q.next_address)
    × Holds q.next_address tx.tx_id q'.nodes

-- `TxIn` on a queue in order: it refuses exactly if the queue has its maximal size, and then leaves it
-- as it is; else the map points to a new node of the transaction. In both cases the queue is in order
-- after it: its size is its number of nodes, no node is earlier than one nearer to the head, and the
-- map points to nodes of its ids.
pub tx_in-IsValid :
    (q : TxQueue) (tx : Transaction) → IsValid q → IsValid (tx_in q tx).0 × Taken q tx (tx_in q tx)
unfolding tx_in queue_in
tx_in-IsValid q tx valid = elim (Bool-cases (q.cur_size == q.max_size)) [
  | inl e ↦ rw e (valid, (ground arith, refl))
  | inr e ↦ rw e (
    queue_in-IsValid q tx valid,
    (
      ground arith,
      refl,
      lookup-insert_self tx.tx_id q.next_address q.tx_map,
      place-Holds_self (q.next_address, tx) q.nodes,
    ),
  )
]

delete-Mapped :
    (tx_map : List (Bytes × ℕ)) (next a : ℕ) (id : Bytes) (nodes : List TxNode)
    → Apart next nodes
    → lookup id tx_map ≡ some a
    → Mapped tx_map nodes
    → Mapped (delete id tx_map) (unlink a nodes)
delete-Mapped tx_map next a id nodes apart here mapped id' b h = elim (Bool-cases (equal id id')) [
  | inl e ↦ absurd (
      none-ne-some b (
        ap (λ t. if t then none else lookup id' tx_map) (sym e)
        ∙ sym (lookup-delete id id' tx_map)
        ∙ h))
  | inr e ↦
      let there : lookup id' tx_map ≡ some b =
        ap (λ t. if t then none else lookup id' tx_map) (sym e)
        ∙ sym (lookup-delete id id' tx_map)
        ∙ h in
      unlink-Holds a b id' nodes
        (λ same.
          let held : Holds a id' nodes = subst (λ x. Holds x id' nodes) same (mapped id' b there) in
          let alike = Holds-same next a id id' nodes apart (mapped id a here) held in
          ground (arith, equal_iff id id'))
        (mapped id' b there)
]

-- What `out` does to a known transaction, and to one that is unknown.
abbrev pub Removed : TxQueue → Transaction → Option TxQueue → Type 0
Removed q tx none = lookup tx.tx_id q.tx_map ≡ none
Removed q tx (some q') =
    (lookup tx.tx_id q.tx_map ≢ none)
    × IsValid q'
    × (q'.cur_size + 1 ≡ q.cur_size)
    × (lookup tx.tx_id q'.tx_map ≡ none)

out_at-Removed :
    (q : TxQueue) (tx : Transaction) (o : Option ℕ)
    → IsValid q
    → lookup tx.tx_id q.tx_map ≡ o
    → Removed q tx (out_at q tx.tx_id o)
out_at-Removed q tx none valid e = e
out_at-Removed q tx (some a) (size, order, apart, mapped) e =
    let shorter = length-unlink a tx.tx_id q.nodes (mapped tx.tx_id a e) in
    (
      λ missing. none-ne-some a (sym missing ∙ e),
      (
        omega arith,
        unlink-InOrder a q.nodes order,
        unlink-Apart q.next_address a q.nodes apart,
        delete-Mapped q.tx_map q.next_address a tx.tx_id q.nodes apart e mapped,
      ),
      omega arith,
      lookup-delete_self tx.tx_id q.tx_map,
    )

-- `out` on a queue in order: for a transaction whose id the map knows, the queue is in order after it
-- and one node shorter, and its map does not know the id; for any other transaction it faults.
pub queue_out-Removed : (q : TxQueue) (tx : Transaction) → IsValid q → Removed q tx (queue_out q tx)
unfolding queue_out
queue_out-Removed q tx valid = out_at-Removed q tx (lookup tx.tx_id q.tx_map) valid refl

some-eq : {q q' : TxQueue} → some q ≡ some q' → q ≡ q'
some-eq h = cc

out_at-unknown :
    (q : TxQueue) (id other : Bytes) (o : Option ℕ) (q' : TxQueue)
    → lookup other q.tx_map ≡ none
    → out_at q id o ≡ some q'
    → lookup other q'.tx_map ≡ none
out_at-unknown q id other none q' unknown h = absurd (none-ne-some q' h)
out_at-unknown q id other (some a) q' unknown h =
    subst (λ m. lookup other m ≡ none) (ap (λ x. x.tx_map) (some-eq h))
      (ground (arith, lookup-delete id other q.tx_map))

-- A block with a transaction that the queue does not know, wherever it stands in the block, is a fault
-- of `OrdinaryRun`.
pub ordinary_run-unknown :
    (front : List Transaction) (q : TxQueue) (tx : Transaction) (back : List Transaction)
    → lookup tx.tx_id q.tx_map ≡ none
    → ordinary_run q (front ++ tx ∷ back) ≡ none
unfolding ordinary_run queue_out
ordinary_run-unknown [] q tx back unknown = rw (unknown, ordinary_run) refl
ordinary_run-unknown (t ∷ ts) q tx back unknown =
    elim (Option-cases (out_at q t.tx_id (lookup t.tx_id q.tx_map))) [
      | inl e ↦ rw (ordinary_run, e) refl
      | inr (q', e) ↦
          rw (ordinary_run, e)
            (ordinary_run-unknown ts q' tx back (out_at-unknown q t.tx_id tx.tx_id _ q' unknown e))
    ]
