-- ===== src/TablePool.antt =====
-- txpool/txpool_table.go: the queue of the transactions on tables. The list holds the nodes between the
-- two sentinels from the tail to the head, as in the queue of data transactions.
pub mod Packing
use alg_bc_db.Prelude.{
  ℕ, ◌+◌, ◌-◌, Bool, true, false, Option, none, some, List, [], ◌∷◌, Bytes, lookup, insert, delete,
  ◌==◌, if◌then◌else◌,
}
use alg_bc_db.Prelude.Int.{ltb_ℤ}
use alg_bc_db.TableChain.{TableTransaction}

abbrev pub TableTxNode : Type 0
TableTxNode = ℕ × TableTransaction

pub record TableQueue : Type 0 where
  pub cur_size : ℕ
  pub max_size : ℕ
  pub tx_map : List (Bytes × ℕ)
  pub nodes : List TableTxNode
  -- The address that `new` returns next.
  pub next_address : ℕ

unfoldable pub init_table_queue : TableQueue
init_table_queue = record { cur_size = 0; max_size = 10; tx_map = []; nodes = []; next_address = 0 }

-- The walk from the tail: past the nodes that are later.
unfoldable pub table_place : TableTxNode → List TableTxNode → List TableTxNode
table_place p [] = p ∷ []
table_place p (q ∷ qs) =
    let further = table_place p qs in
    if ltb_ℤ p.1.time_stamp q.1.time_stamp then q ∷ further else p ∷ q ∷ qs

-- `in`.
unfoldable pub table_queue_in : TableQueue → TableTransaction → TableQueue
unfolding table_place
table_queue_in q tx = record q {
  cur_size = q.cur_size + 1;
  tx_map = insert tx.tx_id q.next_address q.tx_map;
  nodes = table_place (q.next_address, tx) q.nodes;
  next_address = q.next_address + 1;
}

unfoldable pub table_unlink : ℕ → List TableTxNode → List TableTxNode
table_unlink address [] = []
table_unlink address (p ∷ ps) =
    let rest = table_unlink address ps in if p.0 == address then ps else p ∷ rest

-- `out`; `none` is the fault of the nil pointer for an unknown id.
abbrev pub table_out_at : TableQueue → Bytes → Option ℕ → Option TableQueue
table_out_at q id none = none
table_out_at q id (some address) = some (record q {
  cur_size = q.cur_size - 1;
  tx_map = delete id q.tx_map;
  nodes = table_unlink address q.nodes;
})

unfoldable pub table_queue_out : TableQueue → TableTransaction → Option TableQueue
table_queue_out q tx = table_out_at q tx.tx_id (lookup tx.tx_id q.tx_map)

-- `TxIn`: false is the error "FULL".
unfoldable pub table_tx_in : TableQueue → TableTransaction → TableQueue × Bool
unfolding table_queue_in
table_tx_in q tx = if q.cur_size == q.max_size then (q, false) else (table_queue_in q tx, true)

-- `OrdinaryRun`.
unfoldable pub table_ordinary_run : TableQueue → List TableTransaction → Option TableQueue
unfolding table_queue_out
table_ordinary_run q [] = some q
table_ordinary_run q (tx ∷ txs) = elim (table_queue_out q tx) [
  | none ↦ none
  | some q' ↦ table_ordinary_run q' txs
]
