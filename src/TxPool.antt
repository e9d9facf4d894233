-- ===== src/TxPool.antt =====
-- txpool/txpool_data.go: the queue of the transactions that wait for a block. The list holds the nodes
-- between the two sentinels from the tail to the head, in the order in which `in` walks; a node is its
-- address and its transaction, so the map can point to it.
pub mod Order
pub mod Validity
mod Tests
use alg_bc_db.Prelude.{
  ℕ, ◌+◌, ◌-◌, Bool, true, false, Option, none, some, List, [], ◌∷◌, Bytes, lookup, insert, delete,
  ◌==◌, if◌then◌else◌,
}
use alg_bc_db.Prelude.Int.{ℤ, ltb_ℤ}
use alg_bc_db.DataChain.{Transaction, Block}

abbrev pub TxNode : Type 0
TxNode = ℕ × Transaction

pub record TxQueue : Type 0 where
  pub cur_size : ℕ
  pub max_size : ℕ
  pub tx_map : List (Bytes × ℕ)
  pub nodes : List TxNode
  -- The address that `new` returns next.
  pub next_address : ℕ

unfoldable pub init : TxQueue
init = record { cur_size = 0; max_size = 1000000; tx_map = []; nodes = []; next_address = 0 }

-- The walk from the tail: past the nodes that are later.
unfoldable pub place : TxNode → List TxNode → List TxNode
place p [] = p ∷ []
place p (q ∷ qs) =
    let further = place p qs in
    if ltb_ℤ p.1.time_stamp q.1.time_stamp then q ∷ further else p ∷ q ∷ qs

-- `in`.
unfoldable pub queue_in : TxQueue → Transaction → TxQueue
unfolding place
queue_in q tx = record q {
  cur_size = q.cur_size + 1;
  tx_map = insert tx.tx_id q.next_address q.tx_map;
  nodes = place (q.next_address, tx) q.nodes;
  next_address = q.next_address + 1;
}

-- Links the neighbours of the node at `address` to one another.
unfoldable pub unlink : ℕ → List TxNode → List TxNode
unlink address [] = []
unlink address (p ∷ ps) = let rest = unlink address ps in if p.0 == address then ps else p ∷ rest

-- `out`; `none` is the fault of the nil pointer for an unknown id.
abbrev pub out_at : TxQueue → Bytes → Option ℕ → Option TxQueue
out_at q id none = none
out_at q id (some address) = some (record q {
  cur_size = q.cur_size - 1;
  tx_map = delete id q.tx_map;
  nodes = unlink address q.nodes;
})

unfoldable pub queue_out : TxQueue → Transaction → Option TxQueue
queue_out q tx = out_at q tx.tx_id (lookup tx.tx_id q.tx_map)

-- `TxIn`: false is the error "FULL".
unfoldable pub tx_in : TxQueue → Transaction → TxQueue × Bool
unfolding queue_in
tx_in q tx = if q.cur_size == q.max_size then (q, false) else (queue_in q tx, true)

-- `OrdinaryRun`.
unfoldable pub ordinary_run : TxQueue → List Transaction → Option TxQueue
unfolding queue_out
ordinary_run q [] = some q
ordinary_run q (tx ∷ txs) = elim (queue_out q tx) [ none ↦ none | some q' ↦ ordinary_run q' txs ]
