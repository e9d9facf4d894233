-- ===== src/TxPool/Tests.antt =====
-- The queue of txpool/txpool_data.go with three transactions.
use alg_bc_db.Prelude.{ℕ, ◌≡◌, refl, none, [], ◌∷◌, equal, lookup, insert}
use alg_bc_db.Prelude.Int.{pos}
use alg_bc_db.DataChain.{Transaction, zero_transaction}
use alg_bc_db.TxPool.{init, place, queue_in, queue_out, tx_in}
use alg_bc_db.TxPool.Validity.{
  IsValid, Taken, Removed, init-IsValid, tx_in-IsValid, queue_out-Removed,
}

abbrev transaction_at : ℕ → Transaction
transaction_at time = record zero_transaction { tx_id = time ∷ []; time_stamp = pos time }

-- The transaction of time 5 comes last and is put between the two others.
late_comer :
    (tx_in
      (tx_in (tx_in init (transaction_at 3)).0 (transaction_at 8)).0
      (transaction_at 5)).0.nodes
    ≡ (1, transaction_at 8) ∷ (2, transaction_at 5) ∷ (0, transaction_at 3) ∷ []
unfolding tx_in queue_in init place
late_comer = refl

tx_in-IsValid_example :
    IsValid (tx_in init (transaction_at 3)).0
    × Taken init (transaction_at 3) (tx_in init (transaction_at 3))
tx_in-IsValid_example = tx_in-IsValid init (transaction_at 3) init-IsValid

queue_out-Removed_example :
    Removed
      (tx_in init (transaction_at 3)).0
      (transaction_at 3)
      (queue_out (tx_in init (transaction_at 3)).0 (transaction_at 3))
queue_out-Removed_example =
    queue_out-Removed (tx_in init (transaction_at 3)).0 (transaction_at 3) tx_in-IsValid_example.0

unknown : lookup (transaction_at 8).tx_id (tx_in init (transaction_at 3)).0.tx_map ≡ none
unfolding tx_in queue_in init lookup insert equal
unknown = refl
