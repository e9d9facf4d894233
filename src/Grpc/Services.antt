-- ===== src/Grpc/Services.antt =====
-- GRPC/service.go: how a node takes in a block and a transaction from another node. `none` is a panic
-- of the code, or a check that does not come to an end.
pub mod Blocks
use alg_bc_db.Prelude.{
  ℕ, Bool, true, false, not, Option, none, some, List, [], ◌∷◌, Bytes, if◌then◌else◌,
}
use alg_bc_db.Prelude.Int.{ℤ, pos, ltb_ℤ}
use alg_bc_db.Bolt.{Bolt}
use alg_bc_db.DataChain.{
  Transaction, Block, Library, Check, returns, panics, diverges, check_data_block,
  verify_transaction,
}
use alg_bc_db.DataChain.Store.{BlockChain, add_block_to_chain}
use alg_bc_db.TableChain.{TableBlock, TableGob, check_table_block, verify_table_transaction}
use alg_bc_db.TableChain.Store.{TableBlockChain, add_table_block}
use alg_bc_db.TxPool.{TxQueue, tx_in, ordinary_run}
use alg_bc_db.TablePool.{TableQueue, table_tx_in, table_ordinary_run}
use alg_bc_db.Cache.{Cache, with_table_chain, update_by_data_block, update_by_table_block}
use alg_bc_db.Cache.Lru.{◌>>=◌}
use alg_bc_db.Grpc.{
  DataBlockMessage, TableBlockMessage, DataTransactionMessage, TableTransactionMessage,
  grpc_data_block_to_block, grpc_table_block_to_block, grpc_data_tx_to_data_tx,
  grpc_table_tx_to_table_tx,
}

-- What the services share: the local chains, pools and cache, `SubUser` and `IsDone`. The table chain
-- is the one that the cache writes to.
pub record Local (bolt : Bolt) : Type 0 where
  pub data_chain : BlockChain bolt
  pub pool : TxQueue
  pub table_pool : TableQueue
  pub cache : Cache bolt
  pub sub_user : ℤ
  pub is_done : Bool

-- The status and text of `VerifyInfo`.
pub data Answer : Type 0 where
  block_verified : Answer
  block_failed : Answer
  tx_received : Answer
  tx_unverified : Answer
  pool_refused : Answer

abbrev pub info_of : Bool → Answer
info_of true = block_verified
info_of false = block_failed

module _ (bolt : Bolt) (lib : Library) where
  -- The pool is updated unless the node is a proposer.
  abbrev pub pool_after : Local bolt → Block → Option TxQueue
  pool_after node b =
      let less = ordinary_run node.pool b.transactions in
      if ltb_ℤ (pos 0) node.sub_user then some node.pool else less

  -- After the check, whatever it returned.
  abbrev pub take_data_block : Local bolt → Block → Check → Option (Local bolt × Answer)
  take_data_block node b (returns flag) = do
    chain ← add_block_to_chain bolt lib node.data_chain b
    pool ← pool_after node b
    cache ← update_by_data_block bolt node.cache b
    some (
      record node { data_chain = chain; pool = pool; cache = cache; is_done = true },
      info_of flag,
    )
  take_data_block node b panics = none
  take_data_block node b diverges = none

  -- `DistributeDataBlock`.
  unfoldable pub distribute_data_block :
      Local bolt → DataBlockMessage → Option (Local bolt × Answer)
  distribute_data_block node req =
      let b = grpc_data_block_to_block req in take_data_block node b (check_data_block lib b)

  abbrev pub take_table_block :
      TableGob → Local bolt → TableBlock → Check → Option (Local bolt × Answer)
  take_table_block gob node b (returns flag) = do
    chain ← add_table_block bolt gob node.cache.table_info.table_chain b
    table_pool ← table_ordinary_run node.table_pool b.transactions
    cache ← update_by_table_block bolt (with_table_chain bolt node.cache chain) b
    some (record node { table_pool = table_pool; cache = cache }, info_of flag)
  take_table_block gob node b panics = none
  take_table_block gob node b diverges = none

  -- `DistributeTableBlock`.
  unfoldable pub distribute_table_block :
      TableGob → Local bolt → TableBlockMessage → Option (Local bolt × Answer)
  distribute_table_block gob node req =
      let b = grpc_table_block_to_block req in take_table_block gob node b (check_table_block lib b)

  abbrev pub pooled : Bool → Answer
  pooled true = tx_received
  pooled false = pool_refused

  -- `DataTradingPool`.
  unfoldable pub data_trading_pool : Local bolt → DataTransactionMessage → Local bolt × Answer
  data_trading_pool node req =
      let tx = grpc_data_tx_to_data_tx req in
      if verify_transaction lib tx
      then (record node { pool = (tx_in node.pool tx).0 }, pooled (tx_in node.pool tx).1)
      else (node, tx_unverified)

  -- `TableTradingPool`.
  unfoldable pub table_trading_pool : Local bolt → TableTransactionMessage → Local bolt × Answer
  table_trading_pool node req =
      let tx = grpc_table_tx_to_table_tx req in
      if verify_table_transaction lib tx
      then (
        record node { table_pool = (table_tx_in node.table_pool tx).0 },
        pooled (table_tx_in node.table_pool tx).1,
      )
      else (node, tx_unverified)
