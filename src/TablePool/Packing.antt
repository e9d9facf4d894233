-- ===== src/TablePool/Packing.antt =====
-- `bookKeeperRun` of txpool/txpool_table.go: the node that keeps the accounts packs the transactions
-- that have waited long enough into blocks, oldest first, and adds the blocks to the chain, the cache
-- and the queue of blocks.
pub mod Block
pub mod Packed
mod Tests
use mathlib.Core.List.{reverse}
use alg_bc_db.Prelude.{ℕ, zero, suc, ◌-◌, Option, none, some, List, [], ◌∷◌, delete, if◌then◌else◌}
use alg_bc_db.Prelude.Int.{ℤ, pos, ltb_ℤ, ◌+ℤ◌, ◌-ℤ◌}
use alg_bc_db.Bolt.{Bolt}
use alg_bc_db.BlockQueue.{Queue, put}
use alg_bc_db.DataChain.{Library}
use alg_bc_db.TableChain.{TableTransaction, TableBlock, TableGob, init_table_block}
use alg_bc_db.TableChain.Store.{TableBlockChain, add_table_block}
use alg_bc_db.TablePool.{TableTxNode, TableQueue, init_table_queue}
use alg_bc_db.Cache.{Cache, with_table_chain, update_by_table_block}

-- The chain is the one that the cache writes to. `count` and `countPointer` last for one run only.
pub record TxPoolTable (bolt : Bolt) : Type 0 where
  pub table_queue : TableQueue
  pub pack_number : ℕ
  pub cache : Cache bolt
  pub block_queue : Queue TableBlock

-- The nodes from the head on that are older than the limit.
unfoldable pub count_ripe : ℤ → List TableTxNode → ℕ
count_ripe limit [] = 0
count_ripe limit (p ∷ ps) =
    let rest = count_ripe limit ps in if ltb_ℤ p.1.time_stamp limit then suc rest else 0

abbrev pub forget : TableQueue → TableTransaction → TableQueue
forget q tx = record q { tx_map = delete tx.tx_id q.tx_map; cur_size = q.cur_size - 1 }

-- The transactions of so many nodes, the queue without their ids, and the other nodes. `none` is the
-- fault past the tail.
unfoldable pub take_txs :
    ℕ
    → TableQueue
    → List TableTxNode
    → Option (List TableTransaction × TableQueue × List TableTxNode)
take_txs zero q ps = some ([], q, ps)
take_txs (suc k) q [] = none
take_txs (suc k) q (p ∷ ps) = elim (take_txs k (forget q p.1) ps) [
  | none ↦ none
  | some (txs, q', rest) ↦ some (p.1 ∷ txs, q', rest)
]

module _ (bolt : Bolt) where
  -- `init`.
  unfoldable pub init_pool : Cache bolt → Queue TableBlock → TxPoolTable bolt
  init_pool cache blocks = record {
    table_queue = init_table_queue;
    pack_number = 1;
    cache = cache;
    block_queue = blocks;
  }

  module _ (lib : Library) (gob : TableGob) where
    abbrev pub next_id : TableBlockChain bolt → TableBlockChain bolt
    next_id c = record c { last_id = c.last_id +ℤ pos 1 }

    -- The block goes to the chain, to the cache and to the queue of blocks.
    abbrev pub publish :
        TxPoolTable bolt
        → TableQueue
        → List TableTxNode
        → Option TableBlock
        → Option (TxPoolTable bolt)
    publish pool q rest none = none
    publish pool q rest (some b) =
        elim (add_table_block bolt gob (next_id pool.cache.table_info.table_chain) b) [
          | none ↦ none
          | some chain ↦
              elim (update_by_table_block bolt (with_table_chain bolt pool.cache chain) b) [
                | none ↦ none
                | some cache ↦ elim (put pool.block_queue b) [
                  | none ↦ none
                  | some blocks ↦ some (record pool {
                    table_queue = record q { nodes = reverse rest };
                    cache = cache;
                    block_queue = blocks;
                  })
                ]
              ]
        ]

    abbrev pub pack_taken :
        TxPoolTable bolt
        → ℕ
        → Option (List TableTransaction × TableQueue × List TableTxNode)
        → Option (TxPoolTable bolt)
    pack_taken pool now none = none
    pack_taken pool now (some (txs, q, rest)) =
        let chain = pool.cache.table_info.table_chain in
        publish pool q rest (init_table_block lib gob txs chain.tail_hash chain.last_id now)

    -- One block, at the time `now`.
    unfoldable pub pack_block : TxPoolTable bolt → ℕ → Option (TxPoolTable bolt)
    pack_block pool now =
        pack_taken pool now
          (take_txs pool.pack_number pool.table_queue (reverse pool.table_queue.nodes))

    -- The loop, where `clock` is the time when so many transactions are left. `none` is a panic, or a
    -- loop that is cut off.
    unfoldable pub pack_blocks : ℕ → (ℕ → ℕ) → ℕ → TxPoolTable bolt → Option (TxPoolTable bolt)
    pack_blocks zero clock count pool = none
    pack_blocks (suc fuel) clock count pool =
        if ltb_ℤ (pos count) (pos pool.pack_number)
        then some pool
        else elim (pack_block pool (clock count)) [
          | none ↦ none
          | some pool' ↦ pack_blocks fuel clock (count - pool.pack_number) pool'
        ]

    -- `bookKeeperRun`, at the time `now`.
    unfoldable pub book_keeper_run : ℕ → ℤ → (ℕ → ℕ) → TxPoolTable bolt → Option (TxPoolTable bolt)
    book_keeper_run fuel now clock pool =
        pack_blocks fuel clock (count_ripe (now -ℤ pos 2) (reverse pool.table_queue.nodes)) pool
