-- ===== src/TableChain/Store.antt =====
-- blockchain/blockchain_table/blockchain.go and util.go: the chain of table blocks in its bucket, and
-- the buckets of the tables beside it in the same database. `none` is a panic of the code.
pub mod Linked
use alg_bc_db.Prelude.{ℕ, Option, none, some, List, [], ◌∷◌, Bytes, codes}
use alg_bc_db.Prelude.Int.{ℤ, pos, ◌+ℤ◌}
use alg_bc_db.Bolt.{Bolt}
use alg_bc_db.DataChain.{Library, welcome}
use alg_bc_db.DataChain.Store.{last_hash_key, non_empty}
use alg_bc_db.TableChain.{
  TableTransaction, TableBlock, TableGob, zero_table_transaction, init_table_genesis_block,
}

-- `buckets` holds the buckets of the tables by name.
pub record TableBlockChain (bolt : Bolt) : Type 0 where
  pub bucket : bolt.Bucket
  pub buckets : List (Bytes × bolt.Bucket)
  pub tail_hash : Bytes
  pub last_id : ℤ

abbrev pub sample_table_transaction : TableTransaction
sample_table_transaction = record zero_table_transaction { table = codes "sample table" }

module _ (bolt : Bolt) (gob : TableGob) where
  -- The two writes of a block: under its hash, and as the last hash.
  unfoldable pub put_table_block : bolt.Bucket → TableBlock → Option bolt.Bucket
  put_table_block s b = elim (bolt.put b.current_block_hash (gob.gob_block b) s) [
    | none ↦ none
    | some s' ↦ bolt.put last_hash_key b.current_block_hash s'
  ]

  -- `InitBlockChain` where there is no file yet.
  unfoldable pub create_table_chain : Library → Option (TableBlockChain bolt)
  create_table_chain lib =
      elim (init_table_genesis_block lib gob (sample_table_transaction ∷ []) welcome (pos 1)) [
        | none ↦ none
        | some genesis ↦ elim (put_table_block bolt.empty genesis) [
          | none ↦ none
          | some s ↦ some (record {
            bucket = s;
            buckets = [];
            tail_hash = genesis.current_block_hash;
            last_id = pos 1 +ℤ pos 1;
          })
        ]
      ]

  -- `InitBlockChain` on an existing file, with its bucket of blocks and those of the tables.
  unfoldable pub load_table_chain : bolt.Bucket → List (Bytes × bolt.Bucket) → TableBlockChain bolt
  load_table_chain s tables = record {
    bucket = s;
    buckets = tables;
    tail_hash = bolt.get last_hash_key s;
    last_id = pos 1;
  }

  unfoldable pub add_table_block : TableBlockChain bolt → TableBlock → Option (TableBlockChain bolt)
  add_table_block c b = elim (put_table_block c.bucket b) [
    | none ↦ none
    | some s ↦ some (record c { bucket = s; tail_hash = b.current_block_hash })
  ]

  abbrev pub table_decode : Option Bytes → Option TableBlock
  table_decode none = none
  table_decode (some v) = gob.ungob_block v

  -- `GetBlockByHash`.
  unfoldable pub get_table_block : TableBlockChain bolt → Bytes → Option TableBlock
  get_table_block c hash = table_decode (non_empty (bolt.get hash c.bucket))

  -- `Iterator.Next`: the block at the current hash, and the hash before it.
  unfoldable pub table_next : TableBlockChain bolt → Bytes → Option (TableBlock × Bytes)
  table_next c current = elim (gob.ungob_block (bolt.get current c.bucket)) [
    | none ↦ none
    | some b ↦ some (b, b.previous_block_hash)
  ]
