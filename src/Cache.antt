-- ===== src/Cache.antt =====
-- cache/cache.go: what a node keeps in memory of the two chains, and the search for a value: in the
-- queue of transactions, in the queue of places, in the table's chain of blocks, in the data chain.
pub mod Tables
pub mod HashChain
pub mod Lru
pub mod Reads
mod Tests
use alg_bc_db.Prelude.{
  ℕ, zero, suc, Bool, true, false, Option, none, some, List, [], ◌∷◌, Bytes, equal, if◌then◌else◌,
}
use alg_bc_db.Bolt.{Bolt}
use alg_bc_db.DataChain.{Transaction, Block, Library, welcome}
use alg_bc_db.DataChain.Store.{BlockChain, next}
use alg_bc_db.TableChain.{TableBlock, TableGob}
use alg_bc_db.TableChain.Store.{TableBlockChain}
use alg_bc_db.Cache.Tables.{
  TableInfo, Permissions, init_tables, up_date_by_tables, check_permission, user_tables,
}
use alg_bc_db.Cache.HashChain.{
  Search, search_block, new_search, is_found, result_of, up_date_by_data, get_in_table_hash_chain,
}
use alg_bc_db.Cache.Lru.{
  Lru3Query, ◌>>=◌, init_lru, get_in_tx, get_in_index, to_tail, to_tail_index, check_del,
  queue_in_tx, queue_in_index, update_data_cache,
}

-- The table chain lies in `table_info`.
pub record Cache (bolt : Bolt) : Type 0 where
  pub lru : Lru3Query
  pub table_info : TableInfo bolt

module _ (bolt : Bolt) where
  -- `UpdateByDataBlock`.
  abbrev pub with_chain : Cache bolt → Lru3Query → TableBlockChain bolt → Cache bolt
  with_chain c lru chain = record {
    lru = lru;
    table_info = record c.table_info { table_chain = chain };
  }

  unfoldable pub update_by_data_block : Cache bolt → Block → Option (Cache bolt)
  update_by_data_block c b = do
    chain ← up_date_by_data bolt c.table_info.table_chain b
    some (with_chain c (update_data_cache c.lru b) chain)

  -- The chain of table blocks is one object, which the cache and the node share.
  abbrev pub with_table_chain : Cache bolt → TableBlockChain bolt → Cache bolt
  with_table_chain c chain = record c { table_info = record c.table_info { table_chain = chain } }

  -- `UpdateByTableBlock`.
  unfoldable pub update_by_table_block : Cache bolt → TableBlock → Option (Cache bolt)
  update_by_table_block c b = do
    info ← up_date_by_tables bolt c.table_info b
    some (record c { table_info = info })

  -- `CheckPermission` and `MyTables`.
  unfoldable pub permission : Cache bolt → Bytes → Bytes → Bytes × Bool
  permission c address table = check_permission c.table_info.tables address table

  unfoldable pub my_tables : Cache bolt → Bytes → Option Permissions
  my_tables c address = user_tables c.table_info.tables address

  -- `Init`.
  unfoldable pub init_cache : TableGob → ℕ → TableBlockChain bolt → Option (Cache bolt)
  init_cache gob fuel chain = do
    tables ← init_tables bolt gob fuel chain
    some (record { lru = init_lru; table_info = record { tables = tables; table_chain = chain } })

  module _ (lib : Library) where
    -- `getInBoltDb`: the inner `none` is the error "null". The genesis block is not searched.
    unfoldable pub search_blocks :
        ℕ → BlockChain bolt → Bytes → Bytes → Search → Option (Option (Transaction × Bytes × Bytes))
    search_blocks zero data_chain current id f = none
    search_blocks (suc fuel) data_chain current id f = elim (next bolt lib data_chain current) [
      | none ↦ none
      | some (b, previous) ↦
          if equal previous welcome
          then some none
          else if is_found (search_block id f b)
          then some (result_of (search_block id f b))
          else search_blocks fuel data_chain previous id (search_block id f b)
    ]

    unfoldable pub get_in_bolt_db :
        ℕ → BlockChain bolt → Bytes → Option (Option (Transaction × Bytes × Bytes))
    get_in_bolt_db fuel data_chain id =
        search_blocks fuel data_chain data_chain.tail_hash id new_search

    -- A found transaction goes to the index.
    abbrev pub add_index :
        Cache bolt → Bytes → Transaction × Bytes × Bytes → Option (Cache bolt × Option Transaction)
    add_index c id (tx, hash, tx_id) = do
      li ← queue_in_index c.lru.list_index id hash tx_id
      some (record c { lru = record c.lru { list_index = li } }, some tx)

    abbrev pub from_bolt_db :
        Cache bolt
        → Bytes
        → Option (Transaction × Bytes × Bytes)
        → Option (Cache bolt × Option Transaction)
    from_bolt_db c id none = some (c, none)
    from_bolt_db c id (some found) = add_index c id found

    abbrev pub from_hash_chain :
        ℕ
        → BlockChain bolt
        → Cache bolt
        → Bytes
        → Option (Transaction × Bytes × Bytes)
        → Option (Cache bolt × Option Transaction)
    from_hash_chain fuel data_chain c id none = do
      r ← get_in_bolt_db fuel data_chain id
      from_bolt_db c id r
    from_hash_chain fuel data_chain c id (some found) = add_index c id found

    -- An entry that is visited often enough moves to the queue of transactions.
    abbrev pub promote : Lru3Query → Bytes → Transaction → Bool → Option Lru3Query
    promote lru id tx false = some lru
    promote lru id tx true = do
      lt ← queue_in_tx lru.list_tx id tx
      some (record lru { list_tx = lt })

    abbrev pub visit_index : Lru3Query → Bytes → Transaction → Option Lru3Query
    visit_index lru id tx = do
      li ← to_tail_index lru.list_index id
      (li', gone) ← check_del li id
      promote (record lru { list_index = li' }) id tx gone

    abbrev pub from_index :
        ℕ
        → BlockChain bolt
        → Cache bolt
        → Bytes
        → Bytes
        → Option Transaction
        → Option (Cache bolt × Option Transaction)
    from_index fuel data_chain c id table none = do
      r ← get_in_table_hash_chain bolt lib fuel data_chain c.table_info.table_chain id table
      from_hash_chain fuel data_chain c id r
    from_index fuel data_chain c id table (some tx) = do
      lru ← visit_index c.lru id tx
      some (record c { lru = lru }, some tx)

    abbrev pub from_tx :
        ℕ
        → BlockChain bolt
        → Cache bolt
        → Bytes
        → Bytes
        → Option Transaction
        → Option (Cache bolt × Option Transaction)
    from_tx fuel data_chain c id table none = do
      r ← get_in_index bolt lib data_chain c.lru id
      from_index fuel data_chain c id table r
    from_tx fuel data_chain c id table (some tx) = do
      lt ← to_tail c.lru.list_tx id
      some (record c { lru = record c.lru { list_tx = lt } }, some tx)

    -- `GetOneValue`: the outer `none` is a panic, the inner one the error "null".
    unfoldable pub get_one_value :
        ℕ → BlockChain bolt → Cache bolt → Bytes → Bytes → Option (Cache bolt × Option Transaction)
    get_one_value fuel data_chain c id table =
        from_tx fuel data_chain c id table (get_in_tx c.lru id)
