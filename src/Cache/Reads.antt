-- ===== src/Cache/Reads.antt =====
-- `GetOneValue` of cache/cache.go for a data id that neither queue holds.
use alg_bc_db.Prelude.{ℕ, ◌≡◌, Option, none, some, List, [], ◌∷◌, ◌++◌, Bytes, lookup}
use alg_bc_db.Bolt.{Bolt}
use alg_bc_db.DataChain.{Transaction, Library}
use alg_bc_db.DataChain.Store.{BlockChain}
use alg_bc_db.Cache.{Cache, get_one_value, from_hash_chain}
use alg_bc_db.Cache.HashChain.Chained.{Chained}
use alg_bc_db.Cache.Lru.{IndexEntry, index_of}
use alg_bc_db.Cache.Lru.Valid.{IsValid, kept}

abbrev pub id_of : IndexEntry → Bytes
id_of e = e.data_id

module _ (bolt : Bolt) (lib : Library) where
  -- A found transaction is the answer and its place is queued; otherwise the data chain is searched.
  abbrev pub Answered :
      ℕ
      → BlockChain bolt
      → Cache bolt
      → Bytes
      → Bytes
      → List ℕ
      → Option (Transaction × Bytes × Bytes)
      → Type 0
  Answered fuel data_chain c id table xs none =
      get_one_value bolt lib fuel data_chain c id table
      ≡ from_hash_chain bolt lib fuel data_chain c id none
  Answered fuel data_chain c id table xs (some (tx, hash, tx_id)) =
      let p = c.lru.list_index.heap.fresh in
      (c' : Cache bolt) × (get_one_value bolt lib fuel data_chain c id table ≡ some (c', some tx))
      × IsValid id_of c'.lru.list_index (kept c.lru.list_index.max_size xs ++ p ∷ [])
      × (lookup id c'.lru.list_index.node_map ≡ some p)
      × (c'.lru.list_index.heap.value p ≡ index_of id hash tx_id)
      × (c'.lru.list_tx ≡ c.lru.list_tx)
      × (c'.table_info ≡ c.table_info)
