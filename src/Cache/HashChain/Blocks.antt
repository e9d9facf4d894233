-- ===== src/Cache/HashChain/Blocks.antt =====
-- `upDateByData` of cache/table-chain.go on a whole block: each table's bucket as a list of hashes.
use alg_bc_db.Prelude.{
  ◌+◌, ◌^◌, ◌≤◌, ◌<◌, ◌≡◌, ◌≢◌, Bool, false, ◌||◌, some, List, [], ◌∷◌, Bytes, equal, length,
  lookup, if◌then◌else◌,
}
use alg_bc_db.Bolt.{Bolt, max_key_size}
use alg_bc_db.DataChain.{Transaction}
use alg_bc_db.TableChain.Store.{TableBlockChain}
use alg_bc_db.Cache.HashChain.Chained.{Chained, IsNoKey, last_hash, linked}

-- Some transaction is of the table.
unfoldable pub mentions : Bytes → List Transaction → Bool
mentions name [] = false
mentions name (tx ∷ txs) = equal tx.table name || mentions name txs

module _ (bolt : Bolt) where
  -- The hashes of every table's bucket.
  abbrev pub AllChained : TableBlockChain bolt → (Bytes → List Bytes) → Type 0
  AllChained c hashes =
      (name : Bytes) (s : bolt.Bucket)
      → lookup name c.buckets ≡ some s
      → Chained bolt s name (hashes name)

  -- The table has a bucket, and a name that bolt takes and that is no key.
  abbrev pub HasBucket : TableBlockChain bolt → Bytes → Type 0
  HasBucket c name =
      ((s : bolt.Bucket) × (lookup name c.buckets ≡ some s))
      × (name ≢ [])
      × (length name ≤ max_key_size)
      × IsNoKey name

  -- The lists after a transaction, and after all of a block.
  abbrev pub after_one : Bytes → Bytes → (Bytes → List Bytes) → Bytes → List Bytes
  after_one hash table hashes name =
      if equal table name then linked bolt hash (hashes name) else hashes name

  abbrev pub after_block : Bytes → List Transaction → (Bytes → List Bytes) → Bytes → List Bytes
  after_block hash txs hashes name =
      if mentions name txs then linked bolt hash (hashes name) else hashes name

  abbrev pub HasRoom : Bytes → (Bytes → List Bytes) → Type 0
  HasRoom hash hashes =
      (name : Bytes)
      → equal (last_hash bolt (hashes name)) hash ≡ false
      → length (hashes name) + 1 < 2 ^ 64
