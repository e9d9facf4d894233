-- ===== src/Cache/Tables/Ends.antt =====
-- `upDateByTables` of cache/table-chain.go leaves the bucket and the end of the chain of table blocks as they are.
use alg_bc_db.Prelude.{
  ◌≡◌, refl, ◌∙◌, subst, Bool, true, false, ◌||◌, Option, none, some, List, [], ◌∷◌, Bytes, equal,
  lookup, if◌then◌else◌,
}
use alg_bc_db.Bolt.{Bolt}
use alg_bc_db.TableChain.{TableTransaction, TableBlock}
use alg_bc_db.TableChain.Store.{TableBlockChain}
use alg_bc_db.Cache.Tables.{
  Permissions, TableInfo, block_bucket, first_entries, add_bucket, create_new, create_bucket,
  with_grants, with_bucket, grant_all, up_date_by_transaction, up_date_loop, up_date_by_tables,
}

module _ (bolt : Bolt) where
  abbrev pub SameEnd : TableBlockChain bolt → TableBlockChain bolt → Type 0
  SameEnd c c' = (c'.tail_hash ≡ c.tail_hash) × (c'.last_id ≡ c.last_id) × (c'.bucket ≡ c.bucket)

  abbrev ChainKeeps : TableBlockChain bolt → Option (TableBlockChain bolt) → Type 0
  ChainKeeps c none = Unit
  ChainKeeps c (some c') = SameEnd c c'

  abbrev Keeps : TableBlockChain bolt → Option (TableInfo bolt) → Type 0
  Keeps c none = Unit
  Keeps c (some t) = SameEnd c t.table_chain

  add_bucket-ChainKeeps :
      (c : TableBlockChain bolt) (name : Bytes) (o : Option bolt.Bucket)
      → ChainKeeps c (add_bucket bolt c name o)
  add_bucket-ChainKeeps c name none = tt
  add_bucket-ChainKeeps c name (some s) = (refl, refl, refl)

  guarded-ChainKeeps :
      (c : TableBlockChain bolt) (guard : Bool) (r : Option (TableBlockChain bolt))
      → ChainKeeps c r
      → ChainKeeps c (if guard then none else r)
  guarded-ChainKeeps c true r k = tt
  guarded-ChainKeeps c false r k = k

  create_new-ChainKeeps :
      (c : TableBlockChain bolt) (name : Bytes) (o : Option bolt.Bucket)
      → ChainKeeps c (create_new bolt c name o)
  create_new-ChainKeeps c name none =
      guarded-ChainKeeps c (equal name [] || equal name block_bucket) _
        (add_bucket-ChainKeeps c name (first_entries bolt name))
  create_new-ChainKeeps c name (some s) = tt

  with_grants-Keeps :
      (c : TableBlockChain bolt) (t : TableInfo bolt) (table : Bytes) (o : Option Permissions)
      → SameEnd c t.table_chain
      → Keeps c (with_grants bolt t table o)
  with_grants-Keeps c t table none k = tt
  with_grants-Keeps c t table (some perms) k = k

  with_bucket-Keeps :
      (t : TableInfo bolt) (tx : TableTransaction) (o : Option (TableBlockChain bolt))
      → ChainKeeps t.table_chain o
      → Keeps t.table_chain (with_bucket bolt t tx o)
  with_bucket-Keeps t tx none k = tt
  with_bucket-Keeps t tx (some c) k =
      with_grants-Keeps t.table_chain (record t { table_chain = c }) tx.table
        (grant_all [] tx.permission_table) k

  up_date_by_transaction-Keeps :
      (t : TableInfo bolt) (tx : TableTransaction) (o : Option Permissions)
      → Keeps t.table_chain (up_date_by_transaction bolt t tx o)
  unfolding create_bucket
  up_date_by_transaction-Keeps t tx none =
      with_bucket-Keeps t tx (create_bucket bolt t.table_chain tx.table)
        (create_new-ChainKeeps t.table_chain tx.table (lookup tx.table t.table_chain.buckets))
  up_date_by_transaction-Keeps t tx (some perms) =
      with_grants-Keeps t.table_chain t tx.table (grant_all perms tx.permission_table)
        (refl, refl, refl)

  Keeps-trans :
      (c c' : TableBlockChain bolt) (r : Option (TableInfo bolt))
      → SameEnd c c'
      → Keeps c' r
      → Keeps c r
  Keeps-trans c c' none k h = tt
  Keeps-trans c c' (some t) k h = (h.0 ∙ k.0, h.1 ∙ k.1, h.2 ∙ k.2)

  then-Keeps :
      (c : TableBlockChain bolt) (r : Option (TableInfo bolt))
      (go : TableInfo bolt → Option (TableInfo bolt))
      → Keeps c r
      → ((t : TableInfo bolt) → Keeps t.table_chain (go t))
      → Keeps c (elim r [ none ↦ none | some t ↦ go t ])
  then-Keeps c none go k h = tt
  then-Keeps c (some t) go k h = Keeps-trans c t.table_chain (go t) k (h t)

  up_date_loop-Keeps :
      (t : TableInfo bolt) (txs : List TableTransaction)
      → Keeps t.table_chain (up_date_loop bolt t txs)
  unfolding up_date_loop
  up_date_loop-Keeps t [] = (refl, refl, refl)
  up_date_loop-Keeps t (tx ∷ txs) =
      then-Keeps t.table_chain _ (λ t'. up_date_loop bolt t' txs)
        (up_date_by_transaction-Keeps t tx (lookup tx.table t.tables))
        (λ t'. up_date_loop-Keeps t' txs)

  pub up_date_by_tables-SameEnd :
      (t : TableInfo bolt) (b : TableBlock) (t' : TableInfo bolt)
      → up_date_by_tables bolt t b ≡ some t'
      → SameEnd t.table_chain t'.table_chain
  unfolding up_date_by_tables
  up_date_by_tables-SameEnd t b t' e =
      subst (Keeps t.table_chain) e (up_date_loop-Keeps t b.transactions)
