-- ===== src/Cache/Tables.antt =====
-- cache/table-chain.go, the permissions: which user may do what with which table, in memory. `none`
-- is a panic of the code.
pub mod Granted
pub mod Memory
pub mod Restart
pub mod Equivalence
pub mod Ends
pub mod Buckets
use alg_bc_db.Prelude.{
  ℕ, zero, suc, ◌-◌, Bool, true, false, ◌||◌, Option, none, some, List, [], ◌∷◌, Bytes, codes,
  equal, length, take, drop, lookup, insert, if◌then◌else◌,
}
use alg_bc_db.Conversions.{uint64_to_bytes}
use alg_bc_db.Bolt.{Bolt}
use alg_bc_db.DataChain.{welcome}
use alg_bc_db.TableChain.{TableTransaction, TableBlock, TableGob}
use alg_bc_db.TableChain.Store.{TableBlockChain, table_next}

-- The level of each address.
abbrev pub Permissions : Type 0
Permissions = List (Bytes × Bytes)

abbrev pub Tables : Type 0
Tables = List (Bytes × Permissions)

-- `tableInfo`, with the chain of table blocks that it writes to.
pub record TableInfo (bolt : Bolt) : Type 0 where
  pub tables : Tables
  pub table_chain : TableBlockChain bolt

abbrev pub root : Bytes
root = codes "root"

abbrev pub block_bucket : Bytes
block_bucket = codes "blockBucket"

-- An entry of a transaction is an address, and the level as its last byte.
abbrev pub address_of : Bytes → Bytes
address_of v = take (length v - 1) v

abbrev pub level_of : Bytes → Bytes
level_of v = drop (length v - 1) v

-- The loop over the entries; an empty entry has no last byte.
unfoldable pub grant_all : Permissions → List Bytes → Option Permissions
grant_all perms [] = some perms
grant_all perms ([] ∷ vs) = none
grant_all perms ((b ∷ bs) ∷ vs) =
    grant_all (insert (address_of (b ∷ bs)) (level_of (b ∷ bs)) perms) vs

-- "-1" stands for no permission; the Boolean is the error "no such table".
abbrev pub no_level : Bytes
no_level = codes "-1"

abbrev pub level_or_none : Option Bytes → Bytes × Bool
level_or_none none = (no_level, false)
level_or_none (some level) = (level, false)

abbrev pub permission_of : Bytes → Option Permissions → Bytes × Bool
permission_of address none = (no_level, true)
permission_of address (some perms) = level_or_none (lookup address perms)

unfoldable pub check_permission : Tables → Bytes → Bytes → Bytes × Bool
check_permission tables address table = permission_of address (lookup table tables)

-- `uerTables`: the tables where the address has a level; none of them is the error "null".
abbrev pub add_table : Bytes → Option Bytes → Permissions → Permissions
add_table name none found = found
add_table name (some level) found = insert name level found

unfoldable pub user_tables_loop : Tables → Bytes → Permissions → Permissions
user_tables_loop [] address found = found
user_tables_loop ((name, perms) ∷ tables) address found =
    user_tables_loop tables address (add_table name (lookup address perms) found)

abbrev pub non_nil : Permissions → Option Permissions
non_nil [] = none
non_nil (p ∷ ps) = some (p ∷ ps)

unfoldable pub user_tables : Tables → Bytes → Option Permissions
user_tables tables address = non_nil (user_tables_loop tables address [])

-- The loop of `init` over a block's transactions: only the first of a table counts.
abbrev pub load_new : Tables → TableTransaction → Option Permissions → Option Tables
load_new tables tx none = none
load_new tables tx (some perms) = some (insert tx.table perms tables)

abbrev pub load_transaction : Tables → TableTransaction → Option Permissions → Option Tables
load_transaction tables tx none = load_new tables tx (grant_all [] tx.permission_table)
load_transaction tables tx (some perms) = some tables

unfoldable pub load_transactions : Tables → List TableTransaction → Option Tables
load_transactions tables [] = some tables
load_transactions tables (tx ∷ txs) = elim (load_transaction tables tx (lookup tx.table tables)) [
  | none ↦ none
  | some tables' ↦ load_transactions tables' txs
]

module _ (bolt : Bolt) where
  -- A bucket's first entries: key 0 holds the root, and the table's name the last key.
  unfoldable pub first_entries : Bytes → Option bolt.Bucket
  first_entries name = elim (bolt.put (uint64_to_bytes 0) root bolt.empty) [
    | none ↦ none
    | some s ↦ bolt.put name (uint64_to_bytes 0) s
  ]

  abbrev pub add_bucket :
      TableBlockChain bolt → Bytes → Option bolt.Bucket → Option (TableBlockChain bolt)
  add_bucket c name none = none
  add_bucket c name (some s) = some (record c { buckets = insert name s c.buckets })

  -- A bucket needs a name, which no other bucket has.
  abbrev pub create_new :
      TableBlockChain bolt → Bytes → Option bolt.Bucket → Option (TableBlockChain bolt)
  create_new c name none =
      if equal name [] || equal name block_bucket
      then none
      else add_bucket c name (first_entries name)
  create_new c name (some s) = none

  unfoldable pub create_bucket : TableBlockChain bolt → Bytes → Option (TableBlockChain bolt)
  create_bucket c name = create_new c name (lookup name c.buckets)

  abbrev pub with_grants : TableInfo bolt → Bytes → Option Permissions → Option (TableInfo bolt)
  with_grants t table none = none
  with_grants t table (some perms) = some (record t { tables = insert table perms t.tables })

  abbrev pub with_bucket :
      TableInfo bolt → TableTransaction → Option (TableBlockChain bolt) → Option (TableInfo bolt)
  with_bucket t tx none = none
  with_bucket t tx (some c) =
      with_grants (record t { table_chain = c }) tx.table (grant_all [] tx.permission_table)

  abbrev pub up_date_by_transaction :
      TableInfo bolt → TableTransaction → Option Permissions → Option (TableInfo bolt)
  up_date_by_transaction t tx none = with_bucket t tx (create_bucket t.table_chain tx.table)
  up_date_by_transaction t tx (some perms) =
      with_grants t tx.table (grant_all perms tx.permission_table)

  unfoldable pub up_date_loop : TableInfo bolt → List TableTransaction → Option (TableInfo bolt)
  up_date_loop t [] = some t
  up_date_loop t (tx ∷ txs) = elim (up_date_by_transaction t tx (lookup tx.table t.tables)) [
    | none ↦ none
    | some t' ↦ up_date_loop t' txs
  ]

  -- `upDateByTables`.
  unfoldable pub up_date_by_tables : TableInfo bolt → TableBlock → Option (TableInfo bolt)
  up_date_by_tables t b = up_date_loop t b.transactions

  module _ (gob : TableGob) where
    -- The loop of `init`, back from the hash to the genesis block, which is not read. `none` is also
    -- a walk that is cut off.
    unfoldable pub load_blocks : ℕ → TableBlockChain bolt → Bytes → Tables → Option Tables
    load_blocks zero c current tables = none
    load_blocks (suc fuel) c current tables = elim (table_next bolt gob c current) [
      | none ↦ none
      | some (b, previous) ↦
          if equal previous welcome
          then some tables
          else elim (load_transactions tables b.transactions) [
            | none ↦ none
            | some tables' ↦ load_blocks fuel c previous tables'
          ]
    ]

    unfoldable pub init_tables : ℕ → TableBlockChain bolt → Option Tables
    init_tables fuel c = load_blocks fuel c c.tail_hash []
