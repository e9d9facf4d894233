-- ===== src/Cache/HashChain.antt =====
-- cache/table-chain.go, the chains of block hashes: the bucket of a table holds, under the keys 1, 2
-- and so on, the hashes of the data blocks with a transaction of the table. `none` is a panic or an
-- exit of the code.
pub mod Chained
pub mod Visits
pub mod Found
pub mod Blocks
pub mod Samples
mod Tests
use alg_bc_db.Prelude.{
  ℕ, zero, suc, ◌+◌, ◌-◌, ◌%◌, ◌^◌, Bool, true, false, Option, none, some, List, [], ◌∷◌, ◌++◌,
  Bytes, equal, lookup, insert, if◌then◌else◌,
}
use alg_bc_db.Prelude.Int.{ℤ, pos, ltb_ℤ}
use alg_bc_db.Conversions.{uint64_to_bytes, bytes_to_uint64}
use alg_bc_db.Bolt.{Bolt}
use alg_bc_db.DataChain.{Transaction, Block, Library}
use alg_bc_db.DataChain.Store.{BlockChain}
use alg_bc_db.TableChain.Store.{TableBlockChain}
use alg_bc_db.Cache.Tables.{root}

-- What a search in blocks has come to: `lastTimeStamp`, `lastTX` and `blockHash`.
pub record Search : Type 0 where
  pub last_time_stamp : ℤ
  pub last_tx : Option Transaction
  pub block_hash : Bytes

abbrev pub new_search : Search
new_search = record { last_time_stamp = pos 0; last_tx = none; block_hash = [] }

abbrev pub newer : Search → Transaction → Search
newer f tx =
    if ltb_ℤ f.last_time_stamp tx.time_stamp
    then record f { last_time_stamp = tx.time_stamp; last_tx = some tx }
    else f

-- The loop over a block's transactions.
unfoldable pub search_transactions : Bytes → Bytes → Search → List Transaction → Search
search_transactions id hash f [] = f
search_transactions id hash f (tx ∷ txs) =
    search_transactions id hash
      (if equal tx.data_id id then record (newer f tx) { block_hash = hash } else f) txs

unfoldable pub search_block : Bytes → Search → Block → Search
search_block id f b = search_transactions id b.current_block_hash f b.transactions

abbrev pub is_found : Search → Bool
is_found f = ltb_ℤ (pos 0) f.last_time_stamp

-- The transaction, the hash of its block and its id; `none` is the error "null".
abbrev pub found_of : Option Transaction → Bytes → Option (Transaction × Bytes × Bytes)
found_of none hash = none
found_of (some tx) hash = some (tx, hash, tx.tx_id)

abbrev pub result_of : Search → Option (Transaction × Bytes × Bytes)
result_of f = if is_found f then found_of f.last_tx f.block_hash else none

-- The transactions of the data id, in the block's order.
unfoldable pub history_of : Bytes → List Transaction → List Transaction
history_of id [] = []
history_of id (tx ∷ txs) =
    let rest = history_of id txs in if equal tx.data_id id then tx ∷ rest else rest

unfoldable pub add_history : Bytes → List Transaction → Block → List Transaction
add_history id txs b = txs ++ history_of id b.transactions

abbrev pub non_nil_history : List Transaction → Option (List Transaction)
non_nil_history [] = none
non_nil_history (tx ∷ txs) = some (tx ∷ txs)

abbrev pub TableData : Type 0
TableData = List (Bytes × Transaction)

-- A transaction replaces an older one of its key.
abbrev pub replace : Transaction → TableData → Option Transaction → TableData
replace tx found none = insert tx.key tx found
replace tx found (some old) =
    if ltb_ℤ old.time_stamp tx.time_stamp then insert tx.key tx found else found

unfoldable pub add_data : TableData → List Transaction → TableData
add_data found [] = found
add_data found (tx ∷ txs) = add_data (replace tx found (lookup tx.key found)) txs

module _ (bolt : Bolt) where
  -- The two writes of `updateBucket`.
  abbrev pub append_at : bolt.Bucket → Bytes → Bytes → Bytes → Option bolt.Bucket
  append_at s name hash next_key = elim (bolt.put next_key hash s) [
    | none ↦ none
    | some s' ↦ bolt.put name next_key s'
  ]

  abbrev pub append_hash : bolt.Bucket → Bytes → Bytes → Option ℕ → Option bolt.Bucket
  append_hash s name hash none = none
  append_hash s name hash (some key) = append_at s name hash (uint64_to_bytes ((key + 1) % 2 ^ 64))

  unfoldable pub link_hash : bolt.Bucket → Bytes → Bytes → Option bolt.Bucket
  link_hash s name hash =
      let last_key = bolt.get name s in
      if equal (bolt.get last_key s) hash
      then some s
      else append_hash s name hash (bytes_to_uint64 last_key)

  abbrev pub with_bucket_of :
      TableBlockChain bolt → Bytes → Option bolt.Bucket → Option (TableBlockChain bolt)
  with_bucket_of c name none = none
  with_bucket_of c name (some s) = some (record c { buckets = insert name s c.buckets })

  abbrev pub link_in :
      TableBlockChain bolt → Bytes → Bytes → Option bolt.Bucket → Option (TableBlockChain bolt)
  link_in c name hash none = none
  link_in c name hash (some s) = with_bucket_of c name (link_hash s name hash)

  unfoldable pub update_bucket :
      TableBlockChain bolt → Bytes → Bytes → Option (TableBlockChain bolt)
  update_bucket c name hash = link_in c name hash (lookup name c.buckets)

  -- `upDateByData`.
  unfoldable pub up_date_by_data_loop :
      TableBlockChain bolt → Bytes → List Transaction → Option (TableBlockChain bolt)
  up_date_by_data_loop c hash [] = some c
  up_date_by_data_loop c hash (tx ∷ txs) = elim (update_bucket c tx.table hash) [
    | none ↦ none
    | some c' ↦ up_date_by_data_loop c' hash txs
  ]

  unfoldable pub up_date_by_data : TableBlockChain bolt → Block → Option (TableBlockChain bolt)
  up_date_by_data c b = up_date_by_data_loop c b.current_block_hash b.transactions

  module _ (lib : Library) where
    -- `getBlock`.
    unfoldable pub get_block_of : BlockChain bolt → Bytes → Option Block
    get_block_of data_chain hash = lib.ungob_block (bolt.get hash data_chain.bucket)

    -- The key before, where `lastKey - 1` wraps around.
    abbrev pub key_before : Option ℕ → Option Bytes
    key_before none = none
    key_before (some key) = some (uint64_to_bytes ((key + (2 ^ 64 - 1)) % 2 ^ 64))

    -- The loop of the three searches: it hands each block to `body`, from the last key back, until
    -- `stop` or the root. `none` is also a walk that is cut off.
    unfoldable pub visit :
        {S : Type 0}
        → (S → Block → S)
        → (S → Bool)
        → ℕ
        → BlockChain bolt
        → bolt.Bucket
        → S
        → Bytes
        → Option S
    visit body stop zero data_chain s state last_key = none
    visit body stop (suc fuel) data_chain s state last_key =
        if equal (bolt.get last_key s) root
        then some state
        else elim (get_block_of data_chain (bolt.get last_key s)) [
          | none ↦ none
          | some b ↦
              if stop (body state b)
              then some (body state b)
              else elim (key_before (bytes_to_uint64 last_key)) [
                | none ↦ none
                | some key ↦ visit body stop fuel data_chain s (body state b) key
              ]
        ]

    -- The outer `none` is a panic, the inner one the error "null".
    abbrev pub search_in : ℕ → BlockChain bolt → Bytes → Bytes → Option bolt.Bucket → Option Search
    search_in fuel data_chain id name none = none
    search_in fuel data_chain id name (some s) =
        visit (search_block id) is_found fuel data_chain s new_search (bolt.get name s)

    abbrev pub searched : Option Search → Option (Option (Transaction × Bytes × Bytes))
    searched none = none
    searched (some f) = some (result_of f)

    unfoldable pub get_in_table_hash_chain :
        ℕ
        → BlockChain bolt
        → TableBlockChain bolt
        → Bytes
        → Bytes
        → Option (Option (Transaction × Bytes × Bytes))
    get_in_table_hash_chain fuel data_chain c id name =
        searched (search_in fuel data_chain id name (lookup name c.buckets))

    abbrev pub history_in :
        ℕ → BlockChain bolt → Bytes → Bytes → Option bolt.Bucket → Option (List Transaction)
    history_in fuel data_chain id name none = none
    history_in fuel data_chain id name (some s) =
        visit (add_history id) (λ _. false) fuel data_chain s [] (bolt.get name s)

    abbrev pub recorded : Option (List Transaction) → Option (Option (List Transaction))
    recorded none = none
    recorded (some txs) = some (non_nil_history txs)

    unfoldable pub get_history_in_table_hash_chain :
        ℕ
        → BlockChain bolt
        → TableBlockChain bolt
        → Bytes
        → Bytes
        → Option (Option (List Transaction))
    get_history_in_table_hash_chain fuel data_chain c id name =
        recorded (history_in fuel data_chain id name (lookup name c.buckets))

    abbrev pub data_in : ℕ → BlockChain bolt → Bytes → Option bolt.Bucket → Option TableData
    data_in fuel data_chain name none = none
    data_in fuel data_chain name (some s) =
        visit (λ found b. add_data found b.transactions) (λ _. false) fuel data_chain s []
          (bolt.get name s)

    unfoldable pub get_table_data :
        ℕ → BlockChain bolt → TableBlockChain bolt → Bytes → Option TableData
    get_table_data fuel data_chain c name = data_in fuel data_chain name (lookup name c.buckets)
