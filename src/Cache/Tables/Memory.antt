-- ===== src/Cache/Tables/Memory.antt =====
-- `upDateByTables` of cache/table-chain.go: what it leaves in memory and in the database.
use mathlib.Core.Option.{none-ne-some}
use alg_bc_db.Prelude.{
  ◌≤◌, ◌≡◌, ◌≢◌, refl, sym, ap, ◌∙◌, false, Option, none, some, List, [], ◌∷◌, Bytes, equal,
  equal_iff, equal_sound, length, lookup, insert, lookup-insert, if◌then◌else◌, All, arith,
  Bool-cases, inl, inr,
}
use alg_bc_db.Conversions.{uint64_to_bytes}
use alg_bc_db.Conversions.RoundTrip.{length-be_bytes}
use alg_bc_db.Bolt.{Bolt, max_key_size}
use alg_bc_db.TableChain.{TableTransaction, TableBlock}
use alg_bc_db.TableChain.Store.{TableBlockChain}
use alg_bc_db.Cache.Tables.{
  Permissions, Tables, TableInfo, root, block_bucket, first_entries, create_bucket,
  up_date_by_transaction, up_date_loop, up_date_by_tables,
}
use alg_bc_db.Cache.Tables.Granted.{
  or_else, level_in, grant_all-level_in, view, granted, flatten, remembered, InMemory, WellFormed,
  view-insert, newest_first,
}

length-uint64_to_bytes_zero : length (uint64_to_bytes 0) ≡ 8
unfolding uint64_to_bytes
length-uint64_to_bytes_zero = length-be_bytes 8 0

-- What a bucket starts with.
pub first_entries_total :
    (bolt : Bolt) (name : Bytes)
    → name ≢ []
    → length name ≤ max_key_size
    → (s : bolt.Bucket) × (first_entries bolt name ≡ some s)
      × (bolt.get name s ≡ uint64_to_bytes 0)
      × (name ≢ uint64_to_bytes 0 → bolt.get (uint64_to_bytes 0) s ≡ root)
unfolding first_entries
first_entries_total bolt name ne short =
    let eight = length-uint64_to_bytes_zero in
    let filled : uint64_to_bytes 0 ≢ [] = λ e. let none_left = ap length e in omega arith in
    let (s1, e1) =
      bolt.put_total (uint64_to_bytes 0) root bolt.empty filled (omega arith) (omega arith) in
    let (s2, e2) = bolt.put_total name (uint64_to_bytes 0) s1 ne short (omega arith) in
    (
      s2,
      rw (e1, first_entries) e2,
      bolt.get_put_self _ _ _ _ e2,
      λ apart. bolt.get_put_ne _ _ _ _ _ e2 apart ∙ bolt.get_put_self _ _ _ _ e1,
    )

pub create_bucket_total :
    (bolt : Bolt) (c : TableBlockChain bolt) (name : Bytes)
    → name ≢ []
    → name ≢ block_bucket
    → length name ≤ max_key_size
    → lookup name c.buckets ≡ none
    → (s : bolt.Bucket) × (create_bucket bolt c name
        ≡ some (record c { buckets = insert name s c.buckets }))
      × (first_entries bolt name ≡ some s)
unfolding create_bucket
create_bucket_total bolt c name ne other short fresh =
    let (s, e, _, _) = first_entries_total bolt name ne short in
    (s, rw (fresh, e) (ground (arith, equal_iff name [], equal_iff name block_bucket)), e)

InMemory-insert :
    (tables : Tables) (tx : TableTransaction) (seen : List TableTransaction) (perms : Permissions)
    → ((address : Bytes)
        → lookup address perms
          ≡ or_else
              (level_in address tx.permission_table)
              (flatten (granted tables tx.table address)))
    → InMemory tables seen
    → InMemory (insert tx.table perms tables) (tx ∷ seen)
unfolding remembered
InMemory-insert tables tx seen perms same memory table address =
    view-insert tx.table table address perms tables ∙ elim (Bool-cases (equal tx.table table)) [
      | inl e ↦ rw e (
          ap some (
            same address
            ∙ ap (λ t. or_else (level_in address tx.permission_table) (flatten t))
                (memory tx.table address
                  ∙ ap (λ t. remembered t address seen) (equal_sound tx.table table e))))
      | inr e ↦ rw e (memory table address)
    ]

-- A table that is not in memory has no bucket.
abbrev pub InStep : {bolt : Bolt} → TableInfo bolt → Type 0
InStep t = (name : Bytes) → lookup name t.tables ≡ none → lookup name t.table_chain.buckets ≡ none

pub lookup-insert-none :
    {V : Type 0} (k j : Bytes) (v : V) (m : List (Bytes × V))
    → lookup j (insert k v m) ≡ none
    → (equal k j ≡ false) × (lookup j m ≡ none)
lookup-insert-none k j v m h = elim (Bool-cases (equal k j)) [
  | inl e ↦ absurd (
      none-ne-some v (sym h ∙ lookup-insert k j v m ∙ ap (λ b. if b then some v else lookup j m) e))
  | inr e ↦
      (e, ap (λ b. if b then some v else lookup j m) (sym e) ∙ sym (lookup-insert k j v m) ∙ h)
]

module _ (bolt : Bolt) where
  abbrev pub Remembers : List TableTransaction → Option (TableInfo bolt) → Type 0
  Remembers seen r = (t : TableInfo bolt) × (r ≡ some t) × InStep t × InMemory t.tables seen

  pub up_date_by_transaction-Remembers :
      (t : TableInfo bolt) (tx : TableTransaction) (seen : List TableTransaction)
      (o : Option Permissions)
      → WellFormed tx
      → InStep t
      → InMemory t.tables seen
      → lookup tx.table t.tables ≡ o
      → Remembers (tx ∷ seen) (up_date_by_transaction bolt t tx o)
  unfolding lookup
  up_date_by_transaction-Remembers t tx seen none wf step memory e =
      let (perms, e1, same) = grant_all-level_in [] tx.permission_table wf.0 in
      let (s, e2, _) =
        create_bucket_total bolt t.table_chain tx.table wf.1 wf.2 wf.3 (step tx.table e) in
      (
        record {
          tables = insert tx.table perms t.tables;
          table_chain = record t.table_chain { buckets = insert tx.table s t.table_chain.buckets };
        },
        rw (e2, e1) refl,
        (λ name missing.
            let (ne, before) = lookup-insert-none tx.table name perms t.tables missing in
            lookup-insert tx.table name s t.table_chain.buckets
            ∙ ap (λ b. if b then some s else lookup name t.table_chain.buckets) ne
            ∙ step name before),
        InMemory-insert t.tables tx seen perms
            (λ address.
              same address
              ∙ ap (λ x. or_else (level_in address tx.permission_table) (flatten (view address x)))
                  (sym e))
            memory,
      )
  up_date_by_transaction-Remembers t tx seen (some old) wf step memory e =
      let (perms, e1, same) = grant_all-level_in old tx.permission_table wf.0 in
      (
        record t { tables = insert tx.table perms t.tables },
        rw e1 refl,
        (λ name missing. step name (lookup-insert-none tx.table name perms t.tables missing).1),
        InMemory-insert t.tables tx seen perms
            (λ address.
              same address
              ∙ ap (λ x. or_else (level_in address tx.permission_table) (flatten (view address x)))
                  (sym e))
            memory,
      )

  up_date_loop-Remembers :
      (t : TableInfo bolt) (txs seen : List TableTransaction)
      → All WellFormed txs
      → InStep t
      → InMemory t.tables seen
      → Remembers (newest_first txs seen) (up_date_loop bolt t txs)
  unfolding up_date_loop
  up_date_loop-Remembers t [] seen wf step memory = (t, refl, step, memory)
  up_date_loop-Remembers t (tx ∷ txs) seen wf step memory =
      let (t', e, step', memory') =
        up_date_by_transaction-Remembers t tx seen (lookup tx.table t.tables) wf.0 step memory
          refl in
      let (t'', e', step'', memory'') =
        up_date_loop-Remembers t' txs (tx ∷ seen) wf.1 step' memory' in
      (t'', rw (e, up_date_loop) e', step'', memory'')

  -- From a memory that holds what the transactions `seen` gave, `upDateByTables` on a block whose
  -- transactions have no empty entry and a name that bolt takes does not panic. It leaves what these
  -- transactions and then the block's gave: every table of them is known, and an address has the
  -- level of the newest entry for it. A table that is not known still has no bucket.
  pub up_date_by_tables-Remembers :
      (t : TableInfo bolt) (b : TableBlock) (seen : List TableTransaction)
      → All WellFormed b.transactions
      → InStep t
      → InMemory t.tables seen
      → (t' : TableInfo bolt) × (up_date_by_tables bolt t b ≡ some t')
        × InStep t'
        × InMemory t'.tables (newest_first b.transactions seen)
  unfolding up_date_by_tables
  up_date_by_tables-Remembers t b seen wf step memory =
      up_date_loop-Remembers t b.transactions seen wf step memory
