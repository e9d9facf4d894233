-- ===== src/Cache/Tables/Restart.antt =====
-- A restart of cache/table-chain.go: `init` reads the permissions from the chain of table blocks.
use alg_bc_db.Prelude.{
  ℕ, zero, suc, ◌≤◌, ◌≡◌, ◌≢◌, refl, sym, ap, ◌∙◌, true, false, Option, none, some, List, [], ◌∷◌,
  ◌++◌, Bytes, equal, equal_iff, equal_sound, length, lookup, insert, if◌then◌else◌, All, arith,
  Bool-cases, inl, inr,
}
use alg_bc_db.Bolt.{Bolt}
use alg_bc_db.DataChain.{welcome}
use alg_bc_db.TableChain.{TableTransaction, TableBlock, TableGob}
use alg_bc_db.TableChain.Store.{TableBlockChain}
use alg_bc_db.TableChain.Store.Linked.{TableRoundTrips, TableHolds, table_next-TableHolds}
use alg_bc_db.Cache.Tables.{
  Permissions, Tables, load_transaction, load_transactions, load_blocks, init_tables,
}
use alg_bc_db.Cache.Tables.Granted.{
  or_else, or_else_assoc, if-or_else, level_in, NonEmpty, grant_all-level_in, view, granted, loaded,
  WellFormed, view-insert,
}

or_else-none : {A : Type 0} (o : Option A) → or_else o none ≡ o
or_else-none none = refl
or_else-none (some a) = refl

-- Reading transactions adds the tables that were not there.
abbrev Extends : Tables → Tables → List TableTransaction → Type 0
Extends tables tables' txs =
    (table address : Bytes)
    → granted tables' table address
      ≡ or_else (granted tables table address) (loaded table address txs)

loaded-cons :
    (table address : Bytes) (tx : TableTransaction) (txs : List TableTransaction)
    → loaded table address (tx ∷ txs)
      ≡ or_else
          (if equal tx.table table then some (level_in address tx.permission_table) else none)
          (loaded table address txs)
unfolding loaded
loaded-cons table address tx txs =
    if-or_else (equal tx.table table) (level_in address tx.permission_table)
      (loaded table address txs)

loaded-append :
    (table address : Bytes) (xs ys : List TableTransaction)
    → loaded table address (xs ++ ys) ≡ or_else (loaded table address xs) (loaded table address ys)
unfolding loaded
loaded-append table address [] ys = refl
loaded-append table address (x ∷ xs) ys = elim (Bool-cases (equal x.table table)) [
  | inl e ↦ rw e refl
  | inr e ↦ rw e (loaded-append table address xs ys)
]

load_transaction-one :
    (tables : Tables) (tx : TableTransaction) (o : Option Permissions)
    → All NonEmpty tx.permission_table
    → lookup tx.table tables ≡ o
    → (tables' : Tables) × (load_transaction tables tx o ≡ some tables')
      × ((table address : Bytes)
          → granted tables' table address
            ≡ or_else (granted tables table address) (
                if equal tx.table table then some (level_in address tx.permission_table) else none))
unfolding lookup
load_transaction-one tables tx none wf e =
    let (perms, e1, same) = grant_all-level_in [] tx.permission_table wf in
    (
      insert tx.table perms tables,
      rw e1 refl,
      λ table address.
          view-insert tx.table table address perms tables
          ∙ elim (Bool-cases (equal tx.table table)) [
            | inl here ↦
                let missing : granted tables table address ≡ none =
                  ap (λ t. granted tables t address) (sym (equal_sound tx.table table here))
                  ∙ ap (view address) e in
                rw (here, missing)
                  (ap some (same address ∙ or_else-none (level_in address tx.permission_table)))
            | inr there ↦ rw there (sym (or_else-none (granted tables table address)))
          ],
    )
load_transaction-one tables tx (some old) wf e = (
  tables,
  refl,
  λ table address. elim (Bool-cases (equal tx.table table)) [
    | inl here ↦
        let known : granted tables table address ≡ some (lookup address old) =
          ap (λ t. granted tables t address) (sym (equal_sound tx.table table here))
          ∙ ap (view address) e in
        rw (here, known) refl
    | inr there ↦ rw there (sym (or_else-none (granted tables table address)))
  ],
)

load_transactions-Extends :
    (tables : Tables) (txs : List TableTransaction)
    → All WellFormed txs
    → (tables' : Tables) × (load_transactions tables txs ≡ some tables')
      × Extends tables tables' txs
unfolding load_transactions loaded
load_transactions-Extends tables [] wf =
    (tables, refl, λ table address. sym (or_else-none (granted tables table address)))
load_transactions-Extends tables (tx ∷ txs) wf =
    let (t1, e1, g1) = load_transaction-one tables tx (lookup tx.table tables) wf.0.0 refl in
    let (t2, e2, g2) = load_transactions-Extends t1 txs wf.1 in
    (
      t2,
      rw (e1, load_transactions) e2,
      λ table address.
          g2 table address
          ∙ ap (λ g. or_else g (loaded table address txs)) (g1 table address)
          ∙ or_else_assoc (granted tables table address) _ (loaded table address txs)
          ∙ ap (or_else (granted tables table address)) (sym (loaded-cons table address tx txs)),
    )

-- The chain ends with the genesis block.
abbrev pub Started : List TableBlock → Type 0
Started [] = ⊥
Started (b ∷ []) = b.previous_block_hash ≡ welcome
Started (b ∷ c ∷ bs) = (b.previous_block_hash ≢ welcome) × Started (c ∷ bs)

abbrev pub without_genesis : List TableBlock → List TableBlock
without_genesis [] = []
without_genesis (b ∷ []) = []
without_genesis (b ∷ c ∷ bs) = b ∷ without_genesis (c ∷ bs)

-- In the order in which `init` reads them.
abbrev pub transactions_of : List TableBlock → List TableTransaction
transactions_of [] = []
transactions_of (b ∷ bs) = b.transactions ++ transactions_of bs

abbrev pub AllWellFormed : List TableBlock → Type 0
AllWellFormed = All (λ b. All WellFormed b.transactions)

module _ (bolt : Bolt) (gob : TableGob) (rt : TableRoundTrips gob) where
  load_blocks-Extends :
      (fuel : ℕ) (c : TableBlockChain bolt) (h end : Bytes) (bs : List TableBlock) (tables : Tables)
      → length bs ≤ fuel
      → TableHolds bolt gob c h bs end
      → Started bs
      → AllWellFormed (without_genesis bs)
      → (tables' : Tables) × (load_blocks bolt gob fuel c h tables ≡ some tables')
        × Extends tables tables' (transactions_of (without_genesis bs))
  unfolding load_blocks loaded
  load_blocks-Extends fuel c h end [] tables f w st wf = absurd st
  load_blocks-Extends zero c h end (b ∷ bs) tables f w st wf = absurd (omega arith)
  load_blocks-Extends (suc fuel) c h end (b ∷ []) tables f w st wf = (
    tables,
    (let genesis : equal b.previous_block_hash welcome ≡ true =
          ground (arith, equal_iff b.previous_block_hash welcome) in
        rw (table_next-TableHolds bolt gob rt c h end b [] w, genesis, load_blocks) refl),
    λ table address. sym (or_else-none (granted tables table address)),
  )
  load_blocks-Extends (suc fuel) c h end (b ∷ b' ∷ bs) tables f w st wf =
      let (t1, e1, g1) = load_transactions-Extends tables b.transactions wf.0 in
      let (t2, e2, g2) =
        load_blocks-Extends fuel c b.previous_block_hash end (b' ∷ bs) t1 (omega arith) w.1 st.1
          wf.1 in
      let later : equal b.previous_block_hash welcome ≡ false =
        ground (arith, equal_iff b.previous_block_hash welcome) in
      (
        t2,
        rw (table_next-TableHolds bolt gob rt c h end b (b' ∷ bs) w, later, e1, load_blocks) e2,
        λ table address.
            let rest = transactions_of (without_genesis (b' ∷ bs)) in
            g2 table address
            ∙ ap (λ g. or_else g (loaded table address rest)) (g1 table address)
            ∙ or_else_assoc (granted tables table address) _ (loaded table address rest)
            ∙ ap (or_else (granted tables table address))
                (sym (loaded-append table address b.transactions rest)),
      )

  -- On a chain that ends with the genesis block and whose later transactions have no empty entry and
  -- names that bolt takes, with fuel for each block, `init` does not panic, and leaves for each table
  -- the entries of its newest transaction, in the order of the walk, and nothing of the older ones.
  pub init_tables-loaded :
      (fuel : ℕ) (c : TableBlockChain bolt) (end : Bytes) (bs : List TableBlock)
      → length bs ≤ fuel
      → TableHolds bolt gob c c.tail_hash bs end
      → Started bs
      → AllWellFormed (without_genesis bs)
      → (tables : Tables) × (init_tables bolt gob fuel c ≡ some tables)
        × ((table address : Bytes)
            → granted tables table address
              ≡ loaded table address (transactions_of (without_genesis bs)))
  unfolding init_tables lookup
  init_tables-loaded fuel c end bs f w st wf =
      load_blocks-Extends fuel c c.tail_hash end bs [] f w st wf
