-- ===== src/Cache/Tables/Equivalence.antt =====
-- The permissions of cache/table-chain.go before and after a restart.
use mathlib.Core.Option.{none-ne-some}
use alg_bc_db.Prelude.{
  ℕ, ◌-◌, ◌≤◌, ◌≡◌, ◌↔◌, refl, sym, ap, ◌∙◌, subst, Option, none, some, List, [], ◌∷◌, ◌++◌, Bytes,
  equal, length, length-drop, if◌then◌else◌, All, arith, Bool-cases, inl, inr, lookup,
}
use alg_bc_db.Bolt.{Bolt}
use alg_bc_db.TableChain.{TableTransaction, TableBlock, TableGob}
use alg_bc_db.TableChain.Store.{TableBlockChain}
use alg_bc_db.TableChain.Store.Linked.{TableRoundTrips, TableHolds}
use alg_bc_db.Cache.Tables.{
  Tables, TableInfo, address_of, level_of, level_or_none, init_tables, check_permission,
  up_date_by_tables,
}
use alg_bc_db.Cache.Tables.Granted.{
  or_else, level_in, flatten, answer, check_permission-granted, remembered, loaded, InMemory,
  newest_first,
}
use alg_bc_db.Cache.Tables.Memory.{InStep, up_date_by_tables-Remembers}
use alg_bc_db.Cache.Tables.Restart.{
  Started, without_genesis, transactions_of, AllWellFormed, init_tables-loaded,
}

abbrev Short : Option Bytes → Type 0
Short none = Unit {0}
Short (some level) = length level ≤ 1

Short-or_else : (a b : Option Bytes) → Short a → Short b → Short (or_else a b)
Short-or_else none b h k = k
Short-or_else (some level) b h k = h

level_of-Short : (v : Bytes) → length (level_of v) ≤ 1
level_of-Short v = omega (arith, length-drop (length v - 1) v)

level_in-Short : (address : Bytes) (vs : List Bytes) → Short (level_in address vs)
unfolding level_in
level_in-Short address [] = tt
level_in-Short address (v ∷ vs) =
    Short-or_else (level_in address vs) _ (level_in-Short address vs)
      (elim (Bool-cases (equal (address_of v) address)) [
        | inl e ↦ rw e (level_of-Short v)
        | inr e ↦ rw e tt
      ])

remembered-Short :
    (table address : Bytes) (txs : List TableTransaction)
    → Short (flatten (remembered table address txs))
unfolding remembered
remembered-Short table address [] = tt
remembered-Short table address (tx ∷ txs) = elim (Bool-cases (equal tx.table table)) [
  | inl e ↦ rw e (
      Short-or_else (level_in address tx.permission_table) _
        (level_in-Short address tx.permission_table) (remembered-Short table address txs))
  | inr e ↦ rw e (remembered-Short table address txs)
]

-- Of the transactions of the table, newest first, the newest has an entry for the address, or none has.
abbrev pub Restated : Bytes → Bytes → List TableTransaction → Type 0
Restated table address [] = Unit {0}
Restated table address (tx ∷ txs) =
    if equal tx.table table
    then (level_in address tx.permission_table ≡ none
        → flatten (remembered table address txs) ≡ none)
    else Restated table address txs

-- "-1" is longer than a level.
same_answer :
    (newest older : Option Bytes)
    → Short older
    → (level_or_none (or_else newest older) ≡ level_or_none newest) ↔ (newest ≡ none → older ≡ none)
same_answer (some level) older h = (λ _ e. absurd (none-ne-some level (sym e)), λ _. refl)
same_answer none none h = (λ _ _. refl, λ _. refl)
same_answer none (some level) h = (
  λ e. let same = ap (λ p. length p.0) e in absurd (omega arith),
  λ k. absurd (none-ne-some level (sym (k refl))),
)

answers-Restated :
    (table address : Bytes) (txs : List TableTransaction)
    → (answer (remembered table address txs) ≡ answer (loaded table address txs))
      ↔ Restated table address txs
unfolding remembered loaded
answers-Restated table address [] = (λ _. tt, λ _. refl)
answers-Restated table address (tx ∷ txs) = elim (Bool-cases (equal tx.table table)) [
  | inl e ↦
      rw e
        (same_answer (level_in address tx.permission_table) _ (remembered-Short table address txs))
  | inr e ↦ rw e (answers-Restated table address txs)
]

-- One transaction in each block, as the pool packs them.
abbrev pub Single : TableBlock → Type 0
Single b = (tx : TableTransaction) × (b.transactions ≡ tx ∷ [])

module _ (bolt : Bolt) where
  abbrev pub continue_with : Option (TableInfo bolt) → TableBlock → Option (TableInfo bolt)
  continue_with none b = none
  continue_with (some t) b = up_date_by_tables bolt t b

  -- The blocks, newest first, come in one after the other from the oldest on.
  abbrev pub replay : TableInfo bolt → List TableBlock → Option (TableInfo bolt)
  replay t [] = some t
  replay t (b ∷ bs) = continue_with (replay t bs) b

  replay-Remembers :
      (t : TableInfo bolt) (bs : List TableBlock)
      → AllWellFormed bs
      → All Single bs
      → InStep t
      → InMemory t.tables []
      → (t' : TableInfo bolt) × (replay t bs ≡ some t')
        × InStep t'
        × InMemory t'.tables (transactions_of bs)
  replay-Remembers t [] wf one step memory = (t, refl, step, memory)
  replay-Remembers t (b ∷ bs) wf one step memory =
      let (t1, e1, s1, m1) = replay-Remembers t bs wf.1 one.1 step memory in
      let (t2, e2, s2, m2) =
        up_date_by_tables-Remembers bolt t1 b (transactions_of bs) wf.0 s1 m1 in
      let (tx, single) = one.0 in
      (
        t2,
        rw e1 e2,
        s2,
        subst (λ txs. InMemory t2.tables (txs ++ transactions_of bs)) (sym single)
            (subst (λ txs. InMemory t2.tables (newest_first txs (transactions_of bs))) single m2),
      )

  -- A node starts without tables and takes in the blocks of a chain after the genesis block, each with
  -- one transaction that has no empty entry and a name that bolt takes; a node that starts on the
  -- finished chain reads the permissions from it. Neither panics, and for a table and an address
  -- `checkPermission` gives the same answer on both exactly if the newest transaction of the table
  -- has an entry for the address or no older one has one.
  pub restart-Restated :
      (gob : TableGob)
      → TableRoundTrips gob
      → (fuel : ℕ) (c0 c : TableBlockChain bolt) (end : Bytes) (bs : List TableBlock)
      → length bs ≤ fuel
      → TableHolds bolt gob c c.tail_hash bs end
      → Started bs
      → AllWellFormed (without_genesis bs)
      → All Single (without_genesis bs)
      → c0.buckets ≡ []
      → (t : TableInfo bolt) × (replay
            (record { tables = []; table_chain = c0 })
            (without_genesis bs)
          ≡ some t)
        × ((tables : Tables) × (init_tables bolt gob fuel c ≡ some tables)
            × ((address table : Bytes)
                → (check_permission t.tables address table ≡ check_permission tables address table)
                  ↔ Restated table address (transactions_of (without_genesis bs))))
  unfolding lookup remembered
  restart-Restated gob rt fuel c0 c end bs f w st wf one blank =
      let (t, e, _, memory) =
        replay-Remembers (record { tables = []; table_chain = c0 }) (without_genesis bs) wf one
          (λ name missing. ap (lookup name) blank) (λ table address. refl) in
      let (tables, e', read) = init_tables-loaded bolt gob rt fuel c end bs f w st wf in
      (
        t,
        e,
        (
          tables,
          e',
          λ address table.
              let txs = transactions_of (without_genesis bs) in
              let before : check_permission t.tables address table
                  ≡ answer (remembered table address txs) =
                check_permission-granted t.tables address table
                ∙ ap answer (memory table address) in
              let after : check_permission tables address table
                  ≡ answer (loaded table address txs) =
                check_permission-granted tables address table ∙ ap answer (read table address) in
              let meant = answers-Restated table address txs in
              (
                λ same. meant.0 (sym before ∙ same ∙ after),
                λ restated. before ∙ meant.1 restated ∙ sym after,
              ),
        ),
      )
