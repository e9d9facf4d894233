-- ===== src/Cache/Tables/Buckets.antt =====
-- The buckets that `upDateByTables` of cache/table-chain.go creates, with what it leaves in memory.
use mathlib.Core.Option.{none-ne-some, some_inj}
use alg_bc_db.Prelude.{
  ◌≡◌, ◌≢◌, ◌⊎◌, inl, inr, refl, sym, ap, ◌∙◌, subst, true, false, Option, none, some, List, [],
  ◌∷◌, ◌≤◌, length, equal_refl, Bytes, All, equal, equal_sound, lookup, insert, lookup-insert,
  if◌then◌else◌, Bool-cases, Option-cases,
}
use alg_bc_db.Conversions.{uint64_to_bytes}
use alg_bc_db.Bolt.{Bolt, max_key_size}
use alg_bc_db.TableChain.{TableTransaction, TableBlock}
use alg_bc_db.Cache.Tables.{
  Permissions, TableInfo, root, first_entries, up_date_by_transaction, up_date_loop,
  up_date_by_tables,
}
use alg_bc_db.Cache.Tables.Granted.{InMemory, WellFormed, newest_first, grant_all-level_in}
use alg_bc_db.Cache.Tables.Memory.{
  InStep, first_entries_total, create_bucket_total, lookup-insert-none,
  up_date_by_transaction-Remembers, up_date_by_tables-Remembers,
}

module _ (bolt : Bolt) where
  -- A new bucket: the table's name leads to the key 0, and that to the root, if it is not the name.
  abbrev pub Fresh : Bytes → bolt.Bucket → Type 0
  Fresh name s =
      (bolt.get name s ≡ uint64_to_bytes 0)
      × ((name ≡ uint64_to_bytes 0) ⊎ (bolt.get (uint64_to_bytes 0) s ≡ root))

  -- The bucket of a name is as before, or it is new and the table was not known.
  abbrev pub SameOrFresh : TableInfo bolt → TableInfo bolt → Bytes → Type 0
  SameOrFresh t t' name =
      (lookup name t'.table_chain.buckets ≡ lookup name t.table_chain.buckets)
      ⊎ ((lookup name t.tables ≡ none)
          × ((s : bolt.Bucket) × (lookup name t'.table_chain.buckets ≡ some s) × Fresh name s))

  -- The table was known before, or it has a bucket now.
  abbrev pub HasBucket : TableInfo bolt → TableInfo bolt → Bytes → Type 0
  HasBucket t t' name =
      ((perms : Permissions) × (lookup name t.tables ≡ some perms))
      ⊎ ((s : bolt.Bucket) × (lookup name t'.table_chain.buckets ≡ some s))

  -- A table that is known now was known before, or it has a bucket; and the buckets are as before, or
  -- they are new and of tables that were not known.
  abbrev pub Opens : TableInfo bolt → TableInfo bolt → Type 0
  Opens t t' =
      ((name : Bytes) → (lookup name t'.tables ≡ none) ⊎ HasBucket t t' name)
      × ((name : Bytes) → SameOrFresh t t' name)

  abbrev Opened : TableInfo bolt → TableInfo bolt → Type 0
  Opened t t' = Opens t t' × ((j : Bytes) → lookup j t'.tables ≡ none → lookup j t.tables ≡ none)

  create_bucket-Fresh :
      (name : Bytes) (s : bolt.Bucket)
      → name ≢ []
      → length name ≤ max_key_size
      → first_entries bolt name ≡ some s
      → Fresh name s
  create_bucket-Fresh name s ne short e =
      let (s', e', last, first) = first_entries_total bolt name ne short in
      let same : s' ≡ s = some_inj.0 (sym e' ∙ e) in
      subst (Fresh name) same (
        last,
        elim (Bool-cases (equal name (uint64_to_bytes 0))) [
          | inl k ↦ inl (equal_sound name _ k)
          | inr k ↦ inr (
              first (λ x.
                let all = equal_refl (uint64_to_bytes 0) in
                let no : equal name (uint64_to_bytes 0) ≡ true =
                  ap (λ n. equal n (uint64_to_bytes 0)) x ∙ all in
                let clash : true ≡ false = sym no ∙ k in cc))
        ],
      )

  -- A table that the step leaves as it was.
  known_or_not :
      (t t' : TableInfo bolt) (j : Bytes)
      → lookup j t'.tables ≡ lookup j t.tables
      → (lookup j t'.tables ≡ none) ⊎ HasBucket t t' j
  known_or_not t t' j same = elim (Option-cases (lookup j t.tables)) [
    | inl e ↦ inl (same ∙ e)
    | inr (perms, e) ↦ inr (inl (perms, e))
  ]

  Opened-new :
      (t : TableInfo bolt) (tx : TableTransaction) (perms : Permissions) (s : bolt.Bucket)
      → lookup tx.table t.tables ≡ none
      → Fresh tx.table s
      → Opened t (record {
        tables = insert tx.table perms t.tables;
        table_chain = record t.table_chain { buckets = insert tx.table s t.table_chain.buckets };
      })
  Opened-new t tx perms s e fresh = (
    (
      λ j. elim (Bool-cases (equal tx.table j)) [
        | inl k ↦ inr (
            inr (
              s,
              lookup-insert tx.table j s t.table_chain.buckets
                  ∙ ap (λ b. if b then some s else lookup j t.table_chain.buckets) k,
            ))
        | inr k ↦
            known_or_not t
              (record t {
                tables = insert tx.table perms t.tables;
                table_chain = record t.table_chain {
                  buckets = insert tx.table s t.table_chain.buckets;
                };
              })
              j
              (lookup-insert tx.table j perms t.tables
                ∙ ap (λ b. if b then some perms else lookup j t.tables) k)
      ],
      λ j. elim (Bool-cases (equal tx.table j)) [
        | inl k ↦
            let same = equal_sound tx.table j k in
            inr (
              subst (λ n. lookup n t.tables ≡ none) same e,
              (
                s,
                lookup-insert tx.table j s t.table_chain.buckets
                    ∙ ap (λ b. if b then some s else lookup j t.table_chain.buckets) k,
                subst (λ n. Fresh n s) same fresh,
              ),
            )
        | inr k ↦ inl (
            lookup-insert tx.table j s t.table_chain.buckets
            ∙ ap (λ b. if b then some s else lookup j t.table_chain.buckets) k)
      ],
    ),
    λ j missing. (lookup-insert-none tx.table j perms t.tables missing).1,
  )

  up_date_by_transaction-Opened :
      (t t' : TableInfo bolt) (tx : TableTransaction) (o : Option Permissions)
      → WellFormed tx
      → InStep t
      → lookup tx.table t.tables ≡ o
      → up_date_by_transaction bolt t tx o ≡ some t'
      → Opened t t'
  up_date_by_transaction-Opened t t' tx none wf step e made =
      let (perms, e1, _) = grant_all-level_in [] tx.permission_table wf.0 in
      let (s, e2, first) =
        create_bucket_total bolt t.table_chain tx.table wf.1 wf.2 wf.3 (step tx.table e) in
      let t1 : TableInfo bolt = record {
        tables = insert tx.table perms t.tables;
        table_chain = record t.table_chain { buckets = insert tx.table s t.table_chain.buckets };
      } in
      let computed : up_date_by_transaction bolt t tx none ≡ some t1 = rw (e2, e1) refl in
      subst (λ x. Opened t x) (some_inj.0 (sym computed ∙ made))
        (Opened-new t tx perms s e (create_bucket-Fresh tx.table s wf.1 wf.3 first))
  up_date_by_transaction-Opened t t' tx (some old) wf step e made =
      let (perms, e1, _) = grant_all-level_in old tx.permission_table wf.0 in
      let t1 : TableInfo bolt = record t { tables = insert tx.table perms t.tables } in
      let computed : up_date_by_transaction bolt t tx (some old) ≡ some t1 = rw e1 refl in
      subst (λ x. Opened t x) (some_inj.0 (sym computed ∙ made))
        (
          (
            λ j. elim (Bool-cases (equal tx.table j)) [
              | inl k ↦ inr (
                  inl (old, subst (λ n. lookup n t.tables ≡ some old) (equal_sound tx.table j k) e))
              | inr k ↦ known_or_not t t1 j (
                  lookup-insert tx.table j perms t.tables
                  ∙ ap (λ b. if b then some perms else lookup j t.tables) k)
            ],
            λ j. inl refl,
          ),
          λ j missing. (lookup-insert-none tx.table j perms t.tables missing).1,
        )

  -- One update after another.
  SameOrFresh-trans :
      (t t1 t2 : TableInfo bolt) (j : Bytes)
      → (lookup j t1.tables ≡ none → lookup j t.tables ≡ none)
      → SameOrFresh t t1 j
      → SameOrFresh t1 t2 j
      → SameOrFresh t t2 j
  SameOrFresh-trans t t1 t2 j back (inl a) (inl b) = inl (b ∙ a)
  SameOrFresh-trans t t1 t2 j back (inr (n, (s, e, f))) (inl b) = inr (n, (s, b ∙ e, f))
  SameOrFresh-trans t t1 t2 j back before (inr (n, new)) = inr (back n, new)

  HasBucket-later :
      (t t1 t2 : TableInfo bolt) (j : Bytes)
      → HasBucket t t1 j
      → SameOrFresh t1 t2 j
      → HasBucket t t2 j
  HasBucket-later t t1 t2 j (inl known) after = inl known
  HasBucket-later t t1 t2 j (inr (s, e)) (inl b) = inr (s, b ∙ e)
  HasBucket-later t t1 t2 j (inr (s, e)) (inr (n, (s', e', f))) = inr (s', e')

  Opened-trans : (t t1 t2 : TableInfo bolt) → Opened t t1 → Opened t1 t2 → Opened t t2
  Opened-trans t t1 t2 ((known, same), back) ((known', same'), back') = (
    (
      λ j. elim (known' j) [
        | inl gone ↦ inl gone
        | inr (inr bucket) ↦ inr (inr bucket)
        | inr (inl (perms, e)) ↦ elim (known j) [
          | inl gone ↦ absurd (none-ne-some perms (sym gone ∙ e))
          | inr has ↦ inr (HasBucket-later t t1 t2 j has (same' j))
        ]
      ],
      λ j. SameOrFresh-trans t t1 t2 j (back j) (same j) (same' j),
    ),
    λ j missing. back j (back' j missing),
  )

  up_date_loop-Opened :
      (t t' : TableInfo bolt) (txs seen : List TableTransaction)
      → All WellFormed txs
      → InStep t
      → InMemory t.tables seen
      → up_date_loop bolt t txs ≡ some t'
      → Opened t t'
  unfolding up_date_loop
  up_date_loop-Opened t t' [] seen wf step memory made =
      subst (λ x. Opened t x) (some_inj.0 made)
        ((λ j. known_or_not t t j refl, λ j. inl refl), λ j missing. missing)
  up_date_loop-Opened t t' (tx ∷ txs) seen wf step memory made =
      let (t1, e, step1, memory1) =
        up_date_by_transaction-Remembers bolt t tx seen (lookup tx.table t.tables) wf.0 step memory
          refl in
      let rest : up_date_loop bolt t1 txs ≡ some t' =
        sym (ap (λ o. elim o [ none ↦ none | some t'' ↦ up_date_loop bolt t'' txs ]) e) ∙ made in
      Opened-trans t t1 t'
        (up_date_by_transaction-Opened t t1 tx (lookup tx.table t.tables) wf.0 step refl e)
        (up_date_loop-Opened t1 t' txs (tx ∷ seen) wf.1 step1 memory1 rest)

  -- From a memory that holds what the transactions `seen` gave, `upDateByTables` on a block whose
  -- transactions have no empty entry and a name that bolt takes does not panic. It leaves what these
  -- transactions and then the block's gave: every table of them is known, and an address has the level
  -- of the newest entry for it. Every table that is known now and was not before has a bucket, which is
  -- new and leads from the table's name to the key 0 and from that to the root; no other bucket
  -- changes.
  pub up_date_by_tables-Opens :
      (t : TableInfo bolt) (b : TableBlock) (seen : List TableTransaction)
      → All WellFormed b.transactions
      → InStep t
      → InMemory t.tables seen
      → (t' : TableInfo bolt) × (up_date_by_tables bolt t b ≡ some t')
        × InStep t'
        × InMemory t'.tables (newest_first b.transactions seen)
        × Opens t t'
  unfolding up_date_by_tables
  up_date_by_tables-Opens t b seen wf step memory =
      let (t', e, step', memory') = up_date_by_tables-Remembers bolt t b seen wf step memory in
      (t', e, step', memory', (up_date_loop-Opened t t' b.transactions seen wf step memory e).0)
