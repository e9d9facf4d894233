-- ===== src/TableChain/Judging.antt =====
-- `Init`, `VerifyTransaction` and `CheckTableBlock` of blockchain/blockchain_table on every input.
use alg_bc_db.Prelude.{
  ℕ, ◌≡◌, refl, sym, ◌∙◌, ◌↔◌, true, none, some, List, [], ◌∷◌, map, Bytes, equal, equal_iff, All,
  arith,
}
use alg_bc_db.Prelude.Int.{ℤ}
use mathlib.Core.Option.{none-ne-some}
use alg_bc_db.Merkle.Build.{get_merkle_root-Built}
use alg_bc_db.DataChain.{Library, welcome, returns}
use alg_bc_db.DataChain.Signing.{Answers}
use alg_bc_db.DataChain.Judging.{Judged, judged, judged_valid}
use alg_bc_db.TableChain.{
  TableTransaction, TableBlock, TableGob, table_transaction_to_bytes, init_table_transaction,
  verify_table_transaction, table_merkel_root_of, verify_all_table, check_table_block,
  init_table_block, set_table_block_hash, new_table_block,
}

module _ (lib : Library) where
  abbrev pub AllVerifyTable : List TableTransaction → Type 0
  AllVerifyTable = All (λ tx. verify_table_transaction lib tx ≡ true)

  verify_all_table-All :
      (txs : List TableTransaction) → (verify_all_table lib txs ≡ true) ↔ AllVerifyTable txs
  unfolding verify_all_table
  verify_all_table-All [] = (λ _. tt, λ _. refl)
  verify_all_table-All (tx ∷ txs) = (
    λ h. (ground arith, (verify_all_table-All txs).0 (ground arith)),
    λ h. rw h.0 ((verify_all_table-All txs).1 h.1),
  )

  pub table_merkel_root_of-cons :
      (tx : TableTransaction) (txs : List TableTransaction)
      → (root : Bytes) × (table_merkel_root_of lib (tx ∷ txs) ≡ some root)
  unfolding table_merkel_root_of
  table_merkel_root_of-cons tx txs =
      let (t, e, _, _, _, _) =
        get_merkle_root-Built lib.md5 (table_transaction_to_bytes tx)
          (map table_transaction_to_bytes txs) in
      (t.hash, rw e)

  table_merkel_root_of-none :
      (txs : List TableTransaction) → table_merkel_root_of lib txs ≡ none → txs ≡ []
  table_merkel_root_of-none [] h = refl
  table_merkel_root_of-none (tx ∷ txs) h =
      let (root, e) = table_merkel_root_of-cons tx txs in absurd (none-ne-some root (sym h ∙ e))

  -- `CheckTableBlock` on every block. It returns true if the block claims the genesis block's previous
  -- hash, or if all its transactions verify and its Merkle root is theirs; false if it does not claim
  -- that and a transaction does not verify; it panics if it does not, the transactions verify and the
  -- root is another than theirs; and its recursion does not end if it does not and the block has no
  -- transactions.
  pub check_table_block-Judged :
      (b : TableBlock)
      → Judged
          (b.previous_block_hash ≡ welcome)
          (AllVerifyTable b.transactions)
          (b.transactions ≡ [])
          (table_merkel_root_of lib b.transactions)
          b.merkel_root
          (check_table_block lib b)
  unfolding check_table_block
  check_table_block-Judged b =
      judged (equal b.previous_block_hash welcome) (verify_all_table lib b.transactions)
        (table_merkel_root_of lib b.transactions) b.merkel_root
        (equal_iff b.previous_block_hash welcome) (verify_all_table-All b.transactions)
        (table_merkel_root_of-none b.transactions)

  -- What `Init` makes verifies, if the keys belong together.
  pub verify_table_transaction-init_table_transaction :
      (table : Bytes) (permission_table : List Bytes) (possessor pk : Bytes)
      (sign_asn1 : Bytes → Bytes) (now : ℤ)
      → Answers lib pk sign_asn1
      → verify_table_transaction lib
          (init_table_transaction lib table permission_table possessor pk sign_asn1 now)
        ≡ true
  unfolding verify_table_transaction init_table_transaction
  verify_table_transaction-init_table_transaction table permission_table possessor pk sign_asn1 now
        h =
      h _

  check_table_block-valid :
      (b : TableBlock)
      → AllVerifyTable b.transactions
      → table_merkel_root_of lib b.transactions ≡ some b.merkel_root
      → check_table_block lib b ≡ returns true
  unfolding check_table_block
  check_table_block-valid b a r =
      rw ((verify_all_table-All b.transactions).1 a, r)
        (judged_valid (equal b.previous_block_hash welcome) b.merkel_root)

  -- `InitBlock` on one transaction that `Init` made with keys that belong together gives a block,
  -- which `CheckTableBlock` accepts, with the given number and previous hash.
  pub check_table_block-init_table_block :
      (gob : TableGob) (table : Bytes) (permission_table : List Bytes) (possessor pk : Bytes)
      (sign_asn1 : Bytes → Bytes) (now : ℤ) (previous : Bytes) (id : ℤ) (time : ℕ)
      → Answers lib pk sign_asn1
      → let tx = init_table_transaction lib table permission_table possessor pk sign_asn1 now in
        (b : TableBlock) × (init_table_block lib gob (tx ∷ []) previous id time ≡ some b)
        × (check_table_block lib b ≡ returns true)
        × (b.id ≡ id)
        × (b.previous_block_hash ≡ previous)
  unfolding init_table_block set_table_block_hash
  check_table_block-init_table_block gob table permission_table possessor pk sign_asn1 now previous
        id time h =
      let tx = init_table_transaction lib table permission_table possessor pk sign_asn1 now in
      let (root, e) = table_merkel_root_of-cons tx [] in
      let good =
        verify_table_transaction-init_table_transaction table permission_table possessor pk
          sign_asn1 now h in
      let b = set_table_block_hash lib gob (record new_table_block {
        id = id;
        previous_block_hash = previous;
        transactions = tx ∷ [];
        merkel_root = root;
        time_stamp = time;
      }) in
      (b, rw e refl, check_table_block-valid b (good, tt) e, refl, refl)
