-- ===== src/DataChain/Judging.antt =====
-- What the checks of a block conclude: the verdict of a test for the genesis block, a loop over the
-- transactions and a comparison of Merkle roots, as `CheckDataBlock` and `CheckTableBlock` have it.
use alg_bc_db.Prelude.{
  ◌≡◌, refl, ap, sym, ◌∙◌, ◌↔◌, ◌⊎◌, ◌≢◌, inl, inr, Bool, true, false, Option, none, some, List, [],
  ◌∷◌, Bytes, equal, equal_iff, equal_sound, equal_refl, arith, if◌then◌else◌, Bool-cases, All,
}
use mathlib.Core.Option.{none-ne-some}
use alg_bc_db.DataChain.{
  Check, returns, panics, diverges, check_root, Library, Block, Transaction, welcome,
  verify_transaction, merkel_root_of, verify_all, check_data_block,
}
use alg_bc_db.DataChain.Signing.{verify_all-All, merkel_root_of-cons}

-- The verdict on a block that claims to be the genesis block if `Genesis`, whose transactions verify
-- if `Verify` and are none if `Blank`, and whose Merkle root should be `root`.
abbrev pub Judged : Type 0 → Type 0 → Type 0 → Option Bytes → Bytes → Check → Type 0
Judged Genesis Verify Blank root stated (returns true) = Genesis ⊎ (Verify × (root ≡ some stated))
Judged Genesis Verify Blank root stated (returns false) = (Genesis → ⊥) × (Verify → ⊥)
Judged Genesis Verify Blank root stated panics =
    (Genesis → ⊥) × Verify × ((r : Bytes) × (root ≡ some r) × (r ≢ stated))
Judged Genesis Verify Blank root stated diverges = (Genesis → ⊥) × Verify × Blank

module _ {Genesis Verify Blank : Type 0} where
  Judged-root :
      (root : Option Bytes) (stated : Bytes)
      → (Genesis → ⊥)
      → Verify
      → (root ≡ none → Blank)
      → Judged Genesis Verify Blank root stated (check_root stated root)
  Judged-root none stated g v blank = (g, v, blank refl)
  Judged-root (some r) stated g v blank = elim (Bool-cases (equal r stated)) [
    | inl e ↦ rw e (inr (v, ap some (equal_sound r stated e)))
    | inr e ↦ rw e (g, v, (r, refl, ground (arith, equal_iff r stated)))
  ]

  -- The verdict follows from what the two tests mean.
  pub judged :
      (genesis verify : Bool) (root : Option Bytes) (stated : Bytes)
      → ((genesis ≡ true) ↔ Genesis)
      → ((verify ≡ true) ↔ Verify)
      → (root ≡ none → Blank)
      → Judged Genesis Verify Blank root stated (
          if genesis
          then returns true
          else if verify
          then check_root stated root
          else returns false)
  judged true verify root stated g v blank = inl (g.0 refl)
  judged false true root stated g v blank =
      Judged-root root stated (λ x. let no : false ≡ true = g.1 x in cc) (v.0 refl) blank
  judged false false root stated g v blank =
      (λ x. let no : false ≡ true = g.1 x in cc, λ x. let no : false ≡ true = v.1 x in cc)

-- A valid block passes whatever it claims.
pub judged_valid :
    (genesis : Bool) (stated : Bytes)
    → (if genesis then returns true else check_root stated (some stated)) ≡ returns true
judged_valid true stated = refl
judged_valid false stated = ground (arith, equal_refl stated)

module _ (lib : Library) where
  merkel_root_of-none : (txs : List Transaction) → merkel_root_of lib txs ≡ none → txs ≡ []
  merkel_root_of-none [] h = refl
  merkel_root_of-none (tx ∷ txs) h =
      let (root, e) = merkel_root_of-cons lib tx txs in absurd (none-ne-some root (sym h ∙ e))

  -- `CheckDataBlock` on every block. It returns true if the block claims the genesis block's previous
  -- hash, or if all its transactions verify and its Merkle root is theirs; false if it does not claim
  -- that and a transaction does not verify; it panics if it does not, the transactions verify and the
  -- root is another than theirs; and its recursion does not end if it does not and the block has no
  -- transactions.
  pub check_data_block-Judged :
      (b : Block)
      → Judged
          (b.previous_block_hash ≡ welcome)
          (All (λ tx. verify_transaction lib tx ≡ true) b.transactions)
          (b.transactions ≡ [])
          (merkel_root_of lib b.transactions)
          b.merkel_root
          (check_data_block lib b)
  unfolding check_data_block
  check_data_block-Judged b =
      judged (equal b.previous_block_hash welcome) (verify_all lib b.transactions)
        (merkel_root_of lib b.transactions) b.merkel_root (equal_iff b.previous_block_hash welcome)
        (verify_all-All lib b.transactions) (merkel_root_of-none b.transactions)
