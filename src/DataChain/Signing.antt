-- ===== src/DataChain/Signing.antt =====
-- Signatures and the block check of blockchain/blockchain_data: what is signed verifies, what the
-- check accepts, and what the signature does not cover.
use alg_bc_db.Prelude.{
  ℕ, ◌/◌, ◌≡◌, ◌≢◌, refl, ap, ◌↔◌, ◌⊎◌, inl, inr, true, Option, none, some, List, [], ◌∷◌, ◌++◌,
  map, append_assoc, Bytes, equal, equal_iff, equal_sound, equal_refl, length, take, drop, All,
  arith, Bool-cases,
}
use alg_bc_db.Prelude.Int.{ℤ}
use alg_bc_db.Merkle.Build.{get_merkle_root-nil, get_merkle_root-Built}
use alg_bc_db.DataChain.{
  Transaction, Block, Library, transaction_to_bytes, mark, welcome, init_transaction,
  verify_transaction, merkel_root_of, init_block, new_block, set_block_hash, hash_to_addr,
  verify_all, returns, diverges, check_root, check_data_block,
}

transaction_to_bytes-move :
    (tx : Transaction) (t u k : Bytes)
    → transaction_to_bytes (record tx { table = t ++ u; key = k })
      ≡ transaction_to_bytes (record tx { table = t; key = u ++ k })
unfolding transaction_to_bytes
transaction_to_bytes-move tx t u k = simp append_assoc

check_root-eq-true :
    (expected : Bytes) (r : Option Bytes)
    → (check_root expected r ≡ returns true) ↔ (r ≡ some expected)
check_root-eq-true expected none = (λ h. cc, λ h. cc)
check_root-eq-true expected (some root) =
    (λ h. ground (arith, equal_iff root expected), λ h. ground (arith, equal_iff root expected))

module _ (lib : Library) where
  open lib use {verify_asn1}

  -- The signer answers to the public key: the halves of the key verify every signature.
  abbrev pub Answers : Bytes → (Bytes → Bytes) → Type 0
  Answers pk sign_asn1 =
      (d : Bytes)
      → verify_asn1 (take (length pk / 2) pk) (drop (length pk / 2) pk) d (sign_asn1 d) ≡ true

  -- A transaction that `Init` makes verifies, for every pair of keys that belong together; its data
  -- id is the table's name, the mark and the key.
  pub verify_transaction-init_transaction :
      (table key value possessor pk : Bytes) (sign_asn1 : Bytes → Bytes) (now : ℤ)
      → Answers pk sign_asn1
      → let tx = init_transaction lib table key value possessor pk sign_asn1 now in
        (verify_transaction lib tx ≡ true) × (tx.data_id ≡ table ++ (mark ++ key))
  unfolding verify_transaction init_transaction
  verify_transaction-init_transaction table key value possessor pk sign_asn1 now h = (h _, refl)

  -- The signature does not say where the table's name ends and the key begins: moving bytes from
  -- one to the other leaves the verdict as it is. Nor does it cover the transaction's own id.
  pub verify_transaction_forgeable :
      (tx : Transaction) (t u k id : Bytes)
      → verify_transaction lib (record tx { table = t ++ u; key = k; tx_id = id })
        ≡ verify_transaction lib (record tx { table = t; key = u ++ k })
  unfolding verify_transaction
  verify_transaction_forgeable tx t u k id =
      ap
        (λ v.
          verify_asn1 (take (length tx.public_key / 2) tx.public_key)
            (drop (length tx.public_key / 2) tx.public_key) (lib.sha256 (lib.gob_bytes v))
            tx.signature)
        (transaction_to_bytes-move (record tx { tx_id = []; signature = [] }) t u k)

  pub verify_all-All :
      (txs : List Transaction)
      → (verify_all lib txs ≡ true) ↔ All (λ tx. verify_transaction lib tx ≡ true) txs
  unfolding verify_all
  verify_all-All [] = (λ _. tt, λ _. refl)
  verify_all-All (tx ∷ txs) = (
    λ h. (ground arith, (verify_all-All txs).0 (ground arith)),
    λ h. rw h.0 ((verify_all-All txs).1 h.1),
  )

  abbrev AllVerify : List Transaction → Type 0
  AllVerify = All (λ tx. verify_transaction lib tx ≡ true)

  check_data_block-genesis :
      (b : Block) → b.previous_block_hash ≡ welcome → check_data_block lib b ≡ returns true
  unfolding check_data_block
  check_data_block-genesis b e = rw (e, equal_refl)

  check_data_block-valid :
      (b : Block)
      → AllVerify b.transactions
      → merkel_root_of lib b.transactions ≡ some b.merkel_root
      → check_data_block lib b ≡ returns true
  unfolding check_data_block
  check_data_block-valid b a r =
      rw ((verify_all-All b.transactions).1 a, (check_root-eq-true b.merkel_root _).1 r)
        (elim (Bool-cases (equal b.previous_block_hash welcome)) [ inl e ↦ rw e | inr e ↦ rw e ])

  check_data_block_inv :
      (b : Block)
      → check_data_block lib b ≡ returns true
      → (b.previous_block_hash ≡ welcome)
        ⊎ (AllVerify b.transactions × (merkel_root_of lib b.transactions ≡ some b.merkel_root))
  unfolding check_data_block
  check_data_block_inv b h = elim (Bool-cases (equal b.previous_block_hash welcome)) [
    | inl genesis ↦ inl (equal_sound _ _ genesis)
    | inr other ↦ elim (Bool-cases (verify_all lib b.transactions)) [
      | inl good ↦ inr (
        (verify_all-All b.transactions).0 good,
        (check_root-eq-true b.merkel_root _).0 (rw (other, good) at h),
      )
      | inr bad ↦ absurd (ground arith)
    ]
  ]

  -- The check returns true exactly on a block that claims the genesis block's previous hash, and on
  -- one whose transactions all verify and whose Merkle root is that of its transactions.
  pub check_data_block-eq-true :
      (b : Block)
      → (check_data_block lib b ≡ returns true) ↔ (
          (b.previous_block_hash ≡ welcome)
          ⊎ (All (λ tx. verify_transaction lib tx ≡ true) b.transactions
              × (merkel_root_of lib b.transactions ≡ some b.merkel_root)))
  check_data_block-eq-true b = (
    check_data_block_inv b,
    λ h. elim h [
      | inl e ↦ check_data_block-genesis b e
      | inr (a, r) ↦ check_data_block-valid b a r
    ],
  )

  -- A block without transactions never passes or fails the check, unless it claims to be the
  -- genesis block: the construction of its Merkle root does not end.
  pub check_data_block-nil :
      (b : Block)
      → b.previous_block_hash ≢ welcome
      → b.transactions ≡ []
      → check_data_block lib b ≡ diverges
  unfolding check_data_block verify_all merkel_root_of
  check_data_block-nil b ne e =
      rw (e, get_merkle_root-nil lib.md5) (ground (arith, equal_iff b.previous_block_hash welcome))

  pub merkel_root_of-cons :
      (tx : Transaction) (txs : List Transaction)
      → (root : Bytes) × (merkel_root_of lib (tx ∷ txs) ≡ some root)
  unfolding merkel_root_of
  merkel_root_of-cons tx txs =
      let (t, e, _, _, _, _) =
        get_merkle_root-Built lib.md5 (transaction_to_bytes tx) (map transaction_to_bytes txs) in
      (t.hash, rw e)

  -- A block that `InitBlock` makes of one or more transactions that verify passes the check, whatever is written
  -- to the fields that are set after it.
  pub check_data_block-init_block :
      (tx : Transaction) (txs : List Transaction) (previous : Bytes) (id now : ℕ)
      → All (λ t. verify_transaction lib t ≡ true) (tx ∷ txs)
      → (b : Block) × (init_block lib (tx ∷ txs) previous id now ≡ some b)
        × ((round : ℕ) (author seed proof signature : Bytes)
            → check_data_block lib (record b {
              round = round;
              author = author;
              seed = seed;
              proof = proof;
              signature = signature;
            })
              ≡ returns true)
  unfolding init_block set_block_hash
  check_data_block-init_block tx txs previous id now h =
      let (root, e) = merkel_root_of-cons tx txs in
      let hashed = set_block_hash lib (record new_block {
        round = id;
        previous_block_hash = previous;
        transactions = tx ∷ txs;
        merkel_root = root;
        time_stamp = now;
      }) in
      (
        record hashed { seed = lib.sha256 []; author = hash_to_addr (lib.sha256 []) },
        rw (e, init_block),
        λ round author seed proof signature. check_data_block-valid _ h e,
      )
