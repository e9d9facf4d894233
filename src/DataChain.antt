-- ===== src/DataChain.antt =====
-- blockchain/blockchain_data: transactions and blocks of the data chain, and the chain in the
-- key-value store. A nil slice and an empty one are one value here.
use alg_bc_db.Prelude.{
  ℕ, zero, suc, ◌+◌, ◌/◌, ◌≡◌, Bool, true, false, Option, none, some, List, [], ◌∷◌, ◌++◌, map,
  Bytes, codes, equal, length, take, drop, ltb, ◌==◌, if◌then◌else◌, lookup, insert,
}
pub mod Signing
pub mod Store
pub mod Judging
pub mod Samples
mod Tests
use alg_bc_db.Prelude.Int.{ℤ, pos}
use alg_bc_db.Conversions.{int64_to_bytes}
use alg_bc_db.Merkle.{MerkleTree, get_merkle_root}

pub record Transaction : Type 0 where
  pub tx_id : Bytes
  pub data_id : Bytes
  pub table : Bytes
  pub key : Bytes
  pub value : Bytes
  pub possessor : Bytes
  pub time_stamp : ℤ
  pub public_key : Bytes
  pub signature : Bytes

-- `Type` is 0 for a final block and 1 for a tentative one.
pub record Block : Type 0 where
  pub round : ℕ
  pub current_block_hash : Bytes
  pub previous_block_hash : Bytes
  pub merkel_root : Bytes
  pub transactions : List Transaction
  pub time_stamp : ℕ
  pub author : Bytes
  pub seed : Bytes
  pub proof : Bytes
  pub consensus : ℕ
  pub signature : Bytes

-- `Transaction{}` and `Block{}`.
abbrev pub zero_transaction : Transaction
zero_transaction = record {
  tx_id = [];
  data_id = [];
  table = [];
  key = [];
  value = [];
  possessor = [];
  time_stamp = pos 0;
  public_key = [];
  signature = [];
}

abbrev pub new_block : Block
new_block = record {
  round = 0;
  current_block_hash = [];
  previous_block_hash = [];
  merkel_root = [];
  transactions = [];
  time_stamp = 0;
  author = [];
  seed = [];
  proof = [];
  consensus = 0;
  signature = [];
}

-- What the code takes from Go's library: the hash functions, the `gob` encoding of a byte slice and
-- of a block, and `ecdsa.VerifyASN1` on the two halves of a public key, a digest and a signature.
pub record Library : Type 0 where
  pub md5 : Bytes → Bytes
  pub sha256 : Bytes → Bytes
  pub gob_bytes : Bytes → Bytes
  pub gob_block : Block → Bytes
  pub ungob_block : Bytes → Option Block
  pub verify_asn1 : Bytes → Bytes → Bytes → Bytes → Bool

-- `transactionsToBytes`.
unfoldable pub transaction_to_bytes : Transaction → Bytes
transaction_to_bytes tx =
    tx.tx_id
    ++ (tx.data_id
        ++ (tx.table
            ++ (tx.key
                ++ (tx.value
                    ++ (tx.possessor
                        ++ (int64_to_bytes tx.time_stamp ++ (tx.public_key ++ tx.signature)))))))

-- The mark between the two names of a data id and of a user id.
abbrev pub mark : Bytes
mark = codes "-QAQ-"

unfoldable pub set_data_id : Transaction → Transaction
set_data_id tx = record tx { data_id = tx.table ++ (mark ++ tx.key) }

-- The hash that stands before the genesis block.
abbrev pub welcome : Bytes
welcome = codes "welcome to 407"

abbrev pub root_of : Option MerkleTree → Option Bytes
root_of none = none
root_of (some t) = some t.hash

-- `common.HashToAddr`: the first 20 bytes.
abbrev pub hash_to_addr : Bytes → Bytes
hash_to_addr h = take 20 h

-- What the check does: it returns, or panics on a wrong Merkle root, or its recursion does not end.
pub data Check : Type 0 where
  returns : Bool → Check
  panics : Check
  diverges : Check

abbrev pub check_root : Bytes → Option Bytes → Check
check_root expected none = diverges
check_root expected (some root) = if equal root expected then returns true else panics

module _ (lib : Library) where
  open lib use {md5, sha256, gob_bytes, gob_block, ungob_block, verify_asn1}

  unfoldable pub set_tx_id : Transaction → Transaction
  set_tx_id tx = record tx { tx_id = sha256 (gob_bytes (transaction_to_bytes tx)) }

  -- `sign_asn1` is `ecdsa.SignASN1` with the user's private key.
  unfoldable pub sign : (Bytes → Bytes) → Transaction → Transaction
  sign sign_asn1 tx = record tx { signature = sign_asn1 tx.tx_id }

  -- `Init` of a zero transaction, at the time `now`.
  unfoldable pub init_transaction :
      Bytes → Bytes → Bytes → Bytes → Bytes → (Bytes → Bytes) → ℤ → Transaction
  unfolding set_data_id set_tx_id sign
  init_transaction table key value possessor public_key sign_asn1 now = sign sign_asn1 (
      set_tx_id (
        set_data_id (record zero_transaction {
          table = table;
          key = key;
          value = value;
          possessor = possessor;
          time_stamp = now;
          public_key = public_key;
        })))

  unfoldable pub verify_transaction : Transaction → Bool
  unfolding set_tx_id
  verify_transaction tx =
      let half = length tx.public_key / 2 in
      let cleared = set_tx_id (record tx { signature = []; tx_id = [] }) in
      verify_asn1 (take half tx.public_key) (drop half tx.public_key) cleared.tx_id tx.signature

  -- The Merkle root of the transactions; `none` is the recursion that does not end.
  unfoldable pub merkel_root_of : List Transaction → Option Bytes
  merkel_root_of txs = root_of (get_merkle_root md5 (map transaction_to_bytes txs))

  -- `SetBlockHash`.
  unfoldable pub set_block_hash : Block → Block
  set_block_hash b = record b { current_block_hash = sha256 (gob_block b) }

  -- `InitBlock` of a new block, at the time `now`.
  unfoldable pub init_block : List Transaction → Bytes → ℕ → ℕ → Option Block
  unfolding set_block_hash
  init_block txs previous id now = elim (merkel_root_of txs) [
    | none ↦ none
    | some root ↦
        let hashed = set_block_hash (record new_block {
          round = id;
          previous_block_hash = previous;
          transactions = txs;
          merkel_root = root;
          time_stamp = now;
        }) in
        some (record hashed { seed = sha256 []; author = hash_to_addr (sha256 []) })
  ]

  unfoldable pub init_genesis_block : List Transaction → Bytes → ℕ → Option Block
  unfolding set_block_hash
  init_genesis_block txs previous id = elim (merkel_root_of txs) [
    | none ↦ none
    | some root ↦ some (
        set_block_hash (record new_block {
          round = id;
          previous_block_hash = previous;
          transactions = txs;
          merkel_root = root;
          time_stamp = 1234567800;
        }))
  ]

  -- The loop over the transactions.
  unfoldable pub verify_all : List Transaction → Bool
  verify_all [] = true
  verify_all (tx ∷ txs) = if verify_transaction tx then verify_all txs else false

  unfoldable pub check_data_block : Block → Check
  check_data_block b =
      if equal b.previous_block_hash welcome
      then returns true
      else if verify_all b.transactions
      then check_root b.merkel_root (merkel_root_of b.transactions)
      else returns false
