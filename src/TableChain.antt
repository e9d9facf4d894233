-- ===== src/TableChain.antt =====
-- blockchain/blockchain_table: the transactions that grant permissions on the shared tables, their
-- blocks, and the chain of the blocks in the key-value store. It has the shape of the data chain.
use alg_bc_db.Prelude.{
  ℕ, zero, suc, ◌/◌, Bool, true, false, Option, none, some, List, [], ◌∷◌, ◌++◌, map, Bytes, codes,
  equal, length, take, drop, if◌then◌else◌,
}
pub mod Store
pub mod Judging
pub mod Samples
use alg_bc_db.Prelude.Int.{ℤ, pos}
use alg_bc_db.Conversions.{int64_to_bytes}
use alg_bc_db.Merkle.{get_merkle_root}
use alg_bc_db.DataChain.{Library, Check, returns, welcome, root_of, check_root}

pub record TableTransaction : Type 0 where
  pub tx_id : Bytes
  pub table : Bytes
  pub permission_table : List Bytes
  pub possessor : Bytes
  pub time_stamp : ℤ
  pub public_key : Bytes
  pub signature : Bytes

pub record TableBlock : Type 0 where
  pub id : ℤ
  pub current_block_hash : Bytes
  pub previous_block_hash : Bytes
  pub merkel_root : Bytes
  pub transactions : List TableTransaction
  pub time_stamp : ℕ

abbrev pub zero_table_transaction : TableTransaction
zero_table_transaction = record {
  tx_id = [];
  table = [];
  permission_table = [];
  possessor = [];
  time_stamp = pos 0;
  public_key = [];
  signature = [];
}

-- `NewBlock`.
abbrev pub new_table_block : TableBlock
new_table_block = record {
  id = pos 0;
  current_block_hash = [];
  previous_block_hash = [];
  merkel_root = [];
  transactions = [];
  time_stamp = 0;
}

-- `gob` on a block of this chain.
pub record TableGob : Type 0 where
  pub gob_block : TableBlock → Bytes
  pub ungob_block : Bytes → Option TableBlock

-- The permissions one after the other.
unfoldable pub join : List Bytes → Bytes
join [] = []
join (v ∷ vs) = v ++ join vs

-- `transactionsToBytes`.
unfoldable pub table_transaction_to_bytes : TableTransaction → Bytes
unfolding join
table_transaction_to_bytes tx =
    tx.tx_id
    ++ (tx.table
        ++ (join tx.permission_table
            ++ (tx.possessor ++ (int64_to_bytes tx.time_stamp ++ (tx.public_key ++ tx.signature)))))

module _ (lib : Library) where
  open lib use {md5, sha256, gob_bytes, verify_asn1}

  unfoldable pub set_table_tx_id : TableTransaction → TableTransaction
  set_table_tx_id tx = record tx { tx_id = sha256 (gob_bytes (table_transaction_to_bytes tx)) }

  unfoldable pub sign_table : (Bytes → Bytes) → TableTransaction → TableTransaction
  sign_table sign_asn1 tx = record tx { signature = sign_asn1 tx.tx_id }

  -- `Init` of a zero transaction, at the time `now`.
  unfoldable pub init_table_transaction :
      Bytes → List Bytes → Bytes → Bytes → (Bytes → Bytes) → ℤ → TableTransaction
  unfolding set_table_tx_id sign_table
  init_table_transaction table permission_table possessor public_key sign_asn1 now =
      sign_table sign_asn1 (
        set_table_tx_id (record zero_table_transaction {
          table = table;
          permission_table = permission_table;
          possessor = possessor;
          time_stamp = now;
          public_key = public_key;
        }))

  unfoldable pub verify_table_transaction : TableTransaction → Bool
  unfolding set_table_tx_id
  verify_table_transaction tx =
      let half = length tx.public_key / 2 in
      let cleared = set_table_tx_id (record tx { signature = []; tx_id = [] }) in
      verify_asn1 (take half tx.public_key) (drop half tx.public_key) cleared.tx_id tx.signature

  unfoldable pub table_merkel_root_of : List TableTransaction → Option Bytes
  table_merkel_root_of txs = root_of (get_merkle_root md5 (map table_transaction_to_bytes txs))

  unfoldable pub verify_all_table : List TableTransaction → Bool
  verify_all_table [] = true
  verify_all_table (tx ∷ txs) = if verify_table_transaction tx then verify_all_table txs else false

  -- `CheckTableBlock`.
  unfoldable pub check_table_block : TableBlock → Check
  check_table_block b =
      if equal b.previous_block_hash welcome
      then returns true
      else if verify_all_table b.transactions
      then check_root b.merkel_root (table_merkel_root_of b.transactions)
      else returns false

  module _ (gob : TableGob) where
    -- `SetBlockHash`.
    unfoldable pub set_table_block_hash : TableBlock → TableBlock
    set_table_block_hash b = record b { current_block_hash = sha256 (gob.gob_block b) }

    abbrev pub hashed_block :
        List TableTransaction → Bytes → ℤ → ℕ → Option Bytes → Option TableBlock
    hashed_block txs previous id now none = none
    hashed_block txs previous id now (some root) = some (
        set_table_block_hash (record new_table_block {
          id = id;
          previous_block_hash = previous;
          transactions = txs;
          merkel_root = root;
          time_stamp = now;
        }))

    -- `InitBlock` of a new block, at the time `now`.
    unfoldable pub init_table_block : List TableTransaction → Bytes → ℤ → ℕ → Option TableBlock
    unfolding set_table_block_hash
    init_table_block txs previous id now =
        hashed_block txs previous id now (table_merkel_root_of txs)

    unfoldable pub init_table_genesis_block : List TableTransaction → Bytes → ℤ → Option TableBlock
    unfolding set_table_block_hash
    init_table_genesis_block txs previous id =
        hashed_block txs previous id 1234567801 (table_merkel_root_of txs)
