-- ===== src/Grpc.antt =====
-- GRPC: the messages between the nodes, their conversions in util.go, and the services that take
-- blocks, transactions and nodes in. The connections are not modelled.
pub mod Transport
pub mod Services
pub mod Synchronization
mod Tests
use alg_bc_db.Prelude.{ℕ, List, map, Bytes}
use alg_bc_db.Prelude.Int.{ℤ}
use alg_bc_db.Conversions.{to_word, of_word}
use alg_bc_db.DataChain.{Transaction, Block, new_block}
use alg_bc_db.TableChain.{TableTransaction, TableBlock}

-- The messages of Proto/blockchain/server.proto, as far as the code sets their fields.
pub record DataTransactionMessage : Type 0 where
  pub tx_id : Bytes
  pub data_id : Bytes
  pub table : Bytes
  pub key : Bytes
  pub value : Bytes
  pub possessor : Bytes
  pub time_stamp : ℤ
  pub public_key : Bytes
  pub signature : Bytes

pub record TableTransactionMessage : Type 0 where
  pub tx_id : Bytes
  pub table : Bytes
  pub permission_tables : List Bytes
  pub possessor : Bytes
  pub time_stamp : ℤ
  pub public_key : Bytes
  pub signature : Bytes

pub record DataBlockMessage : Type 0 where
  pub id : ℤ
  pub current_block_hash : Bytes
  pub previous_block_hash : Bytes
  pub merkel_root : Bytes
  pub tx_info : List DataTransactionMessage
  pub time_tamp : ℕ

pub record TableBlockMessage : Type 0 where
  pub id : ℤ
  pub current_block_hash : Bytes
  pub previous_block_hash : Bytes
  pub merkel_root : Bytes
  pub tx_info : List TableTransactionMessage
  pub time_tamp : ℕ

-- The message that `SubmitDataTransaction` and `BlockToGrpcDataBlock` make of a transaction.
abbrev pub data_tx_to_grpc : Transaction → DataTransactionMessage
data_tx_to_grpc tx = record {
  tx_id = tx.tx_id;
  data_id = tx.data_id;
  table = tx.table;
  key = tx.key;
  value = tx.value;
  possessor = tx.possessor;
  time_stamp = tx.time_stamp;
  public_key = tx.public_key;
  signature = tx.signature;
}

abbrev pub grpc_data_tx_to_data_tx : DataTransactionMessage → Transaction
grpc_data_tx_to_data_tx tx = record {
  tx_id = tx.tx_id;
  data_id = tx.data_id;
  table = tx.table;
  key = tx.key;
  value = tx.value;
  possessor = tx.possessor;
  time_stamp = tx.time_stamp;
  public_key = tx.public_key;
  signature = tx.signature;
}

abbrev pub table_tx_to_grpc : TableTransaction → TableTransactionMessage
table_tx_to_grpc tx = record {
  tx_id = tx.tx_id;
  table = tx.table;
  permission_tables = tx.permission_table;
  possessor = tx.possessor;
  time_stamp = tx.time_stamp;
  public_key = tx.public_key;
  signature = tx.signature;
}

abbrev pub grpc_table_tx_to_table_tx : TableTransactionMessage → TableTransaction
grpc_table_tx_to_table_tx tx = record {
  tx_id = tx.tx_id;
  table = tx.table;
  permission_table = tx.permission_tables;
  possessor = tx.possessor;
  time_stamp = tx.time_stamp;
  public_key = tx.public_key;
  signature = tx.signature;
}

-- The round is a `uint64`, the message's id an `int64` of the same bits.
unfoldable pub block_to_grpc_data_block : Block → DataBlockMessage
block_to_grpc_data_block b = record {
  id = of_word 64 b.round;
  current_block_hash = b.current_block_hash;
  previous_block_hash = b.previous_block_hash;
  merkel_root = b.merkel_root;
  time_tamp = b.time_stamp;
  tx_info = map data_tx_to_grpc b.transactions;
}

unfoldable pub grpc_data_block_to_block : DataBlockMessage → Block
grpc_data_block_to_block m = record new_block {
  round = to_word 64 m.id;
  current_block_hash = m.current_block_hash;
  previous_block_hash = m.previous_block_hash;
  merkel_root = m.merkel_root;
  time_stamp = m.time_tamp;
  transactions = map grpc_data_tx_to_data_tx m.tx_info;
}

-- `int` and `int64` have the same range.
unfoldable pub block_to_grpc_table_block : TableBlock → TableBlockMessage
block_to_grpc_table_block b = record {
  id = b.id;
  current_block_hash = b.current_block_hash;
  previous_block_hash = b.previous_block_hash;
  merkel_root = b.merkel_root;
  time_tamp = b.time_stamp;
  tx_info = map table_tx_to_grpc b.transactions;
}

unfoldable pub grpc_table_block_to_block : TableBlockMessage → TableBlock
grpc_table_block_to_block m = record {
  id = m.id;
  current_block_hash = m.current_block_hash;
  previous_block_hash = m.previous_block_hash;
  merkel_root = m.merkel_root;
  time_stamp = m.time_tamp;
  transactions = map grpc_table_tx_to_table_tx m.tx_info;
}
