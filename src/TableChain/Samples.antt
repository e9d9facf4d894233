-- ===== src/TableChain/Samples.antt =====
-- An encoding of the blocks of tables, to run their chain on.
use alg_bc_db.Prelude.{refl, ap, Option, none, some, [], Bytes}
use alg_bc_db.DataChain.Samples.{
  Codec, bytes_codec, number_codec, int_codec, pair_codec, map_codec, list_codec,
}
use alg_bc_db.TableChain.{TableTransaction, TableBlock, TableGob}
use alg_bc_db.TableChain.Store.Linked.{TableRoundTrips}

abbrev table_transaction_codec : Codec TableTransaction
table_transaction_codec =
    map_codec
      (pair_codec bytes_codec (
        pair_codec bytes_codec (
          pair_codec (list_codec bytes_codec)
            (pair_codec bytes_codec (pair_codec int_codec (pair_codec bytes_codec bytes_codec))))))
      (λ t. (
        t.tx_id,
        (t.table, (t.permission_table, (t.possessor, (t.time_stamp, (t.public_key, t.signature))))),
      ))
      (λ f. record {
        tx_id = f.0;
        table = f.1.0;
        permission_table = f.1.1.0;
        possessor = f.1.1.1.0;
        time_stamp = f.1.1.1.1.0;
        public_key = f.1.1.1.1.1.0;
        signature = f.1.1.1.1.1.1;
      })
      (λ t. refl)

abbrev table_block_codec : Codec TableBlock
table_block_codec =
    map_codec
      (pair_codec int_codec (
        pair_codec bytes_codec (
          pair_codec bytes_codec (
            pair_codec bytes_codec
              (pair_codec (list_codec table_transaction_codec) number_codec)))))
      (λ b. (
        b.id,
        (
          b.current_block_hash,
          (b.previous_block_hash, (b.merkel_root, (b.transactions, b.time_stamp))),
        ),
      ))
      (λ f. record {
        id = f.0;
        current_block_hash = f.1.0;
        previous_block_hash = f.1.1.0;
        merkel_root = f.1.1.1.0;
        transactions = f.1.1.1.1.0;
        time_stamp = f.1.1.1.1.1;
      })
      (λ b. refl)

abbrev table_block_of : Option (TableBlock × Bytes) → Option TableBlock
table_block_of none = none
table_block_of (some (b, rest)) = some b

abbrev pub sample_gob : TableGob
sample_gob = record {
  gob_block = λ b. table_block_codec.encode b [];
  ungob_block = λ bs. table_block_of (table_block_codec.parse bs);
}

abbrev pub sample_TableRoundTrips : TableRoundTrips sample_gob
sample_TableRoundTrips = record {
  ungob_gob = λ b. ap table_block_of (table_block_codec.parse-encode b []);
}
