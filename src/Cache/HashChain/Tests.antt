-- ===== src/Cache/HashChain/Tests.antt =====
-- cache/table-chain.go on a table with one block in its chain.
use alg_bc_db.Prelude.{◌≡◌, Option, some, [], ◌∷◌, Bytes, codes, arith}
use alg_bc_db.DataChain.{Transaction, Block, new_block}
use alg_bc_db.DataChain.Samples.{sample_bolt, sample_library}
use alg_bc_db.Cache.HashChain.{get_in_table_hash_chain}
use alg_bc_db.Cache.HashChain.Found.{Newest, get_in_table_hash_chain-Newest}
use alg_bc_db.Cache.HashChain.Samples.{
  table, sample_value, value_block, data_chain, table_buckets, table_bucket, table_bucket-Chained,
  table_known, value_block-BlocksAt,
}

-- Two transactions of the table in one block.
abbrev next_block : Block
next_block = record new_block {
  round = 2;
  current_block_hash = 3 ∷ [];
  previous_block_hash = 2 ∷ [];
  transactions = sample_value ∷ sample_value ∷ [];
}

get_in_table_hash_chain-Newest_example :
    (r : Option (Transaction × Bytes × Bytes)) × (get_in_table_hash_chain sample_bolt sample_library
        2 data_chain table_buckets
        (codes "t-QAQ-k")
        table
      ≡ some r)
    × Newest (codes "t-QAQ-k") (value_block ∷ []) r
get_in_table_hash_chain-Newest_example =
    get_in_table_hash_chain-Newest sample_bolt sample_library 2 data_chain table_buckets
      table_bucket table ((2 ∷ []) ∷ []) (value_block ∷ []) (codes "t-QAQ-k") (omega arith)
      table_known table_bucket-Chained value_block-BlocksAt
