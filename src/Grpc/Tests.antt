-- ===== src/Grpc/Tests.antt =====
-- GRPC on a node with one block.
use alg_bc_db.Prelude.{◌≡◌, refl, false, some, [], ◌∷◌, List, map, equal, lookup, arith}
use alg_bc_db.Prelude.Int.{pos}
use alg_bc_db.DataChain.{Block, new_block, check_data_block}
use alg_bc_db.DataChain.Store.{BlockChain}
use alg_bc_db.DataChain.Store.Linked.{Holds}
use alg_bc_db.DataChain.Samples.{sample_bolt, sample_library, sample_RoundTrips}
use alg_bc_db.Cache.Lru.{init_lru}
use alg_bc_db.Cache.HashChain.Samples.{sample_value, value_block, data_chain, table_buckets}
use alg_bc_db.Grpc.{
  DataBlockMessage, block_to_grpc_data_block, grpc_data_block_to_block, data_tx_to_grpc,
}
use alg_bc_db.Grpc.Transport.{stripped, grpc_data_block-stripped}
use alg_bc_db.Grpc.Services.{Local}
use alg_bc_db.Grpc.Synchronization.{data_block_synchronization, data_block_synchronization-Collects}

-- A proposer, whose pools are empty.
abbrev node : Local sample_bolt
node = record {
  data_chain = data_chain;
  pool = record { cur_size = 0; max_size = 5; tx_map = []; nodes = []; next_address = 0 };
  table_pool = record { cur_size = 0; max_size = 5; tx_map = []; nodes = []; next_address = 0 };
  cache = record {
    lru = init_lru;
    table_info = record { tables = []; table_chain = table_buckets };
  };
  sub_user = pos 1;
  is_done = false;
}

-- A block whose transaction is not signed.
abbrev forged : DataBlockMessage
forged = record {
  id = pos 2;
  current_block_hash = 3 ∷ [];
  previous_block_hash = 2 ∷ [];
  merkel_root = [];
  tx_info = data_tx_to_grpc sample_value ∷ [];
  time_tamp = 0;
}

grpc_data_block-stripped_example :
    (grpc_data_block_to_block (block_to_grpc_data_block value_block) ≡ stripped value_block)
    × (check_data_block sample_library
          (grpc_data_block_to_block (block_to_grpc_data_block value_block))
        ≡ check_data_block sample_library value_block)
grpc_data_block-stripped_example = grpc_data_block-stripped sample_library value_block (omega arith)

abbrev newer_block : Block
newer_block = record new_block {
  round = 2;
  current_block_hash = 3 ∷ [];
  previous_block_hash = 2 ∷ [];
  seed = 8 ∷ [];
}

abbrev longer_chain : BlockChain sample_bolt
longer_chain = record {
  bucket =
      (2 ∷ [], sample_library.gob_block value_block)
      ∷ (3 ∷ [], sample_library.gob_block newer_block)
      ∷ [];
  tail_hash = 3 ∷ [];
  last_id = 1;
}

longer_chain-Holds :
    Holds sample_bolt sample_library longer_chain (3 ∷ []) (newer_block ∷ value_block ∷ [])
unfolding lookup equal
longer_chain-Holds = (refl, refl, (refl, refl, refl))

data_block_synchronization-Collects_example :
    (ms : List DataBlockMessage) × (data_block_synchronization sample_bolt sample_library 2
        longer_chain
        (2 ∷ [])
      ≡ some ms)
    × (map grpc_data_block_to_block ms ≡ map stripped (newer_block ∷ []))
data_block_synchronization-Collects_example =
    data_block_synchronization-Collects sample_bolt sample_library sample_RoundTrips 2 longer_chain
      (newer_block ∷ []) value_block [] (omega arith) longer_chain-Holds
      ((λ e. cc, omega arith), tt)
