-- ===== src/Commands/Tests.antt =====
-- The commands of server/serverFuncs_cmd_bk1.go with two users and one table.
use alg_bc_db.Prelude.{
  ◌≡◌, refl, if◌then◌else◌, inr, true, false, some, none, [], ◌∷◌, Bytes, codes, equal, equal_refl,
  lookup,
}
use alg_bc_db.Prelude.Int.{pos}
use alg_bc_db.DataChain.Signing.{Answers}
use alg_bc_db.DataChain.Samples.{sample_bolt, sample_library}
use alg_bc_db.TableChain.{TableTransaction, verify_table_transaction}
use alg_bc_db.Grpc.{table_tx_to_grpc}
use alg_bc_db.Grpc.Services.{Local, tx_received, pool_refused, table_trading_pool}
use alg_bc_db.Users.{Account, check}
use alg_bc_db.TablePool.{table_tx_in}
use alg_bc_db.Cache.{permission}
use alg_bc_db.Cache.Tables.{check_permission, no_level}
use alg_bc_db.Cache.Lru.{init_lru}
use alg_bc_db.Cache.HashChain.Samples.{data_chain, table_buckets}
use alg_bc_db.Commands.{
  Server, Signing, put_command, table_command, get_command, get_history_command,
}
use alg_bc_db.Commands.Permitted.{Stranger, Asks, commands_refuse, table_command-unknown}

abbrev account_of : Bytes → Account
account_of name = record {
  user_name = name;
  password = [];
  public_key = 1 ∷ 2 ∷ [];
  private_key = [];
  address = name;
}

-- Alice may write to the table, Bob is not in it.
abbrev server : Server sample_bolt
server = record {
  manage = record {
    effective_user =
        (codes "alice", account_of (codes "alice")) ∷ (codes "bob", account_of (codes "bob")) ∷ [];
    files = [];
  };
  cache = record {
    lru = init_lru;
    table_info = record {
      tables = (codes "t", (codes "alice", codes "3") ∷ []) ∷ [];
      table_chain = table_buckets;
    };
  };
  tx_pool = record { cur_size = 0; max_size = 5; tx_map = []; nodes = []; next_address = 0 };
  table_pool = record { cur_size = 0; max_size = 5; tx_map = []; nodes = []; next_address = 0 };
}

-- The signature is the digest itself.
abbrev env : Signing
env = record { sign_asn1 = λ a digest. digest; now = pos 5 }

env-Answers : Answers sample_library (1 ∷ 2 ∷ []) (λ digest. digest)
env-Answers digest = equal_refl digest

bob-Stranger : Stranger server (codes "bob") (codes "t")
unfolding check lookup equal permission check_permission
bob-Stranger = inr (account_of (codes "bob"), refl, refl)

commands_refuse_example :
    (put_command sample_bolt sample_library env server
        (codes "bob")
        (codes "k")
        (codes "v")
        (codes "t")
      ≡ (server, false, none))
    × (table_command sample_bolt sample_library env server
          (codes "bob")
          (codes "t")
          (codes "bob4" ∷ [])
        ≡ (server, false, none))
    × (get_command sample_bolt sample_library 3 data_chain server
          (codes "bob")
          (codes "k")
          (codes "t")
        ≡ some (server, []))
    × (get_history_command sample_bolt sample_library 3 data_chain server
          (codes "bob")
          (codes "k")
          (codes "t")
        ≡ some [])
commands_refuse_example =
    commands_refuse sample_bolt sample_library server (codes "bob") (codes "t") env 3 data_chain
      (codes "k") (codes "v") (codes "bob4" ∷ []) bob-Stranger

alice_known : check server.manage (codes "alice") ≡ some (account_of (codes "alice"))
unfolding check lookup equal
alice_known = refl

no_such_table : permission sample_bolt server.cache (codes "alice") (codes "u") ≡ (no_level, true)
unfolding permission check_permission lookup equal
no_such_table = refl

abbrev other_node : Local sample_bolt
other_node = record {
  data_chain = data_chain;
  pool = server.tx_pool;
  table_pool = server.table_pool;
  cache = server.cache;
  sub_user = pos 0;
  is_done = false;
}

table_command-unknown_example :
    (tx : TableTransaction) × (table_command sample_bolt sample_library env server
        (codes "alice")
        (codes "u")
        (codes "bob1" ∷ [])
      ≡ (record server { table_pool = (table_tx_in server.table_pool tx).0 }, true, some tx))
    × Asks env (account_of (codes "alice")) (codes "u") (codes "bob1" ∷ []) tx
    × (verify_table_transaction sample_library tx ≡ true)
    × (table_trading_pool sample_bolt sample_library other_node (table_tx_to_grpc tx) ≡ (
      record other_node { table_pool = (table_tx_in other_node.table_pool tx).0 },
      (if (table_tx_in other_node.table_pool tx).1 then tx_received else pool_refused),
    ))
    × (put_command sample_bolt sample_library env server
          (codes "alice")
          (codes "k")
          (codes "v")
          (codes "u")
        ≡ (server, false, none))
    × (get_command sample_bolt sample_library 3 data_chain server
          (codes "alice")
          (codes "k")
          (codes "u")
        ≡ some (server, []))
table_command-unknown_example =
    table_command-unknown sample_bolt sample_library server (codes "alice") (codes "u") env 3
      data_chain (account_of (codes "alice")) (codes "k") (codes "v") (codes "bob1" ∷ []) other_node
      alice_known no_such_table env-Answers
