-- ===== src/ServerExec/Tests.antt =====
-- `Cmd` for a client whose session is unknown.
use alg_bc_db.Prelude.{refl, true, none, [], ◌∷◌, ◌≡◌, codes, lookup}
use alg_bc_db.Prelude.Int.{pos}
use alg_bc_db.DataChain.Samples.{sample_bolt, sample_library}
use alg_bc_db.Users.{check}
use alg_bc_db.Cache.Lru.{init_lru}
use alg_bc_db.Cache.HashChain.Samples.{data_chain, table_buckets}
use alg_bc_db.Commands.{Server}
use alg_bc_db.ServerExec.{CommandRequest, World, cmd, split_from}
use alg_bc_db.ServerExec.Refusing.{Gets, cmd-Quiet}

abbrev server : Server sample_bolt
server = record {
  manage = record { effective_user = []; files = [] };
  cache = record {
    lru = init_lru;
    table_info = record { tables = []; table_chain = table_buckets };
  };
  tx_pool = record { cur_size = 0; max_size = 5; tx_map = []; nodes = []; next_address = 0 };
  table_pool = record { cur_size = 0; max_size = 5; tx_map = []; nodes = []; next_address = 0 };
}

abbrev world : World sample_bolt
world = record {
  codecs = record {
    sha256 = λ xs. xs;
    ripemd160 = λ xs. xs;
    base58 = λ xs. xs;
    gob_account = λ a. a.user_name;
    ungob_account = λ xs. none;
  };
  library = sample_library;
  new_key = none;
  saves = true;
  reads = true;
  signing = record { sign_asn1 = λ a digest. digest; now = pos 5 };
  data_chain = data_chain;
  fuel = 3;
  sleep = λ s. s;
}

-- It asks for everything at once.
abbrev request : CommandRequest
request = record {
  login_account = [];
  login_password = [];
  register_account = [];
  register_password = [];
  client_ip = [];
  server_password = codes "123";
  search_content = [];
  logout_ing = codes "x";
  tabel_name = codes "t";
  permission_table = codes "carol4,dave1";
  key = codes "k";
  value = codes "v";
  view_myinfo = codes "x";
  uid = codes "carol";
}

entries_split : split_from [] (codes "carol4,dave1") ≡ codes "carol4" ∷ codes "dave1" ∷ []
unfolding split_from
entries_split = refl

carol_unknown : check server.manage (codes "carol") ≡ none
unfolding check lookup
carol_unknown = refl

cmd-Quiet_example :
    Gets sample_bolt world request [] server (cmd sample_bolt world request server [])
cmd-Quiet_example =
    cmd-Quiet sample_bolt world request [] server refl refl carol_unknown carol_unknown
