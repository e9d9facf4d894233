-- ===== src/ServerExec.antt =====
-- serverExec/service.go: `Cmd`, which a remote client calls. It runs through the fields of a request and
-- calls the command of each that is there; the last reply counts.
pub mod Refusing
mod Tests
use alg_bc_db.Prelude.{
  ℕ, Bool, true, false, ◌&&◌, not, Option, none, some, List, [], ◌∷◌, ◌++◌, Bytes, codes, equal,
  ◌==◌, if◌then◌else◌,
}
use alg_bc_db.Bolt.{Bolt}
use alg_bc_db.DataChain.{Transaction, Library}
use alg_bc_db.DataChain.Store.{BlockChain}
use alg_bc_db.TableChain.{TableTransaction}
use alg_bc_db.Users.{Codecs, uid_of}
use alg_bc_db.Commands.{
  Server, Signing, Outcome, register_account, sign_in_account, sign_out_account, check_account,
  my_table, table_command, put_command, get_command,
}

pub record CommandRequest : Type 0 where
  pub login_account : Bytes
  pub login_password : Bytes
  pub register_account : Bytes
  pub register_password : Bytes
  pub client_ip : Bytes
  pub server_password : Bytes
  pub search_content : Bytes
  pub logout_ing : Bytes
  pub tabel_name : Bytes
  pub permission_table : Bytes
  pub key : Bytes
  pub value : Bytes
  pub view_myinfo : Bytes
  pub uid : Bytes

pub record CommandReply : Type 0 where
  pub login : Bytes
  pub register : Bytes
  pub server_connect : Bytes
  pub search_result : Bytes
  pub tabel_names : List Bytes
  pub uaddress : Bytes
  pub value : Bytes
  pub tabel_ok : Bytes
  pub put_ok : Bytes
  pub get_ok : Bytes
  pub logout_ok : Bytes

abbrev pub empty_reply : CommandReply
empty_reply = record {
  login = [];
  register = [];
  server_connect = [];
  search_result = [];
  tabel_names = [];
  uaddress = [];
  value = [];
  tabel_ok = [];
  put_ok = [];
  get_ok = [];
  logout_ok = [];
}

abbrev pub yes : Bytes
yes = codes "True"

abbrev pub no : Bytes
no = codes "False"

abbrev pub answer_of : Bool → Bytes
answer_of true = yes
answer_of false = no

-- The two global variables, the reply so far, and what was handed to the other nodes.
pub record Exec (bolt : Bolt) : Type 0 where
  pub server : Server bolt
  pub uid : Bytes
  pub responses : Option CommandReply
  pub table_txs : List TableTransaction
  pub data_txs : List Transaction

-- What the call takes from the environment: the library code, a new key, whether the files are written
-- and read, the signatures and the time, the chain of data blocks with a bound on the blocks that `Get`
-- visits, and what the rest of the node does to the server in the five seconds after `Table`.
pub record World (bolt : Bolt) : Type 0 where
  pub codecs : Codecs
  pub library : Library
  pub new_key : Option (Bytes × Bytes × Bytes)
  pub saves : Bool
  pub reads : Bool
  pub signing : Signing
  pub data_chain : BlockChain bolt
  pub fuel : ℕ
  pub sleep : Server bolt → Server bolt

-- `strings.Split(s, ",")`, with the piece that is open.
unfoldable pub split_from : Bytes → Bytes → List Bytes
split_from piece [] = piece ∷ []
split_from piece (b ∷ bs) =
    let rest = split_from [] bs in
    let longer = split_from (piece ++ b ∷ []) bs in if b == 44 then piece ∷ rest else longer

abbrev pub given : Bytes → Bool
given [] = false
given (b ∷ bs) = true

abbrev pub list_of : {T : Type 0} → Option T → List T
list_of none = []
list_of (some t) = t ∷ []

module _ (bolt : Bolt) (world : World bolt) where
  abbrev pub reply : Exec bolt → CommandReply → Exec bolt
  reply x r = record x { responses = some r }

  unfoldable pub connect_part : CommandRequest → Exec bolt → Exec bolt
  connect_part cmd x =
      if given cmd.server_password
      then reply x (record empty_reply {
        server_connect = answer_of (equal cmd.server_password (codes "123"));
      })
      else x

  abbrev pub logged_in : CommandRequest → Exec bolt → Server bolt × Bool → Exec bolt
  logged_in cmd x (s, true) =
      let uid = uid_of cmd.login_account cmd.login_password in
      record x {
        server = s;
        uid = uid;
        responses = some (record empty_reply { login = yes; tabel_names = my_table bolt s uid });
      }
  logged_in cmd x (s, false) = reply (record x { server = s }) (record empty_reply { login = no })

  unfoldable pub login_part : CommandRequest → Exec bolt → Exec bolt
  login_part cmd x =
      if given cmd.login_account
      then logged_in cmd x (
          sign_in_account bolt world.codecs x.server cmd.login_account cmd.login_password
            world.reads)
      else x

  abbrev pub registered : Exec bolt → Server bolt × Bool → Exec bolt
  registered x (s, ok) =
      reply (record x { server = s }) (record empty_reply { register = answer_of ok })

  unfoldable pub register_part : CommandRequest → Exec bolt → Exec bolt
  register_part cmd x =
      if given cmd.register_account
      then registered x (
          register_account bolt world.codecs x.server cmd.register_account cmd.register_password
            world.new_key world.saves)
      else x

  abbrev pub address_or_no : Bytes → Bytes
  address_or_no [] = no
  address_or_no (b ∷ bs) = b ∷ bs

  unfoldable pub view_part : CommandRequest → Exec bolt → Exec bolt
  view_part cmd x =
      if given cmd.view_myinfo
      then reply x
          (record empty_reply { uaddress = address_or_no (check_account bolt x.server cmd.uid) })
      else x

  abbrev pub logged_out : Exec bolt → Server bolt × Bool → Exec bolt
  logged_out x (s, ok) =
      reply (record x { server = s }) (record empty_reply { logout_ok = answer_of ok })

  unfoldable pub logout_part : CommandRequest → Exec bolt → Exec bolt
  logout_part cmd x =
      if given cmd.logout_ing then logged_out x (sign_out_account bolt x.server cmd.uid) else x

  -- The tables are read after the wait.
  abbrev pub table_reply : CommandRequest → Server bolt → Bool → CommandReply
  table_reply cmd s true = record empty_reply {
    tabel_ok = yes;
    tabel_names = my_table bolt s cmd.uid;
  }
  table_reply cmd s false = record empty_reply { tabel_ok = no }

  abbrev pub table_done : CommandRequest → Exec bolt → Outcome bolt TableTransaction → Exec bolt
  table_done cmd x (s, ok, tx) = record x {
    server = world.sleep s;
    responses = some (table_reply cmd (world.sleep s) ok);
    table_txs = x.table_txs ++ list_of tx;
  }

  unfoldable pub table_part : CommandRequest → Exec bolt → Exec bolt
  table_part cmd x =
      if given cmd.tabel_name && given cmd.permission_table
      then table_done cmd x (
          table_command bolt world.library world.signing x.server cmd.uid cmd.tabel_name
            (split_from [] cmd.permission_table))
      else x

  abbrev pub put_done : Exec bolt → Outcome bolt Transaction → Exec bolt
  put_done x (s, ok, tx) = record x {
    server = s;
    responses = some (record empty_reply { put_ok = answer_of ok });
    data_txs = x.data_txs ++ list_of tx;
  }

  unfoldable pub put_part : CommandRequest → Exec bolt → Exec bolt
  put_part cmd x =
      if given cmd.key && (given cmd.value && given cmd.tabel_name)
      then put_done x (
          put_command bolt world.library world.signing x.server cmd.uid cmd.key cmd.value
            cmd.tabel_name)
      else x

  abbrev pub get_reply : Bytes → CommandReply
  get_reply [] = record empty_reply { get_ok = no }
  get_reply (b ∷ bs) = record empty_reply { get_ok = yes; value = b ∷ bs }

  abbrev pub get_done : Exec bolt → Option (Server bolt × Bytes) → Option (Exec bolt)
  get_done x none = none
  get_done x (some (s, v)) = some (reply (record x { server = s }) (get_reply v))

  -- `none` is a panic.
  unfoldable pub get_part : CommandRequest → Exec bolt → Option (Exec bolt)
  get_part cmd x =
      if given cmd.key && (given cmd.tabel_name && not (given cmd.value))
      then get_done x (
          get_command bolt world.library world.fuel world.data_chain x.server cmd.uid cmd.key
            cmd.tabel_name)
      else some x

  -- `Cmd`.
  unfoldable pub cmd : CommandRequest → Server bolt → Bytes → Option (Exec bolt)
  cmd req s uid = get_part req (
      put_part req (
        table_part req (
          logout_part req (
            view_part req (
              register_part req (
                login_part req (
                  connect_part req (record {
                    server = s;
                    uid = uid;
                    responses = none;
                    table_txs = [];
                    data_txs = [];
                  }))))))))
