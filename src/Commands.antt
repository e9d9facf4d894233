-- ===== src/Commands.antt =====
-- server/serverFuncs_cmd_bk1.go: the commands of a signed-in user on the tables and their values. What
-- they print is not modelled.
pub mod Permitted
mod Tests
use alg_bc_db.Prelude.{
  ℕ, Bool, true, false, Option, none, some, List, [], ◌∷◌, ◌++◌, map, Bytes, codes, less,
  if◌then◌else◌,
}
use alg_bc_db.Prelude.Int.{ℤ}
use alg_bc_db.Bolt.{Bolt}
use alg_bc_db.DataChain.{Transaction, Library, init_transaction, verify_transaction, mark}
use alg_bc_db.DataChain.Store.{BlockChain}
use alg_bc_db.TableChain.{TableTransaction, init_table_transaction, verify_table_transaction}
use alg_bc_db.Users.{Account, UserManage, UserError, check, register, sign_in, sign_out, Codecs}
use alg_bc_db.TxPool.{TxQueue, tx_in}
use alg_bc_db.TablePool.{TableQueue, table_tx_in}
use alg_bc_db.Cache.{Cache, permission, my_tables, get_one_value}
use alg_bc_db.Cache.HashChain.{get_history_in_table_hash_chain}
use alg_bc_db.Cache.Lru.{◌>>=◌}

pub record Server (bolt : Bolt) : Type 0 where
  pub manage : UserManage
  pub cache : Cache bolt
  pub tx_pool : TxQueue
  pub table_pool : TableQueue

-- The state after a command, what it returns, and the transaction it hands to the other nodes.
abbrev pub Outcome : Bolt → Type 0 → Type 0
Outcome bolt T = Server bolt × Bool × Option T

-- What the commands take from the environment: the signature with an account's private key, and the time.
pub record Signing : Type 0 where
  pub sign_asn1 : Account → Bytes → Bytes
  pub now : ℤ

abbrev pub is_nil : Option UserError → Bool
is_nil none = true
is_nil (some e) = false

-- The answer of a command that asks for a level: no error, and not below it.
abbrev pub allows : Bytes → Bytes × Bool → Bool
allows level (held, true) = false
allows level (held, false) = if less held level then false else true

-- `Table` also goes on where there is no such table.
abbrev pub may_alter : Bytes × Bool → Bool
may_alter (held, true) = true
may_alter (held, false) = if less held (codes "4") then false else true

module _ (bolt : Bolt) where
  -- `RegisterAccount`, `SignInAccount` and `SignOutAccount`.
  unfoldable pub register_account :
      Codecs
      → Server bolt
      → Bytes
      → Bytes
      → Option (Bytes × Bytes × Bytes)
      → Bool
      → Server bolt × Bool
  register_account lib s username password key saves =
      let (umg, e) = register lib s.manage username password key saves in
      (record s { manage = umg }, is_nil e)

  unfoldable pub sign_in_account : Codecs → Server bolt → Bytes → Bytes → Bool → Server bolt × Bool
  sign_in_account lib s username password reads =
      let (umg, e) = sign_in lib s.manage username password reads in
      (record s { manage = umg }, is_nil e)

  unfoldable pub sign_out_account : Server bolt → Bytes → Server bolt × Bool
  sign_out_account s id =
      let (umg, e) = sign_out s.manage id in (record s { manage = umg }, is_nil e)

  -- `CheckAccount`: the address, or nothing.
  abbrev pub address_or_empty : Option Account → Bytes
  address_or_empty none = []
  address_or_empty (some a) = a.address

  unfoldable pub check_account : Server bolt → Bytes → Bytes
  check_account s uid = address_or_empty (check s.manage uid)

  -- `MyTable`: the names of the tables.
  abbrev pub names_of : Option (List (Bytes × Bytes)) → List Bytes
  names_of none = []
  names_of (some tables) = map (λ p. p.0) tables

  abbrev pub tables_of : Server bolt → Option Account → List Bytes
  tables_of s none = []
  tables_of s (some a) = names_of (my_tables bolt s.cache a.address)

  unfoldable pub my_table : Server bolt → Bytes → List Bytes
  my_table s uid = tables_of s (check s.manage uid)

  module _ (lib : Library) (env : Signing) where
    -- A transaction that verifies goes to the pool, whether that takes it or not, and to the others.
    abbrev pub submit_table : Server bolt → TableTransaction → Bool → Outcome bolt TableTransaction
    submit_table s tx true =
        (record s { table_pool = (table_tx_in s.table_pool tx).0 }, true, some tx)
    submit_table s tx false = (s, false, none)

    abbrev pub table_tx : Account → Bytes → List Bytes → TableTransaction
    table_tx a table permission_table =
        init_table_transaction lib table permission_table a.user_name a.public_key (env.sign_asn1 a)
          env.now

    abbrev pub alter_table :
        Server bolt → Bytes → List Bytes → Account → Bool → Outcome bolt TableTransaction
    alter_table s table permission_table a true =
        let tx = table_tx a table permission_table in
        submit_table s tx (verify_table_transaction lib tx)
    alter_table s table permission_table a false = (s, false, none)

    abbrev pub table_of :
        Server bolt → Bytes → List Bytes → Option Account → Outcome bolt TableTransaction
    table_of s table permission_table none = (s, false, none)
    table_of s table permission_table (some a) =
        alter_table s table permission_table a (may_alter (permission bolt s.cache a.address table))

    -- `Table`.
    unfoldable pub table_command :
        Server bolt → Bytes → Bytes → List Bytes → Outcome bolt TableTransaction
    table_command s uid table permission_table =
        table_of s table permission_table (check s.manage uid)

    abbrev pub submit_data : Server bolt → Transaction → Bool → Outcome bolt Transaction
    submit_data s tx true = (record s { tx_pool = (tx_in s.tx_pool tx).0 }, true, some tx)
    submit_data s tx false = (s, false, none)

    abbrev pub data_tx : Account → Bytes → Bytes → Bytes → Transaction
    data_tx a key value table =
        init_transaction lib table key value a.user_name a.public_key (env.sign_asn1 a) env.now

    abbrev pub write_value :
        Server bolt → Bytes → Bytes → Bytes → Account → Bool → Outcome bolt Transaction
    write_value s key value table a true =
        let tx = data_tx a key value table in submit_data s tx (verify_transaction lib tx)
    write_value s key value table a false = (s, false, none)

    abbrev pub put_of :
        Server bolt → Bytes → Bytes → Bytes → Option Account → Outcome bolt Transaction
    put_of s key value table none = (s, false, none)
    put_of s key value table (some a) =
        write_value s key value table a
          (allows (codes "3") (permission bolt s.cache a.address table))

    -- `Put`.
    unfoldable pub put_command :
        Server bolt → Bytes → Bytes → Bytes → Bytes → Outcome bolt Transaction
    put_command s uid key value table = put_of s key value table (check s.manage uid)

  module _ (lib : Library) where
    abbrev pub value_of : Option Transaction → Bytes
    value_of none = []
    value_of (some tx) = tx.value

    -- `Get` once the level is checked: it changes the queues of the cache. `none` is a panic.
    abbrev pub read_value :
        ℕ → BlockChain bolt → Server bolt → Bytes → Bytes → Bool → Option (Server bolt × Bytes)
    read_value fuel c s key table false = some (s, [])
    read_value fuel c s key table true = do
      (cache, r) ← get_one_value bolt lib fuel c s.cache (table ++ (mark ++ key)) table
      some (record s { cache = cache }, value_of r)

    abbrev pub get_of :
        ℕ
        → BlockChain bolt
        → Server bolt
        → Bytes
        → Bytes
        → Option Account
        → Option (Server bolt × Bytes)
    get_of fuel c s key table none = some (s, [])
    get_of fuel c s key table (some a) =
        read_value fuel c s key table (allows (codes "1") (permission bolt s.cache a.address table))

    unfoldable pub get_command :
        ℕ → BlockChain bolt → Server bolt → Bytes → Bytes → Bytes → Option (Server bolt × Bytes)
    get_command fuel c s uid key table = get_of fuel c s key table (check s.manage uid)

    -- `GetHistory`: what it prints.
    abbrev pub listed : Option (List Transaction) → List Transaction
    listed none = []
    listed (some txs) = txs

    abbrev pub read_history :
        ℕ → BlockChain bolt → Server bolt → Bytes → Bytes → Bool → Option (List Transaction)
    read_history fuel c s key table false = some []
    read_history fuel c s key table true = do
      r ←
          get_history_in_table_hash_chain bolt lib fuel c s.cache.table_info.table_chain
            (table ++ (mark ++ key)) table
      some (listed r)

    abbrev pub history_for :
        ℕ
        → BlockChain bolt
        → Server bolt
        → Bytes
        → Bytes
        → Option Account
        → Option (List Transaction)
    history_for fuel c s key table none = some []
    history_for fuel c s key table (some a) =
        read_history fuel c s key table
          (allows (codes "1") (permission bolt s.cache a.address table))

    unfoldable pub get_history_command :
        ℕ → BlockChain bolt → Server bolt → Bytes → Bytes → Bytes → Option (List Transaction)
    get_history_command fuel c s uid key table = history_for fuel c s key table (check s.manage uid)
