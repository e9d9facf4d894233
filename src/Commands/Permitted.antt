-- ===== src/Commands/Permitted.antt =====
-- Who may do what with the commands of server/serverFuncs_cmd_bk1.go.
use alg_bc_db.Prelude.{
  ℕ, ◌≡◌, ◌⊎◌, inl, inr, refl, ap, ◌∙◌, Bool, if◌then◌else◌, true, false, none, some, List, [],
  Bytes, less,
}
use alg_bc_db.Bolt.{Bolt}
use alg_bc_db.DataChain.{Library}
use alg_bc_db.DataChain.Signing.{Answers}
use alg_bc_db.DataChain.Store.{BlockChain}
use alg_bc_db.TableChain.{TableTransaction, init_table_transaction, verify_table_transaction}
use alg_bc_db.Grpc.{table_tx_to_grpc}
use alg_bc_db.Grpc.Services.{
  Local, tx_received, pool_refused, tx_unverified, pooled, table_trading_pool,
}
use alg_bc_db.TableChain.Judging.{verify_table_transaction-init_table_transaction}
use alg_bc_db.Users.{Account, check}
use alg_bc_db.TablePool.{table_tx_in}
use alg_bc_db.Cache.{permission}
use alg_bc_db.Cache.Tables.{no_level}
use alg_bc_db.Commands.{
  Server, Signing, table_command, table_tx, put_command, get_command, get_history_command,
}

-- The session is unknown, or it is a user's without a level on the table, which is known.
abbrev pub Stranger : {bolt : Bolt} → Server bolt → Bytes → Bytes → Type 0
Stranger {bolt} s uid table =
    (check s.manage uid ≡ none)
    ⊎ ((a : Account) × (check s.manage uid ≡ some a)
        × (permission bolt s.cache a.address table ≡ (no_level, false)))

-- What a transaction on a table says.
abbrev pub Asks : Signing → Account → Bytes → List Bytes → TableTransaction → Type 0
Asks env a table entries tx =
    (tx.table ≡ table)
    × (tx.permission_table ≡ entries)
    × (tx.possessor ≡ a.user_name)
    × (tx.public_key ≡ a.public_key)
    × (tx.time_stamp ≡ env.now)
    × (tx.signature ≡ env.sign_asn1 a tx.tx_id)

module _ (bolt : Bolt) (lib : Library) (s : Server bolt) (uid table : Bytes) where
  pooled-lem : (b : Bool) → pooled bolt lib b ≡ (if b then tx_received else pool_refused)
  pooled-lem true = refl
  pooled-lem false = refl

  -- A session that is unknown, or whose user has no level on a known table, gets nothing from the
  -- commands: `Put` and `Table` return false, hand out no transaction and change nothing, `Get` and
  -- `GetHistory` return nothing and change nothing.
  pub commands_refuse :
      (env : Signing) (fuel : ℕ) (c : BlockChain bolt) (key value : Bytes) (entries : List Bytes)
      → Stranger s uid table
      → (put_command bolt lib env s uid key value table ≡ (s, false, none))
        × (table_command bolt lib env s uid table entries ≡ (s, false, none))
        × (get_command bolt lib fuel c s uid key table ≡ some (s, []))
        × (get_history_command bolt lib fuel c s uid key table ≡ some [])
  unfolding put_command table_command get_command get_history_command less
  commands_refuse env fuel c key value entries (inl e) =
      (rw e refl, rw e refl, rw e refl, rw e refl)
  commands_refuse env fuel c key value entries (inr (a, e, p)) =
      (rw (e, p) refl, rw (e, p) refl, rw (e, p) refl, rw (e, p) refl)

  -- On a table that the cache does not know, `Table` of any signed-in user whose keys belong together
  -- returns true, whatever entries it has. Its transaction, which has the table, exactly these entries,
  -- the user's name and public key and the time, and the signature of its id, verifies and goes to the
  -- own pool, if that is not full. It also goes to the other nodes, and each of them that gets it puts
  -- the same transaction into its pool, if that is not full. `Put` on the table returns false and `Get`
  -- nothing.
  pub table_command-unknown :
      (env : Signing) (fuel : ℕ) (c : BlockChain bolt) (a : Account) (key value : Bytes)
      (entries : List Bytes) (node : Local bolt)
      → check s.manage uid ≡ some a
      → permission bolt s.cache a.address table ≡ (no_level, true)
      → Answers lib a.public_key (env.sign_asn1 a)
      → (tx : TableTransaction) × (table_command bolt lib env s uid table entries
          ≡ (record s { table_pool = (table_tx_in s.table_pool tx).0 }, true, some tx))
        × Asks env a table entries tx
        × (verify_table_transaction lib tx ≡ true)
        × (table_trading_pool bolt lib node (table_tx_to_grpc tx) ≡ (
          record node { table_pool = (table_tx_in node.table_pool tx).0 },
          (if (table_tx_in node.table_pool tx).1 then tx_received else pool_refused),
        ))
        × (put_command bolt lib env s uid key value table ≡ (s, false, none))
        × (get_command bolt lib fuel c s uid key table ≡ some (s, []))
  unfolding put_command table_command get_command init_table_transaction table_trading_pool
  table_command-unknown env fuel c a key value entries node e p answers =
      let good =
        verify_table_transaction-init_table_transaction lib table entries a.user_name a.public_key
          (env.sign_asn1 a) env.now answers in
      let tx = table_tx bolt lib env a table entries in
      (
        tx,
        rw (e, p, good) refl,
        (refl, refl, refl, refl, refl, refl),
        good,
        ap
              (λ b.
                if b
                then (
                  record node { table_pool = (table_tx_in node.table_pool tx).0 },
                  pooled bolt lib (table_tx_in node.table_pool tx).1,
                )
                else (node, tx_unverified))
              good
            ∙ ap (λ r. (record node { table_pool = (table_tx_in node.table_pool tx).0 }, r))
                (pooled-lem (table_tx_in node.table_pool tx).1),
        rw (e, p) refl,
        rw (e, p) refl,
      )
