-- ===== src/Cache/Tests.antt =====
-- cache on small chains, over the sample store and encodings.
use alg_bc_db.Prelude.{ℕ, ◌≡◌, ◌↔◌, refl, some, [], ◌∷◌, List, Bytes, codes, equal, lookup, arith}
use alg_bc_db.Prelude.Int.{pos}
use alg_bc_db.DataChain.{welcome}
use alg_bc_db.DataChain.Samples.{sample_bolt}
use alg_bc_db.TableChain.{TableTransaction, TableBlock, zero_table_transaction, new_table_block}
use alg_bc_db.TableChain.Store.{TableBlockChain}
use alg_bc_db.TableChain.Store.Linked.{TableHolds}
use alg_bc_db.TableChain.Samples.{sample_gob, sample_TableRoundTrips}
use alg_bc_db.Cache.{Cache}
use alg_bc_db.Cache.Tables.{TableInfo, init_tables, check_permission, up_date_by_tables}
use alg_bc_db.Cache.Tables.Granted.{InMemory, newest_first, WellFormed, remembered, level_in}
use alg_bc_db.Cache.Tables.Memory.{InStep}
use alg_bc_db.Cache.Tables.Buckets.{Opens, up_date_by_tables-Opens}
use alg_bc_db.Cache.Tables.Restart.{without_genesis, transactions_of}
use alg_bc_db.Cache.Tables.Equivalence.{replay, Restated, restart-Restated}
use alg_bc_db.Cache.Lru.{init_lru}
use alg_bc_db.Cache.HashChain.Samples.{table as table_t, table_buckets}

-- Alice may alter the table "t"; later an entry for Bob is added, and Alice's is not repeated.
abbrev grant : Bytes → TableTransaction
grant entry = record zero_table_transaction { table = codes "t"; permission_table = entry ∷ [] }

abbrev table_genesis : TableBlock
table_genesis = record new_table_block {
  current_block_hash = 1 ∷ [];
  previous_block_hash = welcome;
}

abbrev alice_block : TableBlock
alice_block = record new_table_block {
  current_block_hash = 2 ∷ [];
  previous_block_hash = 1 ∷ [];
  transactions = grant (codes "alice4") ∷ [];
}

abbrev bob_block : TableBlock
bob_block = record new_table_block {
  current_block_hash = 3 ∷ [];
  previous_block_hash = 2 ∷ [];
  transactions = grant (codes "bob2") ∷ [];
}

abbrev table_blocks : List TableBlock
table_blocks = bob_block ∷ alice_block ∷ table_genesis ∷ []

abbrev table_chain : TableBlockChain sample_bolt
table_chain = record {
  bucket =
      (1 ∷ [], sample_gob.gob_block table_genesis)
      ∷ (2 ∷ [], sample_gob.gob_block alice_block)
      ∷ (3 ∷ [], sample_gob.gob_block bob_block)
      ∷ [];
  buckets = [];
  tail_hash = 3 ∷ [];
  last_id = pos 1;
}

table_chain-TableHolds : TableHolds sample_bolt sample_gob table_chain (3 ∷ []) table_blocks welcome
unfolding lookup equal
table_chain-TableHolds = (refl, (refl, (refl, refl)))

grant-WellFormed : (b : ℕ) (bs : Bytes) → WellFormed (grant (b ∷ bs))
grant-WellFormed b bs = ((λ e. cc, tt), λ e. cc, λ e. cc, omega arith)

restart-Restated_example :
    (t : TableInfo sample_bolt) × (replay sample_bolt
        (record { tables = []; table_chain = table_chain })
        (without_genesis table_blocks)
      ≡ some t)
    × ((tables : List (Bytes × List (Bytes × Bytes))) × (init_tables sample_bolt sample_gob 3
            table_chain
          ≡ some tables)
        × ((address table : Bytes)
            → (check_permission t.tables address table ≡ check_permission tables address table)
              ↔ Restated table address (transactions_of (without_genesis table_blocks))))
restart-Restated_example =
    restart-Restated sample_bolt sample_gob sample_TableRoundTrips 3 table_chain table_chain welcome
      table_blocks (omega arith) table_chain-TableHolds (λ e. cc, (λ e. cc, refl))
      ((grant-WellFormed _ _, tt), ((grant-WellFormed _ _, tt), tt))
      ((grant (codes "bob2"), refl), ((grant (codes "alice4"), refl), tt)) refl

-- A restart changes what Alice may do.
alice_not_Restated :
    Restated (codes "t") (codes "alice") (transactions_of (without_genesis table_blocks)) → ⊥
unfolding level_in remembered equal
alice_not_Restated h = let gone = h refl in cc

no_tables-InStep : InStep (record { tables = []; table_chain = table_chain })
unfolding lookup
no_tables-InStep name h = refl

no_tables-InMemory : InMemory [] []
unfolding lookup remembered
no_tables-InMemory table address = refl

up_date_by_tables-Opens_example :
    (t' : TableInfo sample_bolt) × (up_date_by_tables sample_bolt
        (record { tables = []; table_chain = table_chain })
        alice_block
      ≡ some t')
    × InStep t'
    × InMemory t'.tables (newest_first (grant (codes "alice4") ∷ []) [])
    × Opens sample_bolt (record { tables = []; table_chain = table_chain }) t'
up_date_by_tables-Opens_example =
    up_date_by_tables-Opens sample_bolt (record { tables = []; table_chain = table_chain })
      alice_block [] (grant-WellFormed _ _, tt) no_tables-InStep no_tables-InMemory

abbrev sample_cache : Cache sample_bolt
sample_cache = record {
  lru = init_lru;
  table_info = record { tables = []; table_chain = table_buckets };
}
