-- ===== src/TablePool/Packing/Tests.antt =====
-- `bookKeeperRun` on a pool of three transactions, one of them too new.
use alg_bc_db.Prelude.{
  ◌≡◌, ◌≤◌, ◌∙◌, refl, sym, subst, ℕ, none, [], ◌∷◌, Bytes, codes, lookup, length, take,
  length-take, arith,
}
use alg_bc_db.Prelude.Int.{pos, ◌-ℤ◌}
use alg_bc_db.BlockQueue.{init}
use alg_bc_db.BlockQueue.Fifo.{init-Represents}
use alg_bc_db.DataChain.Samples.{sample_bolt, sample_library}
use alg_bc_db.TableChain.{TableTransaction, TableGob, zero_table_transaction}
use alg_bc_db.TableChain.Samples.{sample_gob}
use alg_bc_db.TablePool.{TableTxNode}
use alg_bc_db.Cache.Lru.{init_lru}
use alg_bc_db.Cache.Tables.Granted.{WellFormed, remembered}
use alg_bc_db.TablePool.Packing.{TxPoolTable, book_keeper_run}
use alg_bc_db.TablePool.Packing.Block.{Packable, Ready, init_table_block-hash}
use alg_bc_db.TablePool.Packing.Packed.{Ran, book_keeper_run-Ran}

-- An encoding of bounded size.
abbrev short_gob : TableGob
short_gob = record {
  gob_block = λ b. 7 ∷ take 100 (sample_gob.gob_block b);
  ungob_block = λ bs. none;
}

short_gob-Packable : (p : TableTxNode) → Packable sample_library short_gob p
short_gob-Packable p h id now b short made =
    let (c, hash) = init_table_block-hash sample_library short_gob (p.1 ∷ []) h id now b made in
    let size : length b.current_block_hash ≤ 101 =
      subst (λ k. length k ≤ 101) (sym hash)
        (omega (arith, length-take 100 (sample_gob.gob_block c))) in
    (
      λ e. let empty : short_gob.gob_block c ≡ [] = sym hash ∙ e in cc,
      omega (arith, size),
      omega (arith, length-take 100 (sample_gob.gob_block b)),
    )

abbrev waiting : Bytes → ℕ → TableTransaction
waiting entry time = record zero_table_transaction {
  tx_id = entry;
  table = codes "t";
  permission_table = entry ∷ [];
  time_stamp = pos time;
}

waiting-WellFormed : (b : ℕ) (bs : Bytes) (time : ℕ) → WellFormed (waiting (b ∷ bs) time)
waiting-WellFormed b bs time = ((λ e. cc, tt), λ e. cc, λ e. cc, omega arith)

abbrev old : TableTxNode
old = (0, waiting (codes "alice4") 3)

abbrev mid : TableTxNode
mid = (1, waiting (codes "bob2") 5)

abbrev new : TableTxNode
new = (2, waiting (codes "carol1") 9)

abbrev pool : TxPoolTable sample_bolt
pool = record {
  table_queue = record {
    cur_size = 3;
    max_size = 10;
    tx_map = (codes "alice4", 0) ∷ (codes "bob2", 1) ∷ (codes "carol1", 2) ∷ [];
    nodes = new ∷ mid ∷ old ∷ [];
    next_address = 3;
  };
  pack_number = 1;
  cache = record {
    lru = init_lru;
    table_info = record {
      tables = [];
      table_chain = record { bucket = []; buckets = []; tail_hash = 1 ∷ []; last_id = pos 1 };
    };
  };
  block_queue = init;
}

pool-Ready : Ready sample_bolt pool [] []
unfolding lookup remembered
pool-Ready = (refl, λ name h. refl, λ table address. refl, init-Represents _, omega arith)

-- The two transactions that are old enough are packed.
book_keeper_run-Ran_example :
    Ran sample_bolt sample_library short_gob pool
      (old ∷ mid ∷ [])
      (new ∷ [])
      []
      []
      (book_keeper_run sample_bolt sample_library short_gob 3 (pos 10) (λ n. n) pool)
unfolding ◌-ℤ◌
book_keeper_run-Ran_example =
    book_keeper_run-Ran sample_bolt sample_library short_gob 3 (pos 10) (λ n. n) pool
      (old ∷ mid ∷ []) (new ∷ []) [] [] refl (refl, (refl, refl)) (omega arith)
      (short_gob-Packable old, (short_gob-Packable mid, tt))
      (waiting-WellFormed _ _ 3, (waiting-WellFormed _ _ 5, tt)) pool-Ready
