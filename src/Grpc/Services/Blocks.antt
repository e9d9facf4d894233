-- ===== src/Grpc/Services/Blocks.antt =====
-- `DistributeDataBlock` of GRPC/service.go, through the chain, the pool and the cache.
use alg_bc_db.Prelude.{◌≡◌, ◌⊎◌, true, false, some, List, Bytes, All}
use alg_bc_db.Prelude.Int.{pos, ltb_ℤ}
use alg_bc_db.Bolt.{Bolt}
use alg_bc_db.DataChain.{Block, Library}
use alg_bc_db.TxPool.{TxQueue, ordinary_run}
use alg_bc_db.Cache.{Cache}
use alg_bc_db.Cache.HashChain.Chained.{IsLink}
use alg_bc_db.Cache.HashChain.Blocks.{AllChained, HasBucket, HasRoom}
use alg_bc_db.Grpc.Services.{Local}

module _ (bolt : Bolt) (lib : Library) where
  -- The node proposes, or its pool knows the transactions.
  abbrev pub PoolReady : Local bolt → Block → Type 0
  PoolReady node b =
      (ltb_ℤ (pos 0) node.sub_user ≡ true)
      ⊎ ((ltb_ℤ (pos 0) node.sub_user ≡ false)
          × ((q : TxQueue) × (ordinary_run node.pool b.transactions ≡ some q)))

  -- What the cache needs to take the block in, and the lists of hashes that it holds before.
  abbrev pub CacheReady : Local bolt → Block → (Bytes → List Bytes) → Type 0
  CacheReady node b hashes =
      All (λ tx. HasBucket bolt node.cache.table_info.table_chain tx.table) b.transactions
      × IsLink b.current_block_hash
      × HasRoom bolt b.current_block_hash hashes
      × AllChained bolt node.cache.table_info.table_chain hashes
