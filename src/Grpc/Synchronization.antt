-- ===== src/Grpc/Synchronization.antt =====
-- The synchronization of the chains in GRPC/service.go and util.go: a node sends the hash of its last
-- block, gets the blocks after it, newest first, and takes them in from the last one on.
use alg_bc_db.Prelude.{
  ℕ, zero, suc, ◌^◌, ◌<◌, ◌≡◌, ◌≢◌, refl, false, Option, none, some, List, [], ◌∷◌, ◌++◌, map,
  Bytes, equal, equal_iff, equal_refl, length, if◌then◌else◌, All, arith,
}
use alg_bc_db.Bolt.{Bolt}
use alg_bc_db.DataChain.{Block, Library}
use alg_bc_db.DataChain.Store.{BlockChain, next, add_block_to_chain}
use alg_bc_db.DataChain.Store.Linked.{RoundTrips, Holds}
use alg_bc_db.TableChain.{TableBlock, TableGob}
use alg_bc_db.TableChain.Store.{TableBlockChain, table_next, add_table_block}
use alg_bc_db.TableChain.Store.Linked.{TableRoundTrips, TableHolds, table_next-TableHolds}
use alg_bc_db.Cache.{with_table_chain, update_by_data_block, update_by_table_block}
use alg_bc_db.Cache.Lru.{◌>>=◌}
use alg_bc_db.Grpc.{
  DataBlockMessage, TableBlockMessage, block_to_grpc_data_block, grpc_data_block_to_block,
  block_to_grpc_table_block, grpc_table_block_to_block,
}
use alg_bc_db.Grpc.Transport.{stripped, arrived, grpc_table_block-whole}
use alg_bc_db.Grpc.Services.{Local}

module _ (bolt : Bolt) where
  module _ (lib : Library) where
    -- The loop of `DataBlockSynchronization` at the node that is asked. `none` is a panic, or a walk
    -- that is cut off.
    unfoldable pub collect_data :
        ℕ → BlockChain bolt → Bytes → Bytes → Option (List DataBlockMessage)
    collect_data zero c current hash = none
    collect_data (suc fuel) c current hash = elim (next bolt lib c current) [
      | none ↦ none
      | some (b, previous) ↦
          if equal b.current_block_hash hash
          then some []
          else elim (collect_data fuel c previous hash) [
            | none ↦ none
            | some rest ↦ some (block_to_grpc_data_block b ∷ rest)
          ]
    ]

    unfoldable pub data_block_synchronization :
        ℕ → BlockChain bolt → Bytes → Option (List DataBlockMessage)
    data_block_synchronization fuel c hash = collect_data fuel c c.tail_hash hash

    -- The node that asked puts a block on its chain and into its cache, without a check.
    abbrev pub put_received : Local bolt → Block → Option (Local bolt)
    put_received node b = do
      chain ← add_block_to_chain bolt lib node.data_chain b
      cache ← update_by_data_block bolt node.cache b
      some (record node { data_chain = chain; cache = cache })

    unfoldable pub receive_data : Local bolt → List DataBlockMessage → Option (Local bolt)
    receive_data node [] = some node
    receive_data node (m ∷ ms) = do
      later ← receive_data node ms
      put_received later (grpc_data_block_to_block m)

  module _ (gob : TableGob) where
    unfoldable pub collect_table :
        ℕ → TableBlockChain bolt → Bytes → Bytes → Option (List TableBlockMessage)
    collect_table zero c current hash = none
    collect_table (suc fuel) c current hash = elim (table_next bolt gob c current) [
      | none ↦ none
      | some (b, previous) ↦
          if equal b.current_block_hash hash
          then some []
          else elim (collect_table fuel c previous hash) [
            | none ↦ none
            | some rest ↦ some (block_to_grpc_table_block b ∷ rest)
          ]
    ]

    unfoldable pub table_block_synchronization :
        ℕ → TableBlockChain bolt → Bytes → Option (List TableBlockMessage)
    table_block_synchronization fuel c hash = collect_table fuel c c.tail_hash hash

    abbrev pub put_received_table : Local bolt → TableBlock → Option (Local bolt)
    put_received_table node b = do
      chain ← add_table_block bolt gob node.cache.table_info.table_chain b
      cache ← update_by_table_block bolt (with_table_chain bolt node.cache chain) b
      some (record node { cache = cache })

    unfoldable pub receive_table : Local bolt → List TableBlockMessage → Option (Local bolt)
    receive_table node [] = some node
    receive_table node (m ∷ ms) = do
      later ← receive_table node ms
      put_received_table later (grpc_table_block_to_block m)

  next-Holds :
      (lib : Library)
      → RoundTrips lib
      → (c : BlockChain bolt) (h : Bytes) (b : Block) (bs : List Block)
      → Holds bolt lib c h (b ∷ bs)
      → next bolt lib c h ≡ some (b, b.previous_block_hash)
  unfolding next
  next-Holds lib rt c h b bs w = rw (w.1, rt.ungob_gob b, next) refl

  -- The messages that come, and what the receiver makes of them.
  abbrev pub Collects : Library → List Block → Option (List DataBlockMessage) → Type 0
  Collects lib new r =
      (ms : List DataBlockMessage) × (r ≡ some ms)
      × (map grpc_data_block_to_block ms ≡ map stripped new)

  collect_data-Collects :
      (lib : Library)
      → RoundTrips lib
      → (fuel : ℕ) (c : BlockChain bolt) (h : Bytes) (new : List Block) (b : Block)
        (old : List Block)
      → length new < fuel
      → Holds bolt lib c h (new ++ b ∷ old)
      → All (λ x. (x.current_block_hash ≢ b.current_block_hash) × (x.round < 2 ^ 64)) new
      → Collects lib new (collect_data lib fuel c h b.current_block_hash)
  unfolding collect_data
  collect_data-Collects lib rt zero c h new b old f w d = absurd (omega arith)
  collect_data-Collects lib rt (suc fuel) c h [] b old f w d = (
    [],
    rw (next-Holds lib rt c h b old w, equal_refl b.current_block_hash, collect_data) refl,
    refl,
  )
  collect_data-Collects lib rt (suc fuel) c h (x ∷ new) b old f w d =
      let (ms, e, same) =
        collect_data-Collects lib rt fuel c x.previous_block_hash new b old (omega arith) w.2 d.1 in
      let other : equal x.current_block_hash b.current_block_hash ≡ false =
        ground (arith, equal_iff x.current_block_hash b.current_block_hash) in
      (
        block_to_grpc_data_block x ∷ ms,
        rw (next-Holds lib rt c h x (new ++ b ∷ old) w, other, e, collect_data) refl,
        rw (arrived x d.0.1, same) refl,
      )

  -- Asked for what comes after a block of its chain, a node with fuel for the blocks after it and one
  -- more answers without a panic. The receiver reads from the answer exactly the blocks after the one
  -- it named, newest first, without their author, seed, proof, kind of consensus and signature. This is
  -- for rounds below 2^64, where decoding undoes encoding and no later block has the hash asked for.
  pub data_block_synchronization-Collects :
      (lib : Library)
      → RoundTrips lib
      → (fuel : ℕ) (c : BlockChain bolt) (new : List Block) (b : Block) (old : List Block)
      → length new < fuel
      → Holds bolt lib c c.tail_hash (new ++ b ∷ old)
      → All (λ x. (x.current_block_hash ≢ b.current_block_hash) × (x.round < 2 ^ 64)) new
      → (ms : List DataBlockMessage) × (data_block_synchronization lib fuel c b.current_block_hash
          ≡ some ms)
        × (map grpc_data_block_to_block ms ≡ map stripped new)
  unfolding data_block_synchronization
  data_block_synchronization-Collects lib rt fuel c new b old f w d =
      collect_data-Collects lib rt fuel c c.tail_hash new b old f w d

  table_collect-whole :
      (gob : TableGob)
      → TableRoundTrips gob
      → (fuel : ℕ) (c : TableBlockChain bolt) (h end : Bytes) (new : List TableBlock)
        (b : TableBlock) (old : List TableBlock)
      → length new < fuel
      → TableHolds bolt gob c h (new ++ b ∷ old) end
      → All (λ x. x.current_block_hash ≢ b.current_block_hash) new
      → (ms : List TableBlockMessage) × (collect_table gob fuel c h b.current_block_hash ≡ some ms)
        × (map grpc_table_block_to_block ms ≡ new)
  unfolding collect_table
  table_collect-whole gob rt zero c h end new b old f w d = absurd (omega arith)
  table_collect-whole gob rt (suc fuel) c h end [] b old f w d = (
    [],
    rw
        (
          table_next-TableHolds bolt gob rt c h end b old w,
          equal_refl b.current_block_hash,
          collect_table,
        )
        refl,
    refl,
  )
  table_collect-whole gob rt (suc fuel) c h end (x ∷ new) b old f w d =
      let (ms, e, same) =
        table_collect-whole gob rt fuel c x.previous_block_hash end new b old (omega arith) w.1
          d.1 in
      let other : equal x.current_block_hash b.current_block_hash ≡ false =
        ground (arith, equal_iff x.current_block_hash b.current_block_hash) in
      (
        block_to_grpc_table_block x ∷ ms,
        rw (table_next-TableHolds bolt gob rt c h end x (new ++ b ∷ old) w, other, e, collect_table)
            refl,
        rw (grpc_table_block-whole x, same) refl,
      )

  -- The same for the blocks of tables, which come whole.
  pub table_block_synchronization-whole :
      (gob : TableGob)
      → TableRoundTrips gob
      → (fuel : ℕ) (c : TableBlockChain bolt) (end : Bytes) (new : List TableBlock) (b : TableBlock)
        (old : List TableBlock)
      → length new < fuel
      → TableHolds bolt gob c c.tail_hash (new ++ b ∷ old) end
      → All (λ x. x.current_block_hash ≢ b.current_block_hash) new
      → (ms : List TableBlockMessage) × (table_block_synchronization gob fuel c b.current_block_hash
          ≡ some ms)
        × (map grpc_table_block_to_block ms ≡ new)
  unfolding table_block_synchronization
  table_block_synchronization-whole gob rt fuel c end new b old f w d =
      table_collect-whole gob rt fuel c c.tail_hash end new b old f w d
