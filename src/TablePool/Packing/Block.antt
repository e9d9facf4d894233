-- ===== src/TablePool/Packing/Block.antt =====
-- One turn of the loop of `bookKeeperRun`, with one transaction in a block as `init` sets it.
use mathlib.Core.Option.{none-ne-some, some_inj}
use mathlib.Core.List.{reverse}
use alg_bc_db.Prelude.{
  ℕ, ◌≤◌, ◌≡◌, ◌≢◌, refl, sym, ap, ◌∙◌, subst, Option, none, some, true, false, ◌-◌, inl, inr,
  Bool-cases, if◌then◌else◌, equal, equal_refl, equal_sound, delete, List, [], ◌∷◌, ◌++◌, Bytes,
  All, length, arith,
}
use alg_bc_db.Prelude.Int.{ℤ, pos, ◌+ℤ◌}
use alg_bc_db.Bolt.{Bolt, max_key_size, max_value_size}
use alg_bc_db.BlockQueue.{Queue, put}
use alg_bc_db.BlockQueue.Fifo.{Represents, put-Represents}
use alg_bc_db.DataChain.{Library}
use alg_bc_db.DataChain.Store.{last_hash_key}
use alg_bc_db.TableChain.{
  TableTransaction, TableBlock, TableGob, new_table_block, hashed_block, table_merkel_root_of,
  init_table_block, set_table_block_hash,
}
use alg_bc_db.TableChain.Judging.{table_merkel_root_of-cons}
use alg_bc_db.TableChain.Store.{TableBlockChain, add_table_block, put_table_block}
use alg_bc_db.TablePool.{TableTxNode, TableQueue}
use alg_bc_db.Cache.{with_table_chain, update_by_table_block}
use alg_bc_db.Cache.Tables.{TableInfo, up_date_by_tables}
use alg_bc_db.Cache.Tables.Granted.{InMemory, WellFormed, newest_first}
use alg_bc_db.Cache.Tables.Memory.{InStep, up_date_by_tables-Remembers}
use alg_bc_db.Cache.Tables.Ends.{up_date_by_tables-SameEnd}
use alg_bc_db.TablePool.Packing.{
  TxPoolTable, take_txs, forget, next_id, publish, pack_taken, pack_block,
}

module _ (lib : Library) (gob : TableGob) where
  -- bolt takes every block that `InitBlock` makes of the transaction alone.
  abbrev pub Packable : TableTxNode → Type 0
  Packable p =
      (h : Bytes) (id : ℤ) (now : ℕ) (b : TableBlock)
      → length h ≤ max_key_size
      → init_table_block lib gob (p.1 ∷ []) h id now ≡ some b
      → (b.current_block_hash ≢ [])
        × (length b.current_block_hash ≤ max_key_size)
        × (length (gob.gob_block b) ≤ max_value_size)

  hashed_block-hash :
      (txs : List TableTransaction) (h : Bytes) (id : ℤ) (now : ℕ) (o : Option Bytes)
      (b : TableBlock)
      → hashed_block lib gob txs h id now o ≡ some b
      → (c : TableBlock) × (b.current_block_hash ≡ lib.sha256 (gob.gob_block c))
  unfolding set_table_block_hash
  hashed_block-hash txs h id now none b e = absurd (none-ne-some b e)
  hashed_block-hash txs h id now (some root) b e =
      (_, ap TableBlock.current_block_hash (sym (some_inj.0 e)))

  -- The hash of a block is one of the library's.
  pub init_table_block-hash :
      (txs : List TableTransaction) (h : Bytes) (id : ℤ) (now : ℕ) (b : TableBlock)
      → init_table_block lib gob txs h id now ≡ some b
      → (c : TableBlock) × (b.current_block_hash ≡ lib.sha256 (gob.gob_block c))
  unfolding init_table_block
  init_table_block-hash txs h id now b e =
      hashed_block-hash txs h id now (table_merkel_root_of lib txs) b e

module _ (bolt : Bolt) where
  abbrev pub chain_of : TxPoolTable bolt → TableBlockChain bolt
  chain_of pool = pool.cache.table_info.table_chain

  -- One transaction in a block, a hash at the chain's end that bolt takes, and a cache and a queue of
  -- blocks that hold what they should.
  abbrev pub Ready : TxPoolTable bolt → List TableTransaction → List TableBlock → Type 0
  Ready pool seen xs =
      (pool.pack_number ≡ 1)
      × InStep pool.cache.table_info
      × InMemory pool.cache.table_info.tables seen
      × Represents pool.block_queue xs
      × (length (chain_of pool).tail_hash ≤ max_key_size)

-- What a bucket gives for a key after a block: under the mark of the last hash the block's hash, under
-- that hash the block, and else what it gave before.
abbrev pub with_block : TableGob → TableBlock → (Bytes → Bytes) → Bytes → Bytes
with_block gob b gets k =
    if equal last_hash_key k
    then b.current_block_hash
    else if equal b.current_block_hash k
    then gob.gob_block b
    else gets k

module _ (bolt : Bolt) (lib : Library) (gob : TableGob) where
  get-put :
      (k j v : Bytes) (s s' : bolt.Bucket)
      → bolt.put k v s ≡ some s'
      → bolt.get j s' ≡ (if equal k j then v else bolt.get j s)
  get-put k j v s s' e = elim (Bool-cases (equal k j)) [
    | inl same ↦
        ap (λ i. bolt.get i s') (sym (equal_sound k j same))
        ∙ bolt.get_put_self k v s s' e
        ∙ sym (ap (λ b. if b then v else bolt.get j s) same)
    | inr other ↦
        bolt.get_put_ne k j v s s' e (λ x.
          let all = equal_refl j in
          let clash : true ≡ false = sym (ap (λ i. equal i j) x ∙ all) ∙ other in cc)
        ∙ sym (ap (λ b. if b then v else bolt.get j s) other)
  ]

  put_table_block_total :
      (s : bolt.Bucket) (b : TableBlock)
      → b.current_block_hash ≢ []
      → length b.current_block_hash ≤ max_key_size
      → length (gob.gob_block b) ≤ max_value_size
      → (s' : bolt.Bucket) × (put_table_block bolt gob s b ≡ some s')
        × ((k : Bytes) → bolt.get k s' ≡ with_block gob b (λ j. bolt.get j s) k)
  unfolding put_table_block
  put_table_block_total s b ne key value =
      let (s1, e1) = bolt.put_total b.current_block_hash (gob.gob_block b) s ne key value in
      let (s2, e2) =
        bolt.put_total last_hash_key b.current_block_hash s1 (λ e. cc) (omega arith)
          (omega arith) in
      (
        s2,
        rw (e1, put_table_block) e2,
        λ k.
            get-put last_hash_key k b.current_block_hash s1 s2 e2
            ∙ ap (λ v. if equal last_hash_key k then b.current_block_hash else v)
                (get-put b.current_block_hash k (gob.gob_block b) s s1 e1),
      )

  init_table_block-packed :
      (p : TableTxNode) (h : Bytes) (id : ℤ) (now : ℕ)
      → Packable lib gob p
      → length h ≤ max_key_size
      → (b : TableBlock) × (init_table_block lib gob (p.1 ∷ []) h id now ≡ some b)
        × (b.transactions ≡ p.1 ∷ [])
        × (b.previous_block_hash ≡ h)
        × (b.id ≡ id)
        × (length b.current_block_hash ≤ max_key_size)
        × ((s : bolt.Bucket)
            → (s' : bolt.Bucket) × (put_table_block bolt gob s b ≡ some s')
              × ((k : Bytes) → bolt.get k s' ≡ with_block gob b (λ j. bolt.get j s) k))
  unfolding init_table_block set_table_block_hash
  init_table_block-packed p h id now fits short =
      let (root, e) = table_merkel_root_of-cons lib p.1 [] in
      let b = set_table_block_hash lib gob (record new_table_block {
        id = id;
        previous_block_hash = h;
        transactions = p.1 ∷ [];
        merkel_root = root;
        time_stamp = now;
      }) in
      let made : init_table_block lib gob (p.1 ∷ []) h id now ≡ some b = rw e refl in
      let (filled, key, value) = fits h id now b short made in
      (b, made, refl, refl, refl, key, λ s. put_table_block_total s b filled key value)

  -- The step from the results of its parts.
  publish-some :
      (pool : TxPoolTable bolt) (q : TableQueue) (rest : List TableTxNode) (b : TableBlock)
      (s : bolt.Bucket) (info : TableInfo bolt) (blocks : Queue TableBlock)
      → put_table_block bolt gob (chain_of bolt pool).bucket b ≡ some s
      → let chain : TableBlockChain bolt = record (next_id bolt lib gob (chain_of bolt pool)) {
        bucket = s;
        tail_hash = b.current_block_hash;
      } in
        up_date_by_tables bolt (record pool.cache.table_info { table_chain = chain }) b ≡ some info
        → put pool.block_queue b ≡ some blocks
        → publish bolt lib gob pool q rest (some b)
          ≡ some (record pool {
            table_queue = record q { nodes = reverse rest };
            cache = record pool.cache { table_info = info };
            block_queue = blocks;
          })
  unfolding add_table_block update_by_table_block
  publish-some pool q rest b s info blocks e1 e2 e3 =
      let chain : TableBlockChain bolt = record (next_id bolt lib gob (chain_of bolt pool)) {
        bucket = s;
        tail_hash = b.current_block_hash;
      } in
      let added : add_table_block bolt gob (next_id bolt lib gob (chain_of bolt pool)) b
          ≡ some chain =
        rw (e1, add_table_block) refl in
      let cached : update_by_table_block bolt (with_table_chain bolt pool.cache chain) b
          ≡ some (record pool.cache { table_info = info }) =
        rw (e2, update_by_table_block) refl in
      rw (added, cached, e3, publish) refl

  pack_block-publish :
      (pool : TxPoolTable bolt) (p : TableTxNode) (ps : List TableTxNode) (now : ℕ)
      → pool.pack_number ≡ 1
      → reverse pool.table_queue.nodes ≡ p ∷ ps
      → pack_block bolt lib gob pool now
        ≡ publish bolt lib gob pool (forget pool.table_queue p.1) ps (
            init_table_block lib gob
              (p.1 ∷ [])
              (chain_of bolt pool).tail_hash
              (chain_of bolt pool).last_id
              now)
  unfolding pack_block take_txs
  pack_block-publish pool p ps now one e = ap (pack_taken bolt lib gob pool now) (
      ap (λ k. take_txs k pool.table_queue (reverse pool.table_queue.nodes)) one
      ∙ ap (take_txs 1 pool.table_queue) e)

  pub pack_block-one :
      (pool : TxPoolTable bolt) (p : TableTxNode) (ps : List TableTxNode)
      (seen : List TableTransaction) (xs : List TableBlock) (now : ℕ)
      → reverse pool.table_queue.nodes ≡ p ∷ ps
      → Packable lib gob p
      → WellFormed p.1
      → Ready bolt pool seen xs
      → (pool' : TxPoolTable bolt) × (b : TableBlock) × (pack_block bolt lib gob pool now
          ≡ some pool')
        × (pool'.table_queue.nodes ≡ reverse ps)
        × Ready bolt pool' (p.1 ∷ seen) (xs ++ b ∷ [])
        × (b.transactions ≡ p.1 ∷ [])
        × (b.previous_block_hash ≡ (chain_of bolt pool).tail_hash)
        × (b.id ≡ (chain_of bolt pool).last_id)
        × ((chain_of bolt pool').tail_hash ≡ b.current_block_hash)
        × ((chain_of bolt pool').last_id ≡ (chain_of bolt pool).last_id +ℤ pos 1)
        × ((k : Bytes)
            → bolt.get k (chain_of bolt pool').bucket
              ≡ with_block gob b (λ j. bolt.get j (chain_of bolt pool).bucket) k)
        × (pool'.table_queue.tx_map ≡ delete p.1.tx_id pool.table_queue.tx_map)
        × (pool'.table_queue.cur_size ≡ pool.table_queue.cur_size - 1)
  pack_block-one pool p ps seen xs now e fits wf (one, step, memory, holds, short) =
      let (b, made, txs, prev, number, key, stored) =
        init_table_block-packed p (chain_of bolt pool).tail_hash (chain_of bolt pool).last_id now
          fits short in
      let (s, put_ok, written) = stored (chain_of bolt pool).bucket in
      let chain : TableBlockChain bolt = record (next_id bolt lib gob (chain_of bolt pool)) {
        bucket = s;
        tail_hash = b.current_block_hash;
      } in
      let (info, known, step', memory') =
        up_date_by_tables-Remembers bolt (record pool.cache.table_info { table_chain = chain }) b
          seen (subst (All WellFormed) (sym txs) (wf, tt)) step memory in
      let (tail, last, bucket) =
        up_date_by_tables-SameEnd bolt (record pool.cache.table_info { table_chain = chain }) b info
          known in
      let (blocks, queued, holds') = put-Represents pool.block_queue xs b holds in
      (
        record pool {
          table_queue = record (forget pool.table_queue p.1) { nodes = reverse ps };
          cache = record pool.cache { table_info = info };
          block_queue = blocks;
        },
        b,
        pack_block-publish pool p ps now one e
            ∙ ap (publish bolt lib gob pool (forget pool.table_queue p.1) ps) made
            ∙ publish-some pool (forget pool.table_queue p.1) ps b s info blocks put_ok known
                queued,
        refl,
        (
          one,
          step',
          subst (λ txs. InMemory info.tables (newest_first txs seen)) txs memory',
          holds',
          subst (λ h. length h ≤ max_key_size) (sym tail) key,
        ),
        txs,
        prev,
        number,
        tail,
        last,
        λ k. ap (bolt.get k) bucket ∙ written k,
        refl,
        refl,
      )
