-- ===== src/TablePool/Packing/Packed.antt =====
-- What a run of `bookKeeperRun` leaves, with one transaction in a block as `init` sets it.
use mathlib.Core.List.{reverse, reverse-reverse}
use alg_bc_db.Prelude.{
  ℕ, zero, suc, ◌-◌, ◌<◌, ◌≡◌, refl, sym, ap, ◌∙◌, subst, true, false, Option, none, some,
  if◌then◌else◌, List, [], ◌∷◌, ◌++◌, append-nil, append_assoc, delete, equal, Bytes, All, length,
  arith,
}
use alg_bc_db.Prelude.Int.{ℤ, pos, ltb_ℤ, ◌+ℤ◌, ◌-ℤ◌}
use alg_bc_db.Bolt.{Bolt}
use alg_bc_db.DataChain.{Library}
use alg_bc_db.DataChain.Store.{last_hash_key}
use alg_bc_db.TableChain.{TableTransaction, TableBlock, TableGob}
use alg_bc_db.TablePool.{TableTxNode}
use alg_bc_db.Cache.Tables.Granted.{WellFormed}
use alg_bc_db.TablePool.Packing.{TxPoolTable, count_ripe, pack_block, pack_blocks, book_keeper_run}
use alg_bc_db.TablePool.Packing.Block.{Packable, chain_of, Ready, with_block, pack_block-one}

-- The blocks hold the transactions of the nodes, one each and in their order, with consecutive numbers
-- from `id` on, each linked to the one before, from the hash `h` to the hash `h'`.
abbrev pub Packed : Bytes → ℤ → List TableTxNode → List TableBlock → Bytes → ℤ → Type 0
Packed h id [] [] h' id' = (h ≡ h') × (id ≡ id')
Packed h id [] (b ∷ bs) h' id' = ⊥
Packed h id (p ∷ ps) [] h' id' = ⊥
Packed h id (p ∷ ps) (b ∷ bs) h' id' =
    (b.transactions ≡ p.1 ∷ [])
    × (b.previous_block_hash ≡ h)
    × (b.id ≡ id)
    × Packed b.current_block_hash (id +ℤ pos 1) ps bs h' id'

-- The nodes split at the limit.
abbrev pub SplitsAt : ℤ → List TableTxNode → List TableTxNode → Type 0
SplitsAt limit [] [] = Unit
SplitsAt limit [] (p ∷ ps) = ltb_ℤ p.1.time_stamp limit ≡ false
SplitsAt limit (p ∷ ps) rest = (ltb_ℤ p.1.time_stamp limit ≡ true) × SplitsAt limit ps rest

-- The transactions of the nodes, the newest in front of the seen ones.
abbrev pub memorised : List TableTxNode → List TableTransaction → List TableTransaction
memorised [] seen = seen
memorised (p ∷ ps) seen = memorised ps (p.1 ∷ seen)

-- The map without the ids of the nodes.
abbrev pub forgotten : List TableTxNode → List (Bytes × ℕ) → List (Bytes × ℕ)
forgotten [] m = m
forgotten (p ∷ ps) m = forgotten ps (delete p.1.tx_id m)

-- What a bucket gives after the blocks, one after the other.
abbrev pub written : TableGob → List TableBlock → (Bytes → Bytes) → Bytes → Bytes
written gob [] gets = gets
written gob (b ∷ bs) gets = written gob bs (with_block gob b gets)

written_same :
    (gob : TableGob) (bs : List TableBlock) (f g : Bytes → Bytes)
    → ((k : Bytes) → f k ≡ g k)
    → (k : Bytes) → written gob bs f k ≡ written gob bs g k
written_same gob [] f g e k = e k
written_same gob (b ∷ bs) f g e k =
    written_same gob bs (with_block gob b f) (with_block gob b g)
      (λ j.
        ap
          (λ v.
            if equal last_hash_key j
            then b.current_block_hash
            else if equal b.current_block_hash j
            then gob.gob_block b
            else v)
          (e j))
      k

module _ (bolt : Bolt) (lib : Library) (gob : TableGob) where
  -- One turn of the loop with one transaction in a block.
  turn_one :
      (k n : ℕ) (stop : Option (TxPoolTable bolt)) (go : ℕ → Option (TxPoolTable bolt))
      → k ≡ 1
      → (if ltb_ℤ (pos (suc n)) (pos k) then stop else go (suc n - k)) ≡ go n
  turn_one k n stop go e =
      let more : ltb_ℤ (pos (suc n)) (pos 1) ≡ false = ground arith in
      let left : suc n - 1 ≡ n = omega arith in
      ap (λ k. if ltb_ℤ (pos (suc n)) (pos k) then stop else go (suc n - k)) e
      ∙ ap (λ b. if b then stop else go (suc n - 1)) more
      ∙ ap go left

  -- What comes of a pool whose chain, cache and queue of blocks held what `Ready` says.
  abbrev pub Ran :
      TxPoolTable bolt
      → List TableTxNode
      → List TableTxNode
      → List TableTransaction
      → List TableBlock
      → Option (TxPoolTable bolt)
      → Type 0
  Ran pool ripe rest seen xs r =
      (pool' : TxPoolTable bolt) × (bs : List TableBlock) × (r ≡ some pool')
      × (pool'.table_queue.nodes ≡ reverse rest)
      × (pool'.table_queue.tx_map ≡ forgotten ripe pool.table_queue.tx_map)
      × (pool'.table_queue.cur_size ≡ pool.table_queue.cur_size - length ripe)
      × ((k : Bytes)
          → bolt.get k (chain_of bolt pool').bucket
            ≡ written gob bs (λ j. bolt.get j (chain_of bolt pool).bucket) k)
      × Packed (chain_of bolt pool).tail_hash (chain_of bolt pool).last_id ripe bs
          (chain_of bolt pool').tail_hash (chain_of bolt pool').last_id
      × Ready bolt pool' (memorised ripe seen) (xs ++ bs)

  pack_blocks-Ran :
      (fuel : ℕ) (clock : ℕ → ℕ) (pool : TxPoolTable bolt) (ripe rest : List TableTxNode)
      (seen : List TableTransaction) (xs : List TableBlock)
      → length ripe < fuel
      → reverse pool.table_queue.nodes ≡ ripe ++ rest
      → All (Packable lib gob) ripe
      → All (λ p. WellFormed p.1) ripe
      → Ready bolt pool seen xs
      → Ran pool ripe rest seen xs (pack_blocks bolt lib gob fuel clock (length ripe) pool)
  unfolding pack_blocks
  pack_blocks-Ran zero clock pool ripe rest seen xs more e fits wf ready =
      absurd (omega (arith, more))
  pack_blocks-Ran (suc fuel) clock pool [] rest seen xs more e fits wf ready = (
    pool,
    [],
    rw (ready.0) refl,
    sym (reverse-reverse pool.table_queue.nodes) ∙ ap reverse e,
    refl,
    omega arith,
    λ k. refl,
    (refl, refl),
    subst (λ ys. Ready bolt pool seen ys) (sym (append-nil xs)) ready,
  )
  pack_blocks-Ran (suc fuel) clock pool (p ∷ ps) rest seen xs more e fits wf ready =
      let (pool1, b, ran, left, ready1, txs, prev, number, tail, last, put_one, map_one, size_one) =
        pack_block-one bolt lib gob pool p (ps ++ rest) seen xs (clock (suc (length ps))) e fits.0
          wf.0 ready in
      let (pool2, bs, ran2, left2, map2, size2, put2, packed, ready2) =
        pack_blocks-Ran fuel clock pool1 ps rest (p.1 ∷ seen) (xs ++ b ∷ []) (omega (arith, more))
          (ap reverse left ∙ reverse-reverse (ps ++ rest)) fits.1 wf.1 ready1 in
      (
        pool2,
        b ∷ bs,
        turn_one pool.pack_number (length ps) (some pool)
              (λ m. elim (pack_block bolt lib gob pool (clock (suc (length ps)))) [
                | none ↦ none
                | some pool' ↦ pack_blocks bolt lib gob fuel clock m pool'
              ])
              ready.0
            ∙ ap
                (λ o. elim o [
                  | none ↦ none
                  | some pool' ↦ pack_blocks bolt lib gob fuel clock (length ps) pool'
                ])
                ran
            ∙ ran2,
        left2,
        map2 ∙ ap (forgotten ps) map_one,
        size2 ∙ ap (λ n. n - length ps) size_one ∙ omega arith,
        λ k. put2 k ∙ written_same gob bs _ _ put_one k,
        (
          txs,
          prev,
          number,
          subst
              (λ h.
                Packed h ((chain_of bolt pool).last_id +ℤ pos 1) ps bs
                  (chain_of bolt pool2).tail_hash (chain_of bolt pool2).last_id)
              tail
              (subst
                (λ id.
                  Packed (chain_of bolt pool1).tail_hash id ps bs (chain_of bolt pool2).tail_hash
                    (chain_of bolt pool2).last_id)
                last packed),
        ),
        subst (λ ys. Ready bolt pool2 (memorised ps (p.1 ∷ seen)) ys) (append_assoc xs (b ∷ []) bs)
            ready2,
      )

  length-count_ripe :
      (limit : ℤ) (ripe rest : List TableTxNode)
      → SplitsAt limit ripe rest
      → count_ripe limit (ripe ++ rest) ≡ length ripe
  unfolding count_ripe
  length-count_ripe limit [] [] w = refl
  length-count_ripe limit [] (p ∷ ps) w = rw w refl
  length-count_ripe limit (p ∷ ps) rest w = rw (w.0) (ap suc (length-count_ripe limit ps rest w.1))

  -- A run of `bookKeeperRun` with one transaction in a block, where bolt takes each block of a ripe
  -- transaction alone and the cache each transaction, ends with fuel for one more than the nodes that
  -- are older than two seconds. It packs exactly these, from the head on, one in a block: their blocks
  -- are linked to the chain's end in this order, with consecutive numbers, and the last one is the new
  -- end; the chain's bucket reads as if they were put in one after the other, each under its hash and
  -- its hash as the last; and they come in this order behind the queue of blocks. The cache holds the
  -- permissions of the old transactions and of these. The other nodes stay in the pool in their order;
  -- the pool's map loses the ids of the packed ones, and its size is lowered by their number.
  pub book_keeper_run-Ran :
      (fuel : ℕ) (now : ℤ) (clock : ℕ → ℕ) (pool : TxPoolTable bolt) (ripe rest : List TableTxNode)
      (seen : List TableTransaction) (xs : List TableBlock)
      → reverse pool.table_queue.nodes ≡ ripe ++ rest
      → SplitsAt (now -ℤ pos 2) ripe rest
      → length ripe < fuel
      → All (Packable lib gob) ripe
      → All (λ p. WellFormed p.1) ripe
      → Ready bolt pool seen xs
      → Ran pool ripe rest seen xs (book_keeper_run bolt lib gob fuel now clock pool)
  unfolding book_keeper_run
  book_keeper_run-Ran fuel now clock pool ripe rest seen xs e split more fits wf ready =
      subst (λ n. Ran pool ripe rest seen xs (pack_blocks bolt lib gob fuel clock n pool))
        (sym (ap (count_ripe (now -ℤ pos 2)) e ∙ length-count_ripe (now -ℤ pos 2) ripe rest split))
        (pack_blocks-Ran fuel clock pool ripe rest seen xs more e fits wf ready)
