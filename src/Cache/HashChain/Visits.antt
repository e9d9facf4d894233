-- ===== src/Cache/HashChain/Visits.antt =====
-- The loop of the searches in cache/table-chain.go, on a bucket that holds a list of hashes.
use alg_bc_db.Prelude.{
  ℕ, zero, suc, ◌+◌, ◌-◌, ◌%◌, ◌^◌, ◌<◌, ◌≡◌, refl, sym, ap, ◌∙◌, Bool, true, false, some, List, [],
  ◌∷◌, ◌++◌, append_assoc, append-nil, Bytes, equal, equal_iff, length, lookup, if◌then◌else◌,
  arith, Bool-cases, inl, inr,
}
use alg_bc_db.Conversions.{uint64_to_bytes, bytes_to_uint64}
use alg_bc_db.Bolt.{Bolt}
use alg_bc_db.DataChain.{Transaction, Block, Library}
use alg_bc_db.DataChain.Store.{BlockChain}
use alg_bc_db.TableChain.Store.{TableBlockChain}
use alg_bc_db.Cache.Tables.{root}
use alg_bc_db.Cache.HashChain.{
  add_history, history_of, non_nil_history, get_block_of, key_before, visit,
  get_history_in_table_hash_chain,
}
use alg_bc_db.Cache.HashChain.Chained.{key_round_trip, Keys, Chained}

-- The state after the blocks, up to the first after which the loop stops.
abbrev pub run_until : {S : Type 0} → (S → Block → S) → (S → Bool) → S → List Block → S
run_until body stop state [] = state
run_until body stop state (b ∷ bs) =
    let rest = run_until body stop (body state b) bs in
    if stop (body state b) then body state b else rest

module _ (bolt : Bolt) (lib : Library) where
  -- The data chain has these blocks under these hashes.
  abbrev pub BlocksAt : BlockChain bolt → List Bytes → List Block → Type 0
  BlocksAt c [] [] = Unit {0}
  BlocksAt c [] (b ∷ bs) = ⊥
  BlocksAt c (h ∷ hs) [] = ⊥
  BlocksAt c (h ∷ hs) (b ∷ bs) = (get_block_of bolt lib c h ≡ some b) × BlocksAt c hs bs

  key_before-suc :
      (n : ℕ) → suc n < 2 ^ 64 → key_before bolt lib (some (suc n)) ≡ some (uint64_to_bytes n)
  key_before-suc n h =
      let back : (suc n + (2 ^ 64 - 1)) % 2 ^ 64 ≡ n = omega arith in
      ap (λ k. some (uint64_to_bytes k)) back

  module _ {S : Type 0} (body : S → Block → S) (stop : S → Bool) where
    visit-from :
        (fuel : ℕ) (c : BlockChain bolt) (s : bolt.Bucket) (hs : List Bytes) (bs : List Block)
        (state : S)
        → length hs < fuel
        → length hs < 2 ^ 64
        → Keys bolt s hs
        → BlocksAt c hs bs
        → visit bolt lib body stop fuel c s state (uint64_to_bytes (length hs))
          ≡ some (run_until body stop state bs)
    unfolding visit
    visit-from zero c s hs bs state f lt k at = absurd (omega arith)
    visit-from (suc fuel) c s [] [] state f lt k at =
        let there : equal (bolt.get (uint64_to_bytes 0) s) root ≡ true =
          ground (arith, equal_iff (bolt.get (uint64_to_bytes 0) s) root) in
        rw (there, visit) refl
    visit-from (suc fuel) c s [] (b ∷ bs) state f lt k at = absurd at
    visit-from (suc fuel) c s (h ∷ hs) [] state f lt k at = absurd at
    visit-from (suc fuel) c s (h ∷ hs) (b ∷ bs) state f lt k at =
        let more : equal h root ≡ false = ground (arith, equal_iff h root) in
        let key : key_before bolt lib (bytes_to_uint64 (uint64_to_bytes (suc (length hs))))
            ≡ some (uint64_to_bytes (length hs)) =
          ap (key_before bolt lib) (key_round_trip (suc (length hs)) lt)
          ∙ key_before-suc (length hs) lt in
        rw (k.0, more, at.0, visit)
          (elim (Bool-cases (stop (body state b))) [
            | inl e ↦ rw e refl
            | inr e ↦
                rw (e, key)
                  (visit-from fuel c s hs bs (body state b) (omega arith) (omega arith) k.2 at.1)
          ])

    -- With fuel for each hash and one more, the loop ends and has handed the blocks on, the newest
    -- first, until it stopped.
    pub visit-Chained :
        (fuel : ℕ) (c : BlockChain bolt) (s : bolt.Bucket) (name : Bytes) (hs : List Bytes)
        (bs : List Block) (state : S)
        → length hs < fuel
        → Chained bolt s name hs
        → BlocksAt c hs bs
        → visit bolt lib body stop fuel c s state (bolt.get name s)
          ≡ some (run_until body stop state bs)
    visit-Chained fuel c s name hs bs state f w at =
        ap (visit bolt lib body stop fuel c s state) w.last_key
        ∙ visit-from fuel c s hs bs state f w.countable w.keys at

-- All the transactions of the data id, block by block.
abbrev pub histories : Bytes → List Block → List Transaction
histories id [] = []
histories id (b ∷ bs) = history_of id b.transactions ++ histories id bs

run_until-histories :
    (id : Bytes) (txs : List Transaction) (bs : List Block)
    → run_until (add_history id) (λ _. false) txs bs ≡ txs ++ histories id bs
unfolding add_history
run_until-histories id txs [] = sym (append-nil txs)
run_until-histories id txs (b ∷ bs) =
    run_until-histories id (txs ++ history_of id b.transactions) bs
    ∙ append_assoc txs (history_of id b.transactions) (histories id bs)

module _ (bolt : Bolt) (lib : Library) (fuel : ℕ) (data_chain : BlockChain bolt)
    (c : TableBlockChain bolt) (s : bolt.Bucket) (name : Bytes) (hs : List Bytes) (bs : List Block)
    (f : length hs < fuel) (here : lookup name c.buckets ≡ some s) (w : Chained bolt s name hs)
    (at : BlocksAt bolt lib data_chain hs bs) where
  -- `getHistoryInTableHashChain` on a table whose bucket holds the hashes of these blocks, with fuel
  -- for each of them and one more, ends without a panic. It gives all their transactions of the data
  -- id, block by block from the newest on and within a block in its order, and the error if there are
  -- none.
  pub get_history-histories :
      (id : Bytes)
      → get_history_in_table_hash_chain bolt lib fuel data_chain c id name
        ≡ some (non_nil_history (histories id bs))
  unfolding get_history_in_table_hash_chain
  get_history-histories id =
      rw
        (
          here,
          visit-Chained bolt lib (add_history id) (λ _. false) fuel data_chain s name hs bs [] f w
              at,
        )
        (ap (λ txs. some (non_nil_history txs)) (run_until-histories id [] bs))
