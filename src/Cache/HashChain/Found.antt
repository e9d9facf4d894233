-- ===== src/Cache/HashChain/Found.antt =====
-- `getInTableHashChain` and `getTableData` of cache/table-chain.go find the newest transaction.
use alg_bc_db.Prelude.{
  ℕ, ◌<◌, ◌≡◌, ◌⊎◌, refl, sym, ap, ◌∙◌, subst, true, false, Option, none, some, List, [], ◌∷◌,
  Bytes, equal, equal_iff, equal_sound, length, lookup, if◌then◌else◌, All, arith, Bool-cases, inl,
  inr,
}
use mathlib.Core.List.{Mem, mem-cons_self, mem-cons_of_mem}
use alg_bc_db.Prelude.Int.{ℤ, pos, ltb_ℤ}
use alg_bc_db.Bolt.{Bolt}
use alg_bc_db.DataChain.{Transaction, Block, Library}
use alg_bc_db.DataChain.Store.{BlockChain}
use alg_bc_db.TableChain.Store.{TableBlockChain}
use alg_bc_db.Cache.HashChain.{
  Search, new_search, newer, search_transactions, search_block, is_found, found_of, result_of,
  get_in_table_hash_chain,
}
use alg_bc_db.Cache.HashChain.Chained.{Chained}
use alg_bc_db.Cache.HashChain.Visits.{run_until, BlocksAt, visit-Chained}

-- No transaction of the data id is later.
abbrev pub NoneLater : Bytes → ℤ → List Transaction → Type 0
NoneLater id time = All (λ tx. tx.data_id ≡ id → ltb_ℤ time tx.time_stamp ≡ false)

NoneLater-mono :
    (id : Bytes) (a b : ℤ) (txs : List Transaction)
    → ltb_ℤ b a ≡ false
    → NoneLater id a txs
    → NoneLater id b txs
NoneLater-mono id a b [] le h = tt
NoneLater-mono id a b (tx ∷ txs) le h =
    (λ e. let k = h.0 e in ground arith, NoneLater-mono id a b txs le h.1)

-- What the loop over a block's transactions does to the search.
record Searched (id hash : Bytes) (f f' : Search) (txs : List Transaction) : Type 0 where
  covers : NoneLater id f'.last_time_stamp txs
  forward : ltb_ℤ f'.last_time_stamp f.last_time_stamp ≡ false
  same_hash : f.block_hash ≡ hash → f'.block_hash ≡ hash
  source :
      ((f'.last_time_stamp ≡ f.last_time_stamp) × (f'.last_tx ≡ f.last_tx))
      ⊎ ((tx : Transaction) × Mem tx txs
          × (tx.data_id ≡ id)
          × (f'.last_tx ≡ some tx)
          × (f'.last_time_stamp ≡ tx.time_stamp)
          × (f'.block_hash ≡ hash)
          × (ltb_ℤ f.last_time_stamp tx.time_stamp ≡ true))

-- What one transaction does to it.
record Stepped (id hash : Bytes) (f f' : Search) (tx : Transaction) : Type 0 where
  covers : tx.data_id ≡ id → ltb_ℤ f'.last_time_stamp tx.time_stamp ≡ false
  forward : ltb_ℤ f'.last_time_stamp f.last_time_stamp ≡ false
  same_hash : f.block_hash ≡ hash → f'.block_hash ≡ hash
  source :
      ((f'.last_time_stamp ≡ f.last_time_stamp) × (f'.last_tx ≡ f.last_tx))
      ⊎ ((tx.data_id ≡ id)
          × (f'.last_tx ≡ some tx)
          × (f'.last_time_stamp ≡ tx.time_stamp)
          × (f'.block_hash ≡ hash)
          × (ltb_ℤ f.last_time_stamp tx.time_stamp ≡ true))

Searched-cons :
    (id hash : Bytes) (f g f' : Search) (tx : Transaction) (txs : List Transaction)
    → Stepped id hash f g tx
    → Searched id hash g f' txs
    → Searched id hash f f' (tx ∷ txs)
Searched-cons id hash f g f' tx txs one rest = record {
  covers = (λ e. let a = one.covers e in let b = rest.forward in ground arith, rest.covers);
  forward = let a = one.forward in let b = rest.forward in ground arith;
  same_hash = λ e. rest.same_hash (one.same_hash e);
  source = elim rest.source [
    | inr (t, m, e1, e2, e3, e4, e5) ↦
        inr (t, mem-cons_of_mem tx m, e1, e2, e3, e4, let a = one.forward in ground arith)
    | inl (e1, e2) ↦ elim one.source [
      | inl (k1, k2) ↦ inl (e1 ∙ k1, e2 ∙ k2)
      | inr (k1, k2, k3, k4, k5) ↦
          inr (tx, mem-cons_self, k1, e2 ∙ k2, e1 ∙ k3, rest.same_hash k4, k5)
    ]
  ];
}

abbrev see : Bytes → Bytes → Search → Transaction → Search
see id hash f tx = if equal tx.data_id id then record (newer f tx) { block_hash = hash } else f

see-Stepped :
    (id hash : Bytes) (f : Search) (tx : Transaction) → Stepped id hash f (see id hash f tx) tx
see-Stepped id hash f tx = elim (Bool-cases (equal tx.data_id id)) [
  | inr e ↦ rw e (record {
    covers = λ same. absurd (ground (arith, equal_iff tx.data_id id));
    forward = ground arith;
    same_hash = λ k. k;
    source = inl (refl, refl);
  })
  | inl e ↦ elim (Bool-cases (ltb_ℤ f.last_time_stamp tx.time_stamp)) [
    | inl later ↦
        rw (e, later)
          (record {
            covers = λ same. ground arith;
            forward = ground arith;
            same_hash = λ k. refl;
            source = inr (equal_sound tx.data_id id e, refl, refl, refl, later);
          })
    | inr earlier ↦
        rw (e, earlier)
          (record {
            covers = λ same. earlier;
            forward = ground arith;
            same_hash = λ k. refl;
            source = inl (refl, refl);
          })
  ]
]

search_transactions-Searched :
    (id hash : Bytes) (f : Search) (txs : List Transaction)
    → Searched id hash f (search_transactions id hash f txs) txs
unfolding search_transactions
search_transactions-Searched id hash f [] = record {
  covers = tt;
  forward = ground arith;
  same_hash = λ k. k;
  source = inl (refl, refl);
}
search_transactions-Searched id hash f (tx ∷ txs) =
    Searched-cons id hash f (see id hash f tx) _ tx txs (see-Stepped id hash f tx)
      (search_transactions-Searched id hash (see id hash f tx) txs)

-- The block has transactions of the data id with a positive time stamp, and this is a latest of them.
abbrev pub InBlock : Bytes → Block → Transaction → Bytes → Bytes → Type 0
InBlock id b tx hash tx_id =
    Mem tx b.transactions
    × (tx.data_id ≡ id)
    × (ltb_ℤ (pos 0) tx.time_stamp ≡ true)
    × NoneLater id tx.time_stamp b.transactions
    × (hash ≡ b.current_block_hash)
    × (tx_id ≡ tx.tx_id)

-- The answer is from the first block that has one.
abbrev pub Newest : Bytes → List Block → Option (Transaction × Bytes × Bytes) → Type 0
Newest id [] none = Unit {0}
Newest id [] (some found) = ⊥
Newest id (b ∷ bs) none = NoneLater id (pos 0) b.transactions × Newest id bs none
Newest id (b ∷ bs) (some (tx, hash, tx_id)) =
    InBlock id b tx hash tx_id
    ⊎ (NoneLater id (pos 0) b.transactions × Newest id bs (some (tx, hash, tx_id)))

Newest-later :
    (id : Bytes) (b : Block) (bs : List Block) (r : Option (Transaction × Bytes × Bytes))
    → NoneLater id (pos 0) b.transactions
    → Newest id bs r
    → Newest id (b ∷ bs) r
Newest-later id b bs none h k = (h, k)
Newest-later id b bs (some found) h k = inr (h, k)

abbrev Fresh : Search → Type 0
Fresh f = (f.last_time_stamp ≡ pos 0) × (f.last_tx ≡ none)

result_of-found :
    (g rest : Search) (tx : Transaction)
    → g.last_tx ≡ some tx
    → g.last_time_stamp ≡ tx.time_stamp
    → ltb_ℤ (pos 0) tx.time_stamp ≡ true
    → result_of (if is_found g then g else rest) ≡ some (tx, g.block_hash, tx.tx_id)
result_of-found g rest tx e1 e2 later =
    let yes : is_found g ≡ true = ap (ltb_ℤ (pos 0)) e2 ∙ later in
    ap (λ t. result_of (if t then g else rest)) yes
    ∙ ap (λ t. if t then found_of g.last_tx g.block_hash else none) yes
    ∙ ap (λ o. found_of o g.block_hash) e1

run_until-Newest :
    (id : Bytes) (f : Search) (bs : List Block)
    → Fresh f
    → Newest id bs (result_of (run_until (search_block id) is_found f bs))
unfolding search_block
run_until-Newest id f [] (e1, e2) = rw e1 tt
run_until-Newest id f (b ∷ bs) (e1, e2) =
    let g = search_block id f b in
    let rest = run_until (search_block id) is_found g bs in
    let w : Searched id b.current_block_hash f g b.transactions =
      search_transactions-Searched id b.current_block_hash f b.transactions in
    elim w.source [
      | inr (tx, m, k1, k2, k3, k4, k5) ↦
          let positive : ltb_ℤ (pos 0) tx.time_stamp ≡ true =
            ap (λ t. ltb_ℤ t tx.time_stamp) (sym e1) ∙ k5 in
          subst (Newest id (b ∷ bs)) (sym (result_of-found g rest tx k2 k3 positive)) (
            inl (m, k1, positive, subst (λ t. NoneLater id t b.transactions) k3 w.covers, k4, refl))
      | inl (k1, k2) ↦
          let blank : Fresh g = (k1 ∙ e1, k2 ∙ e2) in
          let no : is_found g ≡ false = ap (ltb_ℤ (pos 0)) blank.0 in
          subst (λ t. Newest id (b ∷ bs) (result_of (if t then g else rest))) (sym no)
            (Newest-later id b bs (result_of rest)
              (subst (λ t. NoneLater id t b.transactions) blank.0 w.covers)
              (run_until-Newest id g bs blank))
    ]

module _ (bolt : Bolt) (lib : Library) where
  -- `getInTableHashChain` on a table whose bucket holds the hashes of these blocks, with fuel for each
  -- of them and one more, ends without a panic. It gives a latest transaction of the data id in the
  -- newest block that has one with a positive time stamp, with that block's hash and its own id, and
  -- the error exactly if no block has one.
  pub get_in_table_hash_chain-Newest :
      (fuel : ℕ) (data_chain : BlockChain bolt) (c : TableBlockChain bolt) (s : bolt.Bucket)
      (name : Bytes) (hs : List Bytes) (bs : List Block) (id : Bytes)
      → length hs < fuel
      → lookup name c.buckets ≡ some s
      → Chained bolt s name hs
      → BlocksAt bolt lib data_chain hs bs
      → (r : Option (Transaction × Bytes × Bytes)) × (get_in_table_hash_chain bolt lib fuel
            data_chain c id name
          ≡ some r)
        × Newest id bs r
  unfolding get_in_table_hash_chain
  get_in_table_hash_chain-Newest fuel data_chain c s name hs bs id f here w at =
      let visited =
        visit-Chained bolt lib (search_block id) is_found fuel data_chain s name hs bs new_search f
          w at in
      (
        result_of (run_until (search_block id) is_found new_search bs),
        rw (here, visited) refl,
        run_until-Newest id new_search bs (refl, refl),
      )
