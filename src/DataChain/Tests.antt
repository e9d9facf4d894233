-- ===== src/DataChain/Tests.antt =====
-- blockchain/blockchain_data on a chain of three blocks, over the sample store and hash functions.
use alg_bc_db.Prelude.{
  ℕ, ◌<◌, ◌≡◌, ◌⊎◌, refl, true, some, [], ◌∷◌, ◌++◌, Bytes, codes, equal, equal_refl, lookup,
  get_elem?, arith, All, ltb, ◌&&◌, if◌then◌else◌,
}
use alg_bc_db.Prelude.Int.{pos}
use alg_bc_db.DataChain.{
  Transaction, Block, new_block, zero_transaction, init_transaction, verify_transaction, mark,
  welcome, check_data_block, returns, merkel_root_of, init_block,
}
use alg_bc_db.DataChain.Signing.{
  Answers, verify_transaction-init_transaction, verify_transaction_forgeable,
  check_data_block-init_block,
}
use alg_bc_db.DataChain.Judging.{Judged, check_data_block-Judged}
use alg_bc_db.DataChain.Store.{
  BlockChain, last_hash_key, add_block_to_chain, get_by_round, found, nil_block,
}
use alg_bc_db.DataChain.Store.Linked.{Fits, Holds, add_block_to_chain-Holds}
use alg_bc_db.DataChain.Store.Rounds.{CountsDown, get_by_round-outcome}
use alg_bc_db.DataChain.Samples.{sample_library, sample_RoundTrips, sample_bolt}

-- The signature is the digest itself.
abbrev same : Bytes → Bytes
same digest = digest

abbrev sample : Transaction
sample =
    init_transaction sample_library (codes "t") (codes "k") (codes "v") (codes "p") (1 ∷ 2 ∷ [])
      same (pos 5)

same-Answers : Answers sample_library (1 ∷ 2 ∷ []) same
same-Answers digest = equal_refl digest

sample_verifies :
    (verify_transaction sample_library sample ≡ true)
    × (sample.data_id ≡ codes "t" ++ (mark ++ codes "k"))
sample_verifies =
    verify_transaction-init_transaction sample_library (codes "t") (codes "k") (codes "v")
      (codes "p") (1 ∷ 2 ∷ []) same (pos 5) same-Answers

verify_transaction_forgeable_example :
    verify_transaction sample_library
      (record sample { table = codes "ta" ++ codes "bc"; key = codes "d"; tx_id = [] })
    ≡ verify_transaction sample_library
        (record sample { table = codes "ta"; key = codes "bc" ++ codes "d" })
verify_transaction_forgeable_example =
    verify_transaction_forgeable sample_library sample (codes "ta") (codes "bc") (codes "d") []

abbrev genesis : Block
genesis = record new_block { round = 0; current_block_hash = 1 ∷ []; previous_block_hash = 9 ∷ [] }

abbrev second : Block
second = record new_block { round = 1; current_block_hash = 2 ∷ []; previous_block_hash = 1 ∷ [] }

abbrev third : Block
third = record new_block {
  round = 2;
  current_block_hash = 3 ∷ [];
  previous_block_hash = 2 ∷ [];
  transactions = zero_transaction ∷ [];
}

abbrev two_blocks : BlockChain sample_bolt
two_blocks = record {
  bucket =
      (1 ∷ [], sample_library.gob_block genesis)
      ∷ (last_hash_key, 2 ∷ [])
      ∷ (2 ∷ [], sample_library.gob_block second)
      ∷ [];
  tail_hash = 2 ∷ [];
  last_id = 1;
}

two_blocks-Holds : Holds sample_bolt sample_library two_blocks (2 ∷ []) (second ∷ genesis ∷ [])
unfolding lookup equal
two_blocks-Holds = (refl, refl, (refl, refl, refl))

third-Fits : Fits sample_library third
third-Fits = record { has_hash = λ e. cc; hash_size = omega arith; block_size = omega arith }

add_block_to_chain-Holds_example :
    (c' : BlockChain sample_bolt) × (add_block_to_chain sample_bolt sample_library two_blocks third
      ≡ some c')
    × Holds sample_bolt sample_library c' c'.tail_hash (third ∷ second ∷ genesis ∷ [])
    × (c'.tail_hash ≡ 3 ∷ [])
    × (sample_bolt.get last_hash_key c'.bucket ≡ c'.tail_hash)
    × (c'.last_id ≡ 1)
add_block_to_chain-Holds_example =
    add_block_to_chain-Holds sample_bolt sample_library two_blocks third (second ∷ genesis ∷ [])
      third-Fits refl two_blocks-Holds (λ e. cc, (λ e. cc, λ e. cc)) (λ e. cc, (λ e. cc, λ e. cc))
      (λ e. cc)

abbrev three_blocks : BlockChain sample_bolt
three_blocks = record {
  bucket =
      (1 ∷ [], sample_library.gob_block genesis)
      ∷ (last_hash_key, 3 ∷ [])
      ∷ (2 ∷ [], sample_library.gob_block second)
      ∷ (3 ∷ [], sample_library.gob_block third)
      ∷ [];
  tail_hash = 3 ∷ [];
  last_id = 1;
}

three_blocks-Holds :
    Holds sample_bolt sample_library three_blocks (3 ∷ []) (third ∷ second ∷ genesis ∷ [])
unfolding lookup equal
three_blocks-Holds = (refl, refl, (refl, refl, (refl, refl, refl)))

three_blocks-CountsDown : CountsDown 2 (third ∷ second ∷ genesis ∷ [])
three_blocks-CountsDown = (refl, (refl, (refl, refl)))

check_data_block-init_block_example :
    (b : Block) × (init_block sample_library (sample ∷ []) (3 ∷ []) 4 5 ≡ some b)
    × ((round : ℕ) (author seed proof signature : Bytes)
        → check_data_block sample_library (record b {
          round = round;
          author = author;
          seed = seed;
          proof = proof;
          signature = signature;
        })
          ≡ returns true)
check_data_block-init_block_example =
    check_data_block-init_block sample_library sample [] (3 ∷ []) 4 5 (sample_verifies.0, tt)

get_by_round-outcome_example :
    ((2 < 1) × (get_by_round sample_bolt sample_library 3 three_blocks 1 ≡ nil_block))
    ⊎ ((x : Block) × (get_elem? (third ∷ second ∷ genesis ∷ []) 1 ≡ some x)
        × (x.round ≡ 1)
        × (get_by_round sample_bolt sample_library 3 three_blocks 1
            ≡ (if ltb 1 2 && ltb 1 2 then nil_block else found x)))
get_by_round-outcome_example =
    get_by_round-outcome sample_bolt sample_library sample_RoundTrips 3 2 1 three_blocks third
      (second ∷ genesis ∷ []) (omega arith) three_blocks-CountsDown three_blocks-Holds

check_data_block-Judged_example :
    Judged
      (third.previous_block_hash ≡ welcome)
      (All (λ tx. verify_transaction sample_library tx ≡ true) third.transactions)
      (third.transactions ≡ [])
      (merkel_root_of sample_library third.transactions)
      third.merkel_root
      (check_data_block sample_library third)
check_data_block-Judged_example = check_data_block-Judged sample_library third
