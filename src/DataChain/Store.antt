-- ===== src/DataChain/Store.antt =====
-- blockchain/blockchain_data/blockchain.go and util.go: the chain in the key-value store, with the
-- iterator and the search by round. `none` is a panic of the code.
pub mod Linked
pub mod Rounds
use alg_bc_db.Prelude.{
  ℕ, zero, suc, ◌+◌, ◌≡◌, Bool, true, false, Option, none, some, List, [], ◌∷◌, Bytes, codes, equal,
  length, ltb, ◌==◌, if◌then◌else◌,
}
use alg_bc_db.Bolt.{Bolt}
use alg_bc_db.DataChain.{Block, Transaction, Library, zero_transaction, welcome, init_genesis_block}

abbrev pub last_hash_key : Bytes
last_hash_key = codes "lastHashKey"

pub record BlockChain (bolt : Bolt) : Type 0 where
  pub bucket : bolt.Bucket
  pub tail_hash : Bytes
  pub last_id : ℕ

-- What the search by round ends with. `out_of_fuel` stands for a search that is cut off.
pub data Walk : Type 0 where
  found : Block → Walk
  nil_block : Walk
  panicked : Walk
  out_of_fuel : Walk

abbrev pub sample_transaction : Transaction
sample_transaction = record zero_transaction {
  table = codes "sample table";
  key = codes "sample key";
  value = codes "sample value";
}

-- `len(value) == 0` is the missing key.
abbrev pub non_empty : Bytes → Option Bytes
non_empty [] = none
non_empty (b ∷ bs) = some (b ∷ bs)

module _ (bolt : Bolt) (lib : Library) where
  -- The two writes of a block: under its hash, and as the last hash.
  unfoldable pub put_block : bolt.Bucket → Block → Option bolt.Bucket
  put_block s b = elim (bolt.put b.current_block_hash (lib.gob_block b) s) [
    | none ↦ none
    | some s' ↦ bolt.put last_hash_key b.current_block_hash s'
  ]

  -- `InitBlockChain` where there is no file yet.
  unfoldable pub create_block_chain : Option (BlockChain bolt)
  create_block_chain = elim (init_genesis_block lib (sample_transaction ∷ []) welcome 0) [
    | none ↦ none
    | some genesis ↦ elim (put_block bolt.empty genesis) [
      | none ↦ none
      | some s ↦ some (record { bucket = s; tail_hash = genesis.current_block_hash; last_id = 1 })
    ]
  ]

  -- `InitBlockChain` on an existing file.
  unfoldable pub load_block_chain : bolt.Bucket → BlockChain bolt
  load_block_chain s = record { bucket = s; tail_hash = bolt.get last_hash_key s; last_id = 0 }

  unfoldable pub add_block_to_chain : BlockChain bolt → Block → Option (BlockChain bolt)
  add_block_to_chain c b = elim (put_block c.bucket b) [
    | none ↦ none
    | some s ↦ some (record c { bucket = s; tail_hash = b.current_block_hash })
  ]

  abbrev pub decode : Option Bytes → Option Block
  decode none = none
  decode (some v) = lib.ungob_block v

  unfoldable pub get_block_by_hash : BlockChain bolt → Bytes → Option Block
  get_block_by_hash c hash = decode (non_empty (bolt.get hash c.bucket))

  -- `Iterator.Next`: the block at the current hash, and the hash before it.
  unfoldable pub next : BlockChain bolt → Bytes → Option (Block × Bytes)
  next c current = elim (lib.ungob_block (bolt.get current c.bucket)) [
    | none ↦ none
    | some b ↦ some (b, b.previous_block_hash)
  ]

  -- The loop of `GetByRound`.
  unfoldable pub walk : ℕ → BlockChain bolt → Block → ℕ → Walk
  walk zero c b round = out_of_fuel
  walk (suc fuel) c b round =
      if b.round == round then found b else elim (get_block_by_hash c b.previous_block_hash) [
        | none ↦ panicked
        | some b' ↦ let rest = walk fuel c b' round in if b'.round == 1 then nil_block else rest
      ]

  unfoldable pub get_by_round : ℕ → BlockChain bolt → ℕ → Walk
  get_by_round fuel c round = elim (get_block_by_hash c c.tail_hash) [
    | none ↦ panicked
    | some last ↦ if ltb last.round round then nil_block else walk fuel c last round
  ]
