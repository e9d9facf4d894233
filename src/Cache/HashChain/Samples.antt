-- ===== src/Cache/HashChain/Samples.antt =====
-- A table with one block in its chain, to run cache/table-chain.go on.
use mathlib.Core.Option.{none-ne-some}
use alg_bc_db.Prelude.{
  ◌≡◌, refl, sym, ap, ◌∙◌, subst, none, some, if◌then◌else◌, equal_sound, Bool-cases, inl, inr, [],
  ◌∷◌, List, Bytes, codes, lookup, equal, arith,
}
use alg_bc_db.Prelude.Int.{pos}
use alg_bc_db.Conversions.{uint64_to_bytes, be_bytes}
use alg_bc_db.DataChain.{Transaction, Block, zero_transaction, new_block}
use alg_bc_db.DataChain.Store.{BlockChain}
use alg_bc_db.DataChain.Samples.{sample_bolt, sample_library}
use alg_bc_db.TableChain.Store.{TableBlockChain}
use alg_bc_db.Cache.Tables.{root}
use alg_bc_db.Cache.HashChain.{get_block_of}
use alg_bc_db.Cache.HashChain.Chained.{Chained, length-IsNoKey}
use alg_bc_db.Cache.HashChain.Visits.{BlocksAt}
use alg_bc_db.Cache.HashChain.Blocks.{HasBucket, AllChained}

abbrev pub table : Bytes
table = codes "t"

abbrev pub sample_value : Transaction
sample_value = record zero_transaction {
  tx_id = 7 ∷ [];
  data_id = codes "t-QAQ-k";
  table = table;
  key = codes "k";
  value = codes "v";
  time_stamp = pos 5;
}

abbrev pub value_block : Block
value_block = record new_block {
  round = 1;
  current_block_hash = 2 ∷ [];
  previous_block_hash = 1 ∷ [];
  transactions = sample_value ∷ [];
}

abbrev pub data_chain : BlockChain sample_bolt
data_chain = record {
  bucket = (2 ∷ [], sample_library.gob_block value_block) ∷ [];
  tail_hash = 2 ∷ [];
  last_id = 1;
}

abbrev pub table_bucket : List (Bytes × Bytes)
table_bucket =
    (uint64_to_bytes 0, root) ∷ (table, uint64_to_bytes 1) ∷ (uint64_to_bytes 1, 2 ∷ []) ∷ []

abbrev pub table_buckets : TableBlockChain sample_bolt
table_buckets = record {
  bucket = [];
  buckets = (table, table_bucket) ∷ [];
  tail_hash = [];
  last_id = pos 1;
}

pub table_bucket-Chained : Chained sample_bolt table_bucket table ((2 ∷ []) ∷ [])
unfolding lookup equal uint64_to_bytes be_bytes
table_bucket-Chained = record {
  last_key = refl;
  keys = (refl, (λ e. cc, omega arith), refl);
  countable = omega arith;
}

pub table_known : lookup table table_buckets.buckets ≡ some table_bucket
unfolding lookup equal
table_known = refl

pub value_block-BlocksAt :
    BlocksAt sample_bolt sample_library data_chain ((2 ∷ []) ∷ []) (value_block ∷ [])
unfolding get_block_of lookup equal
value_block-BlocksAt = (refl, tt)

pub table-HasBucket : HasBucket sample_bolt table_buckets table
table-HasBucket =
    ((table_bucket, table_known), λ e. cc, omega arith, length-IsNoKey table (omega arith))

-- Every table of the database has the one hash.
pub table_buckets-AllChained : AllChained sample_bolt table_buckets (λ name. (2 ∷ []) ∷ [])
unfolding lookup
table_buckets-AllChained name s h = elim (Bool-cases (equal table name)) [
  | inl e ↦
      let same : some table_bucket ≡ some s =
        ap (λ b. if b then some table_bucket else none) (sym e) ∙ h in
      let s_is : table_bucket ≡ s = cc in
      subst (λ x. Chained sample_bolt x name ((2 ∷ []) ∷ [])) s_is
        (subst (λ n. Chained sample_bolt table_bucket n ((2 ∷ []) ∷ [])) (equal_sound table name e)
          table_bucket-Chained)
  | inr e ↦ absurd (none-ne-some s (ap (λ b. if b then some table_bucket else none) (sym e) ∙ h))
]
