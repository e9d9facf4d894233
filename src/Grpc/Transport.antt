-- ===== src/Grpc/Transport.antt =====
-- What the conversions of GRPC/util.go keep of a block.
use alg_bc_db.Prelude.{ℕ, ◌^◌, ◌<◌, ◌≡◌, refl, List, [], ◌∷◌, map, arith}
use alg_bc_db.Conversions.{to_word, of_word}
use alg_bc_db.DataChain.{Block, Library, check_data_block}
use alg_bc_db.TableChain.{TableBlock}
use alg_bc_db.Grpc.{
  data_tx_to_grpc, grpc_data_tx_to_data_tx, table_tx_to_grpc, grpc_table_tx_to_table_tx,
  block_to_grpc_data_block, grpc_data_block_to_block, block_to_grpc_table_block,
  grpc_table_block_to_block,
}

map-undone :
    {A B : Type 0} (f : A → B) (g : B → A) (xs : List A)
    → ((x : A) → g (f x) ≡ x)
    → map g (map f xs) ≡ xs
map-undone f g [] e = refl
map-undone f g (x ∷ xs) e = rw (e x, map-undone f g xs e) refl

to_word-of_word : (n : ℕ) → n < 2 ^ 64 → to_word 64 (of_word 64 n) ≡ n
unfolding to_word of_word
to_word-of_word n h = ground arith

-- What arrives of a data block.
abbrev pub stripped : Block → Block
stripped b = record b { author = []; seed = []; proof = []; consensus = 0; signature = [] }

pub arrived :
    (b : Block)
    → b.round < 2 ^ 64
    → grpc_data_block_to_block (block_to_grpc_data_block b) ≡ stripped b
unfolding block_to_grpc_data_block grpc_data_block_to_block
arrived b h =
    let txs = map-undone data_tx_to_grpc grpc_data_tx_to_data_tx b.transactions (λ tx. refl) in
    rw (txs, to_word-of_word b.round h) refl

-- A data block arrives without its author, seed, proof, kind of consensus and signature, and with all
-- else; and the check of the block has the same outcome at the receiver as at the sender.
pub grpc_data_block-stripped :
    (lib : Library) (b : Block)
    → b.round < 2 ^ 64
    → (grpc_data_block_to_block (block_to_grpc_data_block b) ≡ stripped b)
      × (check_data_block lib (grpc_data_block_to_block (block_to_grpc_data_block b))
          ≡ check_data_block lib b)
unfolding block_to_grpc_data_block grpc_data_block_to_block check_data_block
grpc_data_block-stripped lib b h =
    let txs = map-undone data_tx_to_grpc grpc_data_tx_to_data_tx b.transactions (λ tx. refl) in
    (arrived b h, rw txs refl)

-- A block of tables arrives whole.
pub grpc_table_block-whole :
    (b : TableBlock) → grpc_table_block_to_block (block_to_grpc_table_block b) ≡ b
unfolding block_to_grpc_table_block grpc_table_block_to_block
grpc_table_block-whole b =
    rw (map-undone table_tx_to_grpc grpc_table_tx_to_table_tx b.transactions (λ tx. refl)) refl
