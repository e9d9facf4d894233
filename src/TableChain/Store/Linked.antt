-- ===== src/TableChain/Store/Linked.antt =====
-- The chain of blockchain/blockchain_table as the list of its blocks, newest first.
use alg_bc_db.Prelude.{◌≡◌, some, List, [], ◌∷◌, Bytes}
use alg_bc_db.Bolt.{Bolt}
use alg_bc_db.TableChain.{TableBlock, TableGob}
use alg_bc_db.TableChain.Store.{TableBlockChain, table_next}

-- Decoding undoes encoding.
pub record TableRoundTrips (gob : TableGob) : Type 0 where
  pub ungob_gob : (b : TableBlock) → gob.ungob_block (gob.gob_block b) ≡ some b

module _ (bolt : Bolt) (gob : TableGob) where
  -- From the hash `h` back to the hash `end`, the chain holds exactly these blocks.
  abbrev pub TableHolds : TableBlockChain bolt → Bytes → List TableBlock → Bytes → Type 0
  TableHolds c h [] end = h ≡ end
  TableHolds c h (b ∷ bs) end =
      (bolt.get h c.bucket ≡ gob.gob_block b) × TableHolds c b.previous_block_hash bs end

  pub table_next-TableHolds :
      TableRoundTrips gob
      → (c : TableBlockChain bolt) (h end : Bytes) (b : TableBlock) (bs : List TableBlock)
      → TableHolds c h (b ∷ bs) end
      → table_next bolt gob c h ≡ some (b, b.previous_block_hash)
  unfolding table_next
  table_next-TableHolds rt c h end b bs w = rw (w.0, rt.ungob_gob b, table_next)
