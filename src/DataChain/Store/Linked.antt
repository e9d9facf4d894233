-- ===== src/DataChain/Store/Linked.antt =====
-- The chain of blockchain/blockchain_data as the list of its blocks, newest first.
use alg_bc_db.Prelude.{◌≤◌, ◌≡◌, ◌≢◌, refl, sym, ◌∙◌, some, List, [], ◌∷◌, Bytes, length, arith}
use alg_bc_db.Bolt.{Bolt, max_key_size, max_value_size}
use alg_bc_db.DataChain.{Block, Library}
use alg_bc_db.DataChain.Store.{
  BlockChain, last_hash_key, put_block, add_block_to_chain, get_block_by_hash, non_empty,
}

-- Decoding undoes encoding, and no block is encoded as nothing.
pub record RoundTrips (lib : Library) : Type 0 where
  pub ungob_gob : (b : Block) → lib.ungob_block (lib.gob_block b) ≡ some b
  pub gob_non_empty : (b : Block) → lib.gob_block b ≢ []

-- What bolt can hold.
pub record Fits (lib : Library) (b : Block) : Type 0 where
  pub has_hash : b.current_block_hash ≢ []
  pub hash_size : length b.current_block_hash ≤ max_key_size
  pub block_size : length (lib.gob_block b) ≤ max_value_size

non_empty-eq-some : (v : Bytes) → v ≢ [] → non_empty v ≡ some v
non_empty-eq-some [] h = absurd (h refl)
non_empty-eq-some (x ∷ v) h = refl

module _ (bolt : Bolt) (lib : Library) where
  -- From the hash `h` back, the chain holds exactly these blocks.
  abbrev pub Holds : BlockChain bolt → Bytes → List Block → Type 0
  Holds c h [] = bolt.get h c.bucket ≡ []
  Holds c h (b ∷ bs) =
      (b.current_block_hash ≡ h)
      × (bolt.get h c.bucket ≡ lib.gob_block b)
      × Holds c b.previous_block_hash bs

  -- None of the keys that the blocks stand under, nor the one where they end, is `k`.
  abbrev pub Avoids : Bytes → Bytes → List Block → Type 0
  Avoids k h [] = k ≢ h
  Avoids k h (b ∷ bs) = (k ≢ h) × Avoids k b.previous_block_hash bs

  put_block_total :
      (s : bolt.Bucket) (b : Block)
      → Fits lib b
      → (s' : bolt.Bucket) × (put_block bolt lib s b ≡ some s')
        × (b.current_block_hash ≢ last_hash_key
            → bolt.get b.current_block_hash s' ≡ lib.gob_block b)
        × (bolt.get last_hash_key s' ≡ b.current_block_hash)
        × ((k : Bytes)
            → b.current_block_hash ≢ k
            → last_hash_key ≢ k
            → bolt.get k s' ≡ bolt.get k s)
  unfolding put_block
  put_block_total s b f =
      let (s1, e1) =
        bolt.put_total b.current_block_hash (lib.gob_block b) s f.has_hash f.hash_size
          f.block_size in
      let (s2, e2) =
        bolt.put_total last_hash_key b.current_block_hash s1 (λ e. cc) (omega arith)
          (omega (arith, f.hash_size)) in
      (
        s2,
        rw (e1, put_block) e2,
        λ ne. bolt.get_put_ne _ _ _ _ _ e2 (λ e. ne (sym e)) ∙ bolt.get_put_self _ _ _ _ e1,
        bolt.get_put_self _ _ _ _ e2,
        λ k n1 n2. bolt.get_put_ne _ _ _ _ _ e2 n2 ∙ bolt.get_put_ne _ _ _ _ _ e1 n1,
      )

  -- What changes at other keys alone keeps the list.
  Holds-mono :
      (c c' : BlockChain bolt) (u v h : Bytes) (bs : List Block)
      → ((k : Bytes) → u ≢ k → v ≢ k → bolt.get k c'.bucket ≡ bolt.get k c.bucket)
      → Avoids u h bs
      → Avoids v h bs
      → Holds c h bs
      → Holds c' h bs
  Holds-mono c c' u v h [] same a b w = same h a b ∙ w
  Holds-mono c c' u v h (x ∷ bs) same a b (e, g, w) =
      (e, same h a.0 b.0 ∙ g, Holds-mono c c' u v _ bs same a.1 b.1 w)

  -- Adding a block that bolt can hold succeeds, if its previous hash is the tail, its own hash is
  -- neither one of the chain's nor the one where the chain ends nor the key of the last hash, and
  -- that key is none of the chain's hashes either. The chain then holds the new block and the old ones after it, the tail and the stored
  -- last hash are the new block's hash, and the counter of ids is left alone.
  pub add_block_to_chain-Holds :
      (c : BlockChain bolt) (b : Block) (bs : List Block)
      → Fits lib b
      → b.previous_block_hash ≡ c.tail_hash
      → Holds c c.tail_hash bs
      → Avoids b.current_block_hash c.tail_hash bs
      → Avoids last_hash_key c.tail_hash bs
      → b.current_block_hash ≢ last_hash_key
      → (c' : BlockChain bolt) × (add_block_to_chain bolt lib c b ≡ some c')
        × Holds c' c'.tail_hash (b ∷ bs)
        × (c'.tail_hash ≡ b.current_block_hash)
        × (bolt.get last_hash_key c'.bucket ≡ c'.tail_hash)
        × (c'.last_id ≡ c.last_id)
  unfolding add_block_to_chain
  add_block_to_chain-Holds c b bs f prev w fresh apart ne =
      let (s, e, at_hash, at_last, same) = put_block_total c.bucket b f in
      let c' : BlockChain bolt = record c { bucket = s; tail_hash = b.current_block_hash } in
      let kept : Holds c' c.tail_hash bs =
        Holds-mono c c' b.current_block_hash last_hash_key c.tail_hash bs same fresh apart w in
      (c', rw (e, add_block_to_chain), (refl, at_hash ne, rw prev kept), refl, at_last, refl)

  -- Where decoding undoes encoding, a block of the chain is found by its hash.
  pub get_block_by_hash-Holds :
      RoundTrips lib
      → (c : BlockChain bolt) (h : Bytes) (b : Block) (bs : List Block) → Holds c h (b ∷ bs)
      → get_block_by_hash bolt lib c h ≡ some b
  unfolding get_block_by_hash
  get_block_by_hash-Holds rt c h b bs (e, g, w) =
      rw (g, non_empty-eq-some (lib.gob_block b) (rt.gob_non_empty b)) (rt.ungob_gob b)
