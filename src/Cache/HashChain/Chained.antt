-- ===== src/Cache/HashChain/Chained.antt =====
-- The bucket of a table in cache/table-chain.go as the list of the block hashes in it.
use alg_bc_db.Prelude.{
  ℕ, suc, ◌+◌, ◌%◌, ◌^◌, ◌≤◌, ◌<◌, ◌≡◌, ◌≢◌, refl, sym, ap, ◌∙◌, false, some, List, [], ◌∷◌, Bytes,
  equal, length, lookup, insert, if◌then◌else◌, append-nil, arith, Bool-cases, inl, inr,
}
use alg_bc_db.Conversions.{uint64_to_bytes, bytes_to_uint64}
use alg_bc_db.Conversions.RoundTrip.{length-be_bytes, bytes_to_uint64-uint64_to_bytes}
use alg_bc_db.Bolt.{Bolt, max_key_size, max_value_size}
use alg_bc_db.TableChain.Store.{TableBlockChain}
use alg_bc_db.Cache.Tables.{root, first_entries}
use alg_bc_db.Cache.Tables.Memory.{first_entries_total}
use alg_bc_db.Cache.HashChain.{append_at, append_hash, link_hash, update_bucket}

pub key_round_trip : (n : ℕ) → n < 2 ^ 64 → bytes_to_uint64 (uint64_to_bytes n) ≡ some n
key_round_trip n h =
    ap bytes_to_uint64 (sym (append-nil (uint64_to_bytes n)))
    ∙ bytes_to_uint64-uint64_to_bytes n [] h

some-eq : {a b : ℕ} → some a ≡ some b → a ≡ b
some-eq h = cc

key_injective : (a b : ℕ) → a < 2 ^ 64 → b < 2 ^ 64 → uint64_to_bytes a ≡ uint64_to_bytes b → a ≡ b
key_injective a b h k e =
    some-eq (sym (key_round_trip a h) ∙ ap bytes_to_uint64 e ∙ key_round_trip b k)

length-uint64_to_bytes : (n : ℕ) → length (uint64_to_bytes n) ≡ 8
unfolding uint64_to_bytes
length-uint64_to_bytes n = length-be_bytes 8 n

-- No key of the chain is the name under which the last key stands.
abbrev pub IsNoKey : Bytes → Type 0
IsNoKey name = (n : ℕ) → n < 2 ^ 64 → name ≢ uint64_to_bytes n

pub length-IsNoKey : (name : Bytes) → length name ≢ 8 → IsNoKey name
length-IsNoKey name h n lt e = h (ap length e ∙ length-uint64_to_bytes n)

-- A hash of a block: not the mark of the root, and not too long for bolt.
abbrev pub IsLink : Bytes → Type 0
IsLink hash = (hash ≢ root) × (length hash ≤ max_value_size)

module _ (bolt : Bolt) where
  abbrev pub Keys : bolt.Bucket → List Bytes → Type 0
  Keys s [] = bolt.get (uint64_to_bytes 0) s ≡ root
  Keys s (h ∷ hs) = (bolt.get (uint64_to_bytes (suc (length hs))) s ≡ h) × IsLink h × Keys s hs

  -- The bucket holds these hashes, the newest first.
  pub record Chained (s : bolt.Bucket) (name : Bytes) (hs : List Bytes) : Type 0 where
    pub last_key : bolt.get name s ≡ uint64_to_bytes (length hs)
    pub keys : Keys s hs
    pub countable : length hs < 2 ^ 64

  pub first_entries-Chained :
      (name : Bytes)
      → name ≢ []
      → IsNoKey name
      → length name ≤ max_key_size
      → (s : bolt.Bucket) × (first_entries bolt name ≡ some s) × Chained s name []
  first_entries-Chained name ne apart short =
      let (s, e, last, first) = first_entries_total bolt name ne short in
      (
        s,
        e,
        record { last_key = last; keys = first (apart 0 (omega arith)); countable = omega arith },
      )

  -- The hash under the last key.
  abbrev pub last_hash : List Bytes → Bytes
  last_hash [] = root
  last_hash (h ∷ hs) = h

  pub Chained-last_hash :
      {s : bolt.Bucket} {name : Bytes} (hs : List Bytes)
      → Chained s name hs
      → bolt.get (bolt.get name s) s ≡ last_hash hs
  Chained-last_hash {s} [] w = ap (λ k. bolt.get k s) w.last_key ∙ w.keys
  Chained-last_hash {s} (h ∷ hs) w = ap (λ k. bolt.get k s) w.last_key ∙ w.keys.0

  -- A write under a key above all that are used, or under the name, leaves the chain.
  Keys-mono :
      (s s' : bolt.Bucket) (hs : List Bytes)
      → ((n : ℕ) → n ≤ length hs → bolt.get (uint64_to_bytes n) s' ≡ bolt.get (uint64_to_bytes n) s)
      → Keys s hs
      → Keys s' hs
  Keys-mono s s' [] same k = same 0 (omega arith) ∙ k
  Keys-mono s s' (h ∷ hs) same k = (
    same (suc (length hs)) (omega arith) ∙ k.0,
    k.1,
    Keys-mono s s' hs (λ n le. same n (omega arith)) k.2,
  )

  -- The hash comes first, unless it is there already.
  abbrev pub linked : Bytes → List Bytes → List Bytes
  linked hash hs = if equal (last_hash hs) hash then hs else hash ∷ hs

  append_hash-Chained :
      (s : bolt.Bucket) (name hash : Bytes) (hs : List Bytes)
      → name ≢ []
      → length name ≤ max_key_size
      → IsNoKey name
      → IsLink hash
      → Chained s name hs
      → length hs + 1 < 2 ^ 64
      → (s' : bolt.Bucket) × (append_hash bolt s name hash (some (length hs)) ≡ some s')
        × Chained s' name (hash ∷ hs)
  append_hash-Chained s name hash hs ne short apart link w room =
      let n : ℕ = length hs in
      let next : (n + 1) % 2 ^ 64 ≡ suc n = omega arith in
      let eight = length-uint64_to_bytes (suc n) in
      let filled : uint64_to_bytes (suc n) ≢ [] = λ e. let z = ap length e in omega arith in
      let (s1, e1) = bolt.put_total (uint64_to_bytes (suc n)) hash s filled (omega arith) link.1 in
      let (s2, e2) = bolt.put_total name (uint64_to_bytes (suc n)) s1 ne short (omega arith) in
      (
        s2,
        ap (λ k. append_at bolt s name hash (uint64_to_bytes k)) next ∙ rw (e1, append_at) e2,
        record {
          last_key = bolt.get_put_self _ _ _ _ e2;
          keys = (
            bolt.get_put_ne _ _ _ _ _ e2 (apart (suc n) (omega arith))
                ∙ bolt.get_put_self _ _ _ _ e1,
            link,
            Keys-mono s s2 hs
                (λ k le.
                  bolt.get_put_ne _ _ _ _ _ e2 (apart k (omega arith))
                  ∙ bolt.get_put_ne _ _ _ _ _ e1 (λ e.
                    let same = key_injective (suc n) k (omega arith) (omega arith) e in
                    omega arith))
                w.keys,
          );
          countable = omega arith;
        },
      )

  link_hash-Chained :
      (s : bolt.Bucket) (name hash : Bytes) (hs : List Bytes)
      → name ≢ []
      → length name ≤ max_key_size
      → IsNoKey name
      → IsLink hash
      → Chained s name hs
      → (equal (last_hash hs) hash ≡ false → length hs + 1 < 2 ^ 64)
      → (s' : bolt.Bucket) × (link_hash bolt s name hash ≡ some s')
        × Chained s' name (linked hash hs)
  unfolding link_hash
  link_hash-Chained s name hash hs ne short apart link w room =
      let here : bolt.get (bolt.get name s) s ≡ last_hash hs = Chained-last_hash hs w in
      let key : bytes_to_uint64 (bolt.get name s) ≡ some (length hs) =
        ap bytes_to_uint64 w.last_key ∙ key_round_trip (length hs) w.countable in
      elim (Bool-cases (equal (last_hash hs) hash)) [
        | inl e ↦ (s, rw (here, e) refl, rw e w)
        | inr e ↦
            let (s', e', w') = append_hash-Chained s name hash hs ne short apart link w (room e) in
            (s', rw (here, e, key) e', rw e w')
      ]

  -- `updateBucket` on a table with a bucket: the bucket that holds a list of hashes then holds the
  -- same list if the newest one is the block's hash, and else the list with the block's hash in front.
  -- The other tables' buckets, the blocks and the tail stay. This is for a name that bolt takes and
  -- that is none of the 8-byte keys, a hash other than "root" that bolt takes, and fewer than 2^64 - 1
  -- hashes if the list grows.
  pub update_bucket-Chained :
      (c : TableBlockChain bolt) (s : bolt.Bucket) (name hash : Bytes) (hs : List Bytes)
      → lookup name c.buckets ≡ some s
      → name ≢ []
      → length name ≤ max_key_size
      → IsNoKey name
      → IsLink hash
      → Chained s name hs
      → (equal (last_hash hs) hash ≡ false → length hs + 1 < 2 ^ 64)
      → (s' : bolt.Bucket) × (update_bucket bolt c name hash
          ≡ some (record c { buckets = insert name s' c.buckets }))
        × Chained s' name (if equal (last_hash hs) hash then hs else hash ∷ hs)
  unfolding update_bucket
  update_bucket-Chained c s name hash hs here ne short apart link w room =
      let (s', e, w') = link_hash-Chained s name hash hs ne short apart link w room in
      (s', rw (here, e) refl, w')
