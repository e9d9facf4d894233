-- ===== src/Bolt.antt =====
-- A bucket of the key-value store github.com/boltdb/bolt, which is not part of the repository: its
-- operations, and what its documentation says of them.
use alg_bc_db.Prelude.{ℕ, ◌-◌, ◌^◌, ◌≤◌, ◌≡◌, ◌≢◌, Option, none, some, [], Bytes, length}

-- The largest key and the largest value that `Put` takes.
abbrev pub max_key_size : ℕ
max_key_size = 32768

abbrev pub max_value_size : ℕ
max_value_size = 2 ^ 31 - 2

-- `get` is nil, here empty, on a missing key. `put` is `none` where bolt returns an error.
pub record Bolt : Type 1 where
  pub Bucket : Type 0
  pub empty : Bucket
  pub get : Bytes → Bucket → Bytes
  pub put : Bytes → Bytes → Bucket → Option Bucket
  pub get_empty : (k : Bytes) → get k empty ≡ []
  pub put_blank : (v : Bytes) (s : Bucket) → put [] v s ≡ none
  pub put_total :
      (k v : Bytes) (s : Bucket)
      → k ≢ []
      → length k ≤ max_key_size
      → length v ≤ max_value_size
      → (s' : Bucket) × (put k v s ≡ some s')
  pub get_put_self : (k v : Bytes) (s s' : Bucket) → put k v s ≡ some s' → get k s' ≡ v
  pub get_put_ne :
      (k j v : Bytes) (s s' : Bucket) → put k v s ≡ some s' → k ≢ j → get j s' ≡ get j s
