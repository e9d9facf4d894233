-- ===== src/Conversions/RoundTrip.antt =====
-- The conversions of util/util.go undo one another.
use native.Mathlib.Nat.{pow-suc}
use alg_bc_db.Prelude.{
  ℕ, zero, suc, ◌+◌, ◌*◌, ◌/◌, ◌%◌, ◌^◌, ◌≤◌, ◌<◌, ◌≡◌, refl, sym, ap, ◌∙◌, some, [], ◌∷◌, ◌++◌,
  Bytes, length, take, length-append, append-nil, arith,
}
use alg_bc_db.Prelude.Int.{ℤ, pos, negsuc, pos_part, neg_part}
use alg_bc_db.Conversions.{
  be_bytes, be_value, read, to_word, of_word, uint64_to_bytes, int64_to_bytes, int32_to_bytes,
  bytes_to_uint64, bytes_to_int64, bytes_to_int32,
}

pub length-be_bytes : (k n : ℕ) → length (be_bytes k n) ≡ k
unfolding be_bytes
length-be_bytes zero n = refl
length-be_bytes (suc k) n =
    omega
      (arith, length-append (be_bytes k (n / 256)) ((n % 256) ∷ []), length-be_bytes k (n / 256))

be_value-append :
    (acc : ℕ) (xs : Bytes) (b : ℕ) → be_value acc (xs ++ b ∷ []) ≡ be_value acc xs * 256 + b
unfolding be_value
be_value-append acc [] b = refl
be_value-append acc (x ∷ xs) b = be_value-append (acc * 256 + x) xs b

be_value-be_bytes : (k n : ℕ) → n < 256 ^ k → be_value 0 (be_bytes k n) ≡ n
unfolding be_value be_bytes
be_value-be_bytes zero n h = omega arith
be_value-be_bytes (suc k) n h =
    let p : 256 ^ suc k ≡ 256 ^ k * 256 = pow-suc 256 k in
    omega (
      arith,
      be_value-append 0 (be_bytes k (n / 256)) (n % 256),
      be_value-be_bytes k (n / 256) (omega arith),
    )

take-length_append : (xs ys : Bytes) → take (length xs) (xs ++ ys) ≡ xs
take-length_append [] ys = refl
take-length_append (x ∷ xs) ys = ap (◌∷◌ x) (take-length_append xs ys)

-- What was written is read back, whatever follows it.
read-be_bytes : (k n : ℕ) (rest : Bytes) → n < 256 ^ k → read k (be_bytes k n ++ rest) ≡ some n
unfolding read
read-be_bytes k n rest h = ground (
  arith,
  length-append (be_bytes k n) rest,
  length-be_bytes k n,
  rw (length-be_bytes k n) at (take-length_append (be_bytes k n) rest),
  be_value-be_bytes k n h,
)

read_exact : (k n : ℕ) → n < 256 ^ k → read k (be_bytes k n) ≡ some n
read_exact k n h = ap (read k) (sym (append-nil (be_bytes k n))) ∙ read-be_bytes k n [] h

-- A 64-bit number is read back from its 8 bytes, whatever follows them.
pub bytes_to_uint64-uint64_to_bytes :
    (n : ℕ) (rest : Bytes) → n < 2 ^ 64 → bytes_to_uint64 (uint64_to_bytes n ++ rest) ≡ some n
unfolding bytes_to_uint64 uint64_to_bytes
bytes_to_uint64-uint64_to_bytes n rest h = read-be_bytes 8 n rest (omega arith)

-- A number from -2^63 up to 2^63 - 1.
abbrev pub InInt64 : ℤ → Type 0
InInt64 a = (pos_part a < 2 ^ 63) × (neg_part a ≤ 2 ^ 63)

abbrev pub InInt32 : ℤ → Type 0
InInt32 a = (pos_part a < 2 ^ 31) × (neg_part a ≤ 2 ^ 31)

of_word-to_word_64 : (a : ℤ) → InInt64 a → (of_word 64 (to_word 64 a) ≡ a) × (to_word 64 a < 2 ^ 64)
unfolding of_word to_word
of_word-to_word_64 (pos n) h = ground arith
of_word-to_word_64 (negsuc n) h = ground arith

of_word-to_word_32 : (a : ℤ) → InInt32 a → (of_word 32 (to_word 32 a) ≡ a) × (to_word 32 a < 2 ^ 32)
unfolding of_word to_word
of_word-to_word_32 (pos n) h = ground arith
of_word-to_word_32 (negsuc n) h = ground arith

-- Signed numbers of 64 and of 32 bits are read back from their bytes, negative ones included.
pub signed_round_trip :
    (a b : ℤ)
    → InInt64 a
    → InInt32 b
    → (bytes_to_int64 (int64_to_bytes a) ≡ some a) × (bytes_to_int32 (int32_to_bytes b) ≡ some b)
unfolding bytes_to_int64 int64_to_bytes bytes_to_int32 int32_to_bytes
signed_round_trip a b h k =
    let (e, lt) = of_word-to_word_64 a h in
    let (e', lt') = of_word-to_word_32 b k in
    (
      rw (read_exact 8 (to_word 64 a) (omega arith)) (ap some e),
      rw (read_exact 4 (to_word 32 b) (omega arith)) (ap some e'),
    )

-- Numbers are read back from their bytes: unsigned ones of 64 bits, also if more bytes follow, and signed
-- ones of 64 and of 32 bits, negative ones included.
pub round_trips :
    (n : ℕ) (rest : Bytes) (a b : ℤ)
    → n < 2 ^ 64
    → InInt64 a
    → InInt32 b
    → (bytes_to_uint64 (uint64_to_bytes n ++ rest) ≡ some n)
      × (bytes_to_int64 (int64_to_bytes a) ≡ some a)
      × (bytes_to_int32 (int32_to_bytes b) ≡ some b)
round_trips n rest a b h k l =
    let (wide, narrow) = signed_round_trip a b k l in
    (bytes_to_uint64-uint64_to_bytes n rest h, wide, narrow)
