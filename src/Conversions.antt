-- ===== src/Conversions.antt =====
-- util/util.go: numbers as big-endian bytes by `encoding/binary`. A `log.Panic` is `none`.
pub mod RoundTrip
mod Tests
use alg_bc_db.Prelude.{
  ℕ, zero, suc, ◌+◌, ◌-◌, ◌*◌, ◌/◌, ◌%◌, ◌^◌, Option, none, some, List, [], ◌∷◌, ◌++◌, Bytes,
  length, take, ltb, if◌then◌else◌,
}
use alg_bc_db.Prelude.Int.{ℤ, pos, negsuc}

-- The `k` low bytes of `n`, most significant first: what `binary.Write` writes.
unfoldable pub be_bytes : ℕ → ℕ → Bytes
be_bytes zero n = []
be_bytes (suc k) n = be_bytes k (n / 256) ++ (n % 256) ∷ []

-- The number that the bytes stand for, after the digits in `acc`.
unfoldable pub be_value : ℕ → Bytes → ℕ
be_value acc [] = acc
be_value acc (b ∷ bs) = be_value (acc * 256 + b) bs

-- `binary.Read` of a value of `k` bytes: it fails on a shorter input, and ignores what follows.
unfoldable pub read : ℕ → Bytes → Option ℕ
read k val = if ltb (length val) k then none else some (be_value 0 (take k val))

-- The bit pattern of a signed number of `w` bits.
unfoldable pub to_word : ℕ → ℤ → ℕ
to_word w (pos n) = n % 2 ^ w
to_word w (negsuc n) = (2 ^ w - 1) - n % 2 ^ w

-- The signed number of a bit pattern.
unfoldable pub of_word : ℕ → ℕ → ℤ
of_word w n = if ltb n (2 ^ (w - 1)) then pos n else negsuc (2 ^ w - 1 - n)

unfoldable pub uint64_to_bytes : ℕ → Bytes
uint64_to_bytes val = be_bytes 8 val

unfoldable pub int64_to_bytes : ℤ → Bytes
int64_to_bytes val = be_bytes 8 (to_word 64 val)

unfoldable pub int32_to_bytes : ℤ → Bytes
int32_to_bytes val = be_bytes 4 (to_word 32 val)

unfoldable pub bytes_to_uint64 : Bytes → Option ℕ
bytes_to_uint64 val = read 8 val

-- `Option.map`, by clauses that compute.
abbrev pub signed : ℕ → Option ℕ → Option ℤ
signed w none = none
signed w (some n) = some (of_word w n)

unfoldable pub bytes_to_int64 : Bytes → Option ℤ
bytes_to_int64 val = signed 64 (read 8 val)

unfoldable pub bytes_to_int32 : Bytes → Option ℤ
bytes_to_int32 val = signed 32 (read 4 val)

-- `binary.Write` and `binary.Read` refuse a value whose size is not fixed, as `int` and `string`
-- are, so these panic on every input.
unfoldable pub int_to_bytes : ℤ → Option Bytes
int_to_bytes val = none

unfoldable pub bytes_to_int : Bytes → Option ℤ
bytes_to_int val = none

unfoldable pub str_to_bytes : Bytes → Option Bytes
str_to_bytes val = none
