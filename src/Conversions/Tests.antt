-- ===== src/Conversions/Tests.antt =====
-- util/util.go on concrete numbers.
use alg_bc_db.Prelude.{◌++◌, ◌≡◌, refl, some, [], ◌∷◌, arith}
use alg_bc_db.Prelude.Int.{pos, negsuc}
use alg_bc_db.Conversions.{
  be_bytes, uint64_to_bytes, bytes_to_uint64, int64_to_bytes, bytes_to_int64, int32_to_bytes,
  bytes_to_int32,
}
use alg_bc_db.Conversions.RoundTrip.{round_trips}

bytes_of_258 : uint64_to_bytes 258 ≡ 0 ∷ 0 ∷ 0 ∷ 0 ∷ 0 ∷ 0 ∷ 1 ∷ 2 ∷ []
unfolding uint64_to_bytes be_bytes
bytes_of_258 = refl

round_trips_example :
    (bytes_to_uint64 (uint64_to_bytes 258 ++ 7 ∷ []) ≡ some 258)
    × (bytes_to_int64 (int64_to_bytes (negsuc 4)) ≡ some (negsuc 4))
    × (bytes_to_int32 (int32_to_bytes (pos 5)) ≡ some (pos 5))
round_trips_example =
    round_trips 258 (7 ∷ []) (negsuc 4) (pos 5) (omega arith) (omega arith) (omega arith)
