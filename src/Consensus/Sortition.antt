-- ===== src/Consensus/Sortition.antt =====
-- The sortition of algorand/algorand.go over the approximate binomial of util/binomial.go: how many
-- sub-users a node has in a round, and the priority of their proposal.
pub mod Selection
pub mod Priority
use alg_bc_db.Prelude.{
  ℕ, zero, suc, ◌+◌, ◌-◌, ◌*◌, ◌%◌, ◌^◌, Bool, true, false, ◌&&◌, Option, none, some, List, [], ◌∷◌,
  ◌++◌, Bytes, less, ltb, leb, ◌==◌, if◌then◌else◌,
}
use alg_bc_db.Conversions.{uint64_to_bytes, be_value}
use alg_bc_db.Consensus.Parameters.{refresh_interval}

-- `big.Rat`, for the numbers from 0 up; the denominator is positive.
pub record Rat : Type 0 where
  pub num : ℕ
  pub den : ℕ

abbrev pub rat_zero : Rat
rat_zero = record { num = 0; den = 1 }

abbrev pub rat_one : Rat
rat_one = record { num = 1; den = 1 }

unfoldable pub rat_add : Rat → Rat → Rat
rat_add a b = record { num = a.num * b.den + b.num * a.den; den = a.den * b.den }

unfoldable pub rat_mul : Rat → Rat → Rat
rat_mul a b = record { num = a.num * b.num; den = a.den * b.den }

-- `a.Cmp(b) <= 0` and `a.Cmp(b) < 0`.
unfoldable pub rat_leb : Rat → Rat → Bool
rat_leb a b = leb (a.num * b.den) (b.num * a.den)

unfoldable pub rat_ltb : Rat → Rat → Bool
rat_ltb a b = ltb (a.num * b.den) (b.num * a.den)

-- `MulRange(1, k)`.
unfoldable pub factorial : ℕ → ℕ
factorial zero = 1
factorial (suc k) = suc k * factorial k

-- `Prob`: `e` is the rational of the float `math.Pow(math.E, -expected)`. The cache keeps what the
-- first call computed.
unfoldable pub prob : Rat → ℕ → ℕ → Rat
unfolding rat_mul factorial
prob e expected k = rat_mul (record { num = expected ^ k; den = factorial k }) e

-- The loop of `CDF`: the sum of the probabilities from 0 to `k`.
unfoldable pub sum_prob : Rat → ℕ → ℕ → Rat
unfolding rat_add prob
sum_prob e expected zero = rat_add rat_zero (prob e expected 0)
sum_prob e expected (suc k) = rat_add (sum_prob e expected k) (prob e expected (suc k))

unfoldable pub cdf : Rat → ℕ → ℕ → ℕ → Rat
unfolding sum_prob
cdf e expected n k = if leb n k then rat_one else sum_prob e expected k

-- `lower` is the upper end of the round before, where there is one.
abbrev pub lower_end : (ℕ → Rat) → ℕ → Option Rat → Rat
lower_end f j none = f j
lower_end f j (some u) = u

-- The loop of `subUsers`, with the rounds that are left; `none` is the loop that ran out.
unfoldable pub search_interval : (ℕ → Rat) → Rat → ℕ → ℕ → Option Rat → Option ℕ
unfolding rat_leb rat_ltb
search_interval f hash zero j upper = none
search_interval f hash (suc left) j upper =
    let rest = search_interval f hash left (j + 1) (some (f (j + 1))) in
    if rat_leb (lower_end f j upper) hash && rat_ltb hash (f (j + 1)) then some j else rest

abbrev pub or_zero : Option ℕ → ℕ
or_zero none = 0
or_zero (some j) = j

-- The VRF output as a fraction of 2^256.
unfoldable pub hash_fraction : Bytes → Rat
hash_fraction vrf = record { num = be_value 0 vrf; den = 2 ^ 256 }

unfoldable pub sub_users : Rat → ℕ → ℕ → Bytes → ℕ
unfolding search_interval cdf hash_fraction
sub_users e expected weight vrf =
    or_zero (search_interval (cdf e expected weight) (hash_fraction vrf) (weight + 1) 0 none)

-- The loop of `maxPriority`, from user `i` on.
unfoldable pub max_priority_loop : (Bytes → Bytes) → Bytes → ℕ → ℕ → Bytes → Bytes
max_priority_loop sha256 vrf zero i best = best
max_priority_loop sha256 vrf (suc left) i best =
    let prior = sha256 (vrf ++ uint64_to_bytes i) in
    max_priority_loop sha256 vrf left (i + 1) (if less best prior then prior else best)

unfoldable pub max_priority : (Bytes → Bytes) → Bytes → ℕ → Bytes
unfolding max_priority_loop
max_priority sha256 vrf users = max_priority_loop sha256 vrf users 1 []

-- Where the seed of round `round` comes from: `none` is the hash of nothing, and `some r` is the
-- block of round `r`. The subtraction is that of a 64-bit unsigned number.
unfoldable pub seed_round : ℕ → Option ℕ
seed_round round =
    let real = (round + (2 ^ 64 - 1)) % 2 ^ 64 in
    let rest = round % refresh_interval in if ltb real rest then none else some (real - rest)
