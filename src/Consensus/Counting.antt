-- ===== src/Consensus/Counting.antt =====
-- The count of the votes of a step in algorand/algorand.go: `countVotes`, `processMsg` and
-- `commonCoin`. The waiting is over when a count starts, so its inbox is a list.
pub mod Quorum
pub mod Coin
use alg_bc_db.Prelude.{
  ℕ, zero, suc, ◌+◌, ◌-◌, ◌%◌, ◌^◌, Bool, true, false, not, ◌||◌, Option, none, some, List, [], ◌∷◌,
  ◌++◌, Bytes, equal, drop, ltb, leb, ◌==◌, if◌then◌else◌,
}
use alg_bc_db.Conversions.{read, uint64_to_bytes, be_value}
use alg_bc_db.Consensus.Sortition.{Rat, sub_users}
use alg_bc_db.Consensus.Messages.{VoteMessage, signed_data, recover_pubkey}

-- What a count depends on: the signature check of golang.org/x/crypto (a public key, a text and a
-- signature), the constant of the binomial, the tail of the own chain, whether the block that the
-- seed of a round is taken from is found, and the expected number of members.
pub record Setting : Type 0 where
  pub verify_sign : Bytes → Bytes → Bytes → Bool
  pub e : Rat
  pub tail_hash : Bytes
  pub seed_known : ℕ → Bool
  pub expected : ℕ

-- A vote with the weight that the node draws for it: `TokenOwn` is a random number at each call.
abbrev pub Weighed : Type 0
Weighed = VoteMessage × ℕ

-- `processMsg` once the key is recovered: the votes and the hash; `none` is a fault.
unfoldable pub judge : Setting → Bytes → Weighed → Option (ℕ × Bytes)
judge s pk (m, weight) =
    if not (s.verify_sign pk (signed_data m) (drop 32 m.signature))
    then some (0, [])
    else if not (equal m.parent_hash s.tail_hash)
    then some (0, [])
    else if not (s.seed_known m.round)
    then none
    else some (sub_users s.e s.expected weight m.vrf, m.hash)

unfoldable pub member : Bytes → List Bytes → Bool
member pk [] = false
member pk (v ∷ vs) = equal v pk || member pk vs

-- The variables of the loop. `BytesToInt32` of the hash is the index of its count, here the
-- unsigned number of the same four bytes.
pub record Tally : Type 0 where
  pub counts : ℕ → ℕ
  pub voters : List Bytes
  pub result : Bytes

unfoldable pub add_votes : (ℕ → ℕ) → ℕ → ℕ → ℕ → ℕ
add_votes counts index votes i = if i == index then counts i + votes else counts i

-- The body of the loop after `processMsg`.
abbrev pub enter : ℕ → Tally → Bytes → ℕ → Bytes → Option ℕ → Option Tally
enter needed t pk votes hash none = none
enter needed t pk votes hash (some index) = some (record {
  counts = add_votes t.counts index votes;
  voters = pk ∷ t.voters;
  result = if leb needed (add_votes t.counts index votes index) then hash else t.result;
})

abbrev pub weigh : ℕ → Tally → Bytes → Option (ℕ × Bytes) → Option Tally
weigh needed t pk none = none
weigh needed t pk (some (votes, hash)) =
    if member pk t.voters || votes == 0 then some t else enter needed t pk votes hash (read 4 hash)

abbrev pub count_keyed : Setting → ℕ → Tally → Weighed → Option Bytes → Option Tally
count_keyed s needed t m none = none
count_keyed s needed t m (some pk) = weigh needed t pk (judge s pk m)

unfoldable pub count_one : Setting → ℕ → Tally → Weighed → Option Tally
count_one s needed t m = count_keyed s needed t m (recover_pubkey m.0.signature)

unfoldable pub count_all : Setting → ℕ → Tally → List Weighed → Option Tally
count_all s needed t [] = some t
count_all s needed t (m ∷ ms) = elim (count_one s needed t m) [
  | none ↦ none
  | some t' ↦ count_all s needed t' ms
]

abbrev pub empty_tally : Tally
empty_tally = record { counts = λ i. 0; voters = []; result = [] }

-- What `countVotes` returns: a hash with no error, the error of the timeout, or a fault.
pub data Count : Type 0 where
  counted : Bytes → Count
  timed_out : Count
  faulted : Count

abbrev pub counted_of : Option Tally → Count
counted_of none = faulted
counted_of (some t) = counted t.result

-- `expired` says whether the timer, which runs as long as the sleep, has fired after the sleep. If
-- it has not, both results keep their zero values.
unfoldable pub count_votes : Setting → ℕ → List Weighed → Bool → Count
count_votes s needed [] expired = if expired then timed_out else counted []
count_votes s needed (m ∷ ms) expired = counted_of (count_all s needed empty_tally (m ∷ ms))

-- The loop of `commonCoin` over a vote's sub-users, from `j` on.
unfoldable pub least_hash : (Bytes → Bytes) → Bytes → ℕ → ℕ → ℕ → ℕ
least_hash sha256 vrf zero j best = best
least_hash sha256 vrf (suc left) j best =
    let h = be_value 0 (sha256 (vrf ++ uint64_to_bytes j)) in
    least_hash sha256 vrf left (j + 1) (if ltb h best then h else best)

-- The loop over the votes; a vote that `processMsg` refuses counts for nothing.
unfoldable pub coin_loop : Setting → (Bytes → Bytes) → List Weighed → ℕ → Option ℕ
coin_loop s sha256 [] best = some best
coin_loop s sha256 (m ∷ ms) best = elim (recover_pubkey m.0.signature) [
  | none ↦ none
  | some pk ↦ elim (judge s pk m) [
    | none ↦ none
    | some (votes, hash) ↦ coin_loop s sha256 ms (least_hash sha256 m.0.vrf (votes - 1) 1 best)
  ]
]

abbrev pub parity_of : Option ℕ → Option ℕ
parity_of none = none
parity_of (some n) = some (n % 2)

-- `commonCoin` starts from 2 to the number of bytes of a hash, 32.
unfoldable pub common_coin : Setting → (Bytes → Bytes) → List Weighed → Option ℕ
common_coin s sha256 ms = parity_of (coin_loop s sha256 ms (2 ^ 32))
