-- ===== src/Consensus/Protocol.antt =====
-- The agreement of a round in algorand/algorand.go: `reduction`, `binaryBA` and `BA` over the results
-- of their counts, with the votes that the node casts.
pub mod Decision
pub mod Agreement
pub mod Support
use alg_bc_db.Prelude.{
  ℕ, zero, suc, ◌+◌, Bool, true, false, not, Option, none, some, List, [], ◌∷◌, ◌++◌, Bytes, equal,
  ltb, ◌==◌, if◌then◌else◌,
}
use alg_bc_db.Conversions.{uint64_to_bytes}
use alg_bc_db.DataChain.{Block, new_block}
use alg_bc_db.Consensus.Parameters.{
  max_steps, reduction_one, reduction_two, final, final_consensus, tentative_consensus,
}
use alg_bc_db.Consensus.Messages.{Peer, get_block}
use alg_bc_db.Consensus.Counting.{Count, counted, timed_out, faulted}

-- A call of `committeeVote`: its step and its hash.
abbrev pub Ballot : Type 0
Ballot = ℕ × Bytes

pub record Vote : Type 0 where
  pub hash : Bytes
  pub votes : List Ballot

unfoldable pub empty_hash : (Bytes → Bytes) → ℕ → Bytes → Bytes
empty_hash sha256 round prev = sha256 (uint64_to_bytes round ++ prev)

-- After a count of `reduction`; `none` is a fault.
unfoldable pub reduced : Bytes → Count → Option Bytes
reduced empty timed_out = some empty
reduced empty (counted hash) = some hash
reduced empty faulted = none

unfoldable pub reduction : Bytes → Bytes → Count → Count → Option Vote
reduction empty hash first second = elim (reduced empty first) [
  | none ↦ none
  | some hash1 ↦ elim (reduced empty second) [
    | none ↦ none
    | some hash2 ↦
        some (record { hash = hash2; votes = (reduction_one, hash) ∷ (reduction_two, hash1) ∷ [] })
  ]
]

-- What `binaryBA` does after a count.
pub data Turn : Type 0 where
  goes_on : Bytes → Turn
  returns : Bytes → Turn
  panics : Turn

unfoldable pub first_turn : Bytes → Bytes → Count → Turn
first_turn hash empty timed_out = goes_on hash
first_turn hash empty (counted r) = if not (equal r empty) then returns r else goes_on r
first_turn hash empty faulted = panics

unfoldable pub second_turn : Bytes → Count → Turn
second_turn empty timed_out = goes_on empty
second_turn empty (counted r) = if equal r empty then returns r else goes_on r
second_turn empty faulted = panics

abbrev pub tossed : Bytes → Bytes → Option ℕ → Option Bytes
tossed hash empty none = none
tossed hash empty (some coin) = some (if coin == 0 then hash else empty)

-- The third count never ends the loop; `none` is a fault.
unfoldable pub third_turn : Bytes → Bytes → Option ℕ → Count → Option Bytes
third_turn hash empty coin timed_out = tossed hash empty coin
third_turn hash empty coin (counted r) = some r
third_turn hash empty coin faulted = none

-- What `binaryBA` runs on: its hash, the hash of the empty block, the result of its `n`th call of
-- `countVotes`, and of `commonCoin` after it.
pub record Run : Type 0 where
  pub hash : Bytes
  pub empty : Bytes
  pub count : ℕ → Count
  pub coin : ℕ → Option ℕ

pub data Outcome : Type 0 where
  decided : Bytes → ℕ → List Ballot → Outcome
  hangs : List Ballot → Outcome
  fault : Outcome
  out_of_fuel : Outcome

-- The votes for the next three steps of a node that is done.
unfoldable pub ahead : ℕ → Bytes → List Ballot
ahead step r = (step + 1, r) ∷ (step + 2, r) ∷ (step + 3, r) ∷ []

unfoldable pub final_vote : ℕ → Bytes → List Ballot
final_vote step r = if step == 1 then (final, r) ∷ [] else []

-- The loop from `step` and the `n`th count on: the third vote of an iteration and the first of the
-- next are of the same step.
unfoldable pub binary_loop : ℕ → Run → ℕ → ℕ → Bytes → List Ballot → Outcome
binary_loop zero a step n r cast = out_of_fuel
binary_loop (suc fuel) a step n r cast = elim (ltb step max_steps) [
  | false ↦ hangs cast
  | true ↦ elim (first_turn a.hash a.empty (a.count n)) [
    | panics ↦ fault
    | returns v ↦ decided v step (cast ++ ((step, r) ∷ (ahead step v ++ final_vote step v)))
    | goes_on r1 ↦ elim (second_turn a.empty (a.count (n + 1))) [
      | panics ↦ fault
      | returns v ↦ decided v (step + 1) (cast ++ ((step, r) ∷ (step + 1, r1) ∷ ahead (step + 1) v))
      | goes_on r2 ↦ elim (third_turn a.hash a.empty (a.coin (n + 2)) (a.count (n + 2))) [
        | none ↦ fault
        | some r3 ↦
            binary_loop fuel a (step + 2) (n + 3) r3
              (cast ++ (step, r) ∷ (step + 1, r1) ∷ (step + 2, r2) ∷ [])
      ]
    ]
  ]
]

-- Each iteration adds 2 to the step, which starts from 1.
unfoldable pub binary_ba : Run → Outcome
unfolding binary_loop
binary_ba a = binary_loop 7 a 1 0 a.hash []

-- The result of `BA`; `stuck` is the loop that hangs forever.
pub data Agreed : Type 0 where
  agreed : ℕ → Block → Agreed
  stuck : Agreed
  crashed : Agreed

unfoldable pub empty_block : ℕ → Bytes → Block
empty_block round prev = record new_block { round = round; previous_block_hash = prev }

-- The new block of a hash. `last` is the hash of the last block, whose empty hash is compared.
unfoldable pub chosen : (Bytes → Bytes) → Peer → ℕ → Bytes → Bytes → Option Block
chosen sha256 p round last hash =
    if equal hash (empty_hash sha256 round last)
    then some (empty_block round last)
    else get_block p round hash

-- The hash that the count of the final votes returns; `none` is a fault.
unfoldable pub returned : Count → Option Bytes
returned timed_out = some []
returned (counted r) = some r
returned faulted = none

abbrev pub typed : Bool → Option Block → Agreed
typed same none = crashed
typed same (some b) =
    let kind = if same then final_consensus else tentative_consensus in
    agreed kind (record b { consensus = kind })

abbrev pub conclude : (Bytes → Bytes) → Peer → ℕ → Bytes → Bytes → Option Bytes → Agreed
conclude sha256 p round last hash none = crashed
conclude sha256 p round last hash (some r) = typed (equal r hash) (chosen sha256 p round last hash)

-- `BA` after `binaryBA`; `last` is none when `lastBlock` finds no block.
unfoldable pub finish : (Bytes → Bytes) → Peer → ℕ → Option Bytes → Count → Outcome → Agreed
finish sha256 p round last final_count (hangs cast) = stuck
finish sha256 p round last final_count fault = crashed
finish sha256 p round last final_count out_of_fuel = crashed
finish sha256 p round none final_count (decided hash step cast) = crashed
finish sha256 p round (some last) final_count (decided hash step cast) =
    conclude sha256 p round last hash (returned final_count)

-- `tail` is the hash of the own chain's tail, `first` and `second` the counts of the reduction.
unfoldable pub ba :
    (Bytes → Bytes)
    → Peer
    → ℕ
    → Bytes
    → Option Bytes
    → Bytes
    → Count
    → Count
    → (ℕ → Count)
    → (ℕ → Option ℕ)
    → Count
    → Agreed
unfolding reduction binary_ba
ba sha256 p round tail last proposed first second count coin final_count =
    let empty = empty_hash sha256 round tail in
    elim (reduction empty proposed first second) [
      | none ↦ crashed
      | some v ↦
          finish sha256 p round last final_count
            (binary_ba (record { hash = v.hash; empty = empty; count = count; coin = coin }))
    ]
