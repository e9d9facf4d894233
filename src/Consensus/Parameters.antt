-- ===== src/Consensus/Parameters.antt =====
-- util/parameter.go: the constants of the agreement.
use alg_bc_db.Prelude.{ℕ, Bytes, codes}

abbrev pub expected_block_proposers : ℕ
expected_block_proposers = 26

abbrev pub expected_committee_members : ℕ
expected_committee_members = 10

abbrev pub expected_final_committee_members : ℕ
expected_final_committee_members = 20

-- `uint64(float64(expectedNum)*threshold)`: 10 members at 0.2, and 20 at 0.1.
abbrev pub needed_votes : ℕ
needed_votes = 2

abbrev pub max_steps : ℕ
max_steps = 12

-- The seed of the sortition is drawn anew every `R` rounds.
abbrev pub refresh_interval : ℕ
refresh_interval = 1000

abbrev pub committee : Bytes
committee = codes "committee"

abbrev pub proposer : Bytes
proposer = codes "proposer"

abbrev pub propose : ℕ
propose = 1000

abbrev pub reduction_one : ℕ
reduction_one = 1001

abbrev pub reduction_two : ℕ
reduction_two = 1002

abbrev pub final : ℕ
final = 1003

abbrev pub final_consensus : ℕ
final_consensus = 0

abbrev pub tentative_consensus : ℕ
tentative_consensus = 1
