-- ===== src/Consensus/Messages.antt =====
-- algorand/message.go and peer.go: votes and proposals, and what a peer keeps of them.
pub mod Keys
pub mod Proposals
use alg_bc_db.Prelude.{
  ℕ, zero, suc, ◌+◌, ◌/◌, ◌%◌, ◌≤◌, Bool, true, false, not, ◌||◌, Option, none, some, List, [], ◌∷◌,
  ◌++◌, Bytes, equal, less, lookup, insert, length, take, drop, ltb, ◌==◌, if◌then◌else◌,
}
use alg_bc_db.Conversions.{uint64_to_bytes}
use alg_bc_db.DataChain.{Block}
use alg_bc_db.Consensus.Parameters.{expected_block_proposers}
use alg_bc_db.Consensus.Sortition.{Rat, sub_users, max_priority}

pub record VoteMessage : Type 0 where
  pub signature : Bytes
  pub round : ℕ
  pub step : ℕ
  pub vrf : Bytes
  pub proof : Bytes
  pub parent_hash : Bytes
  pub hash : Bytes

pub record Proposal : Type 0 where
  pub round : ℕ
  pub hash : Bytes
  pub prior : Bytes
  pub vrf : Bytes
  pub proof : Bytes
  pub pubkey : Bytes

-- What `Sign` and `VerifySign` sign.
unfoldable pub signed_data : VoteMessage → Bytes
signed_data v =
    uint64_to_bytes v.round
    ++ (uint64_to_bytes v.step ++ (v.vrf ++ (v.proof ++ (v.parent_hash ++ v.hash))))

-- `RecoverPubkey`: the first 32 bytes; a shorter signature is a fault.
unfoldable pub recover_pubkey : Bytes → Option Bytes
recover_pubkey sign = if ltb (length sign) 32 then none else some (take 32 sign)

-- `VerifyVRF` calls the verification and returns nil whatever that answers. `ecvrf_verify` is the
-- package r2ishiguro/vrf.
unfoldable pub verify_vrf : (Bytes → Bytes → Bytes → Bool) → Bytes → Bytes → Bytes → Bool
verify_vrf ecvrf_verify pk proof m = let ignored = ecvrf_verify pk proof m in true

-- `Proposal.Verify`: false is an error. `e` is as in `sub_users`.
unfoldable pub verify_proposal :
    (Bytes → Bytes → Bytes → Bool) → (Bytes → Bytes) → Rat → ℕ → Bytes → Proposal → Bool
unfolding verify_vrf
verify_proposal ecvrf_verify sha256 e weight m b =
    if not (verify_vrf ecvrf_verify b.pubkey b.proof m)
    then false
    else equal (max_priority sha256 b.vrf (sub_users e expected_block_proposers weight b.vrf))
        b.prior

-- `strconv.Itoa` of a number below 2^63: its decimal digits.
unfoldable pub digits_of : ℕ → ℕ → Bytes → Bytes
digits_of zero n rest = rest
digits_of (suc fuel) n rest =
    let more = digits_of fuel (n / 10) ((48 + n % 10) ∷ rest) in
    if ltb n 10 then (48 + n) ∷ rest else more

unfoldable pub itoa : ℕ → Bytes
unfolding digits_of
itoa n = digits_of (suc n) n []

unfoldable pub construct_vote_key : ℕ → ℕ → Bytes
unfolding itoa
construct_vote_key round step = itoa round ++ itoa step

-- The global tables of the proposals and blocks of a round and of the votes of a key, and the
-- peer's own table of incoming votes. A round is looked up by its decimal name.
pub record Peer : Type 0 where
  pub proposals : ℕ → List Proposal
  pub blocks : ℕ → List Block
  pub in_votes : Bytes → List VoteMessage
  pub incoming_votes : Bytes → List VoteMessage

unfoldable pub new_peer : Peer
new_peer = record {
  proposals = λ r. [];
  blocks = λ r. [];
  in_votes = λ k. [];
  incoming_votes = λ k. [];
}

-- `m[round] = append(m[round], x)`.
unfoldable pub append_round {ℓ} : {A : Type ℓ} → (ℕ → List A) → ℕ → A → ℕ → List A
append_round m round x r = if r == round then m r ++ x ∷ [] else m r

unfoldable pub append_key {ℓ} : {A : Type ℓ} → (Bytes → List A) → Bytes → A → Bytes → List A
append_key m key x k = if equal k key then m k ++ x ∷ [] else m k

unfoldable pub add_block : Peer → Block → Peer
unfolding append_round
add_block p b = record p { blocks = append_round p.blocks b.round b }

unfoldable pub add_proposal : Peer → ℕ → Proposal → Peer
unfolding append_round
add_proposal p round b = record p { proposals = append_round p.proposals round b }

-- What arrives, decoded: a block, a proposal with the result of its verification, or a vote.
pub data Incoming : Type 0 where
  block : Block → Incoming
  proposal : Proposal → Bool → Incoming
  vote : VoteMessage → Incoming

-- `Handle`; a proposal that does not verify is dropped with an error.
unfoldable pub handle : Peer → Incoming → Peer
unfolding add_block add_proposal append_key
handle p (block b) = add_block p b
handle p (proposal b verified) = if verified then add_proposal p b.round b else p
handle p (vote v) = record p {
  in_votes = append_key p.in_votes (construct_vote_key v.round v.step) v;
}

-- The loop of `getBlock`: the last block with the hash.
unfoldable pub find_block : Bytes → Option Block → List Block → Option Block
find_block hash best [] = best
find_block hash best (b ∷ bs) =
    find_block hash (if equal b.current_block_hash hash then some b else best) bs

unfoldable pub get_block : Peer → ℕ → Bytes → Option Block
unfolding find_block
get_block p round hash = find_block hash none (p.blocks round)

-- The loop of `getMaxProposal`: `<=` lets a later proposal replace an equal one.
unfoldable pub max_proposal_loop : Proposal → List Proposal → Proposal
max_proposal_loop best [] = best
max_proposal_loop best (b ∷ bs) = max_proposal_loop (if less b.prior best.prior then best else b) bs

-- `getMaxProposal`; `none` is the index out of range on a round without proposals.
unfoldable pub max_proposal_of : List Proposal → Option Proposal
max_proposal_of [] = none
max_proposal_of (b ∷ bs) = some (max_proposal_loop b (b ∷ bs))

unfoldable pub get_max_proposal : Peer → ℕ → Option Proposal
unfolding max_proposal_of max_proposal_loop
get_max_proposal p round = max_proposal_of (p.proposals round)

unfoldable pub get_incoming_msgs : Peer → ℕ → ℕ → List VoteMessage
get_incoming_msgs p round step = p.incoming_votes (construct_vote_key round step)
