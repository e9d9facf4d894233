-- ===== src/Consensus/Tests.antt =====
-- algorand on concrete votes, proposals and counts, with a hash function that returns its input.
use alg_bc_db.Prelude.{
  ℕ, zero, suc, ◌<◌, ◌≤◌, ◌≡◌, subst, sym, ◌≢◌, ◌⊎◌, refl, true, false, some, none, List, [], ◌∷◌,
  ◌++◌, Bytes, equal, less, get_elem?, arith, All, replicate,
}
use alg_bc_db.Conversions.{read, be_value, be_bytes, uint64_to_bytes}
use alg_bc_db.DataChain.{Block, new_block}
use alg_bc_db.Consensus.Parameters.{final_consensus}
use alg_bc_db.Consensus.Sortition.{
  rat_one, search_interval, sum_prob, prob, rat_add, rat_mul, rat_leb, rat_ltb, factorial, cdf,
  hash_fraction, sub_users,
}
use alg_bc_db.Consensus.Sortition.Selection.{in_interval, sub_users_first}
use alg_bc_db.Consensus.Messages.{
  VoteMessage, Proposal, Peer, new_peer, Incoming, get_block, find_block, get_max_proposal, block,
  proposal, vote, recover_pubkey, signed_data,
}
use alg_bc_db.Consensus.Messages.Proposals.{
  handle_all, proposals_of, blocks_of, votes_of, handle_all_lem, get_max_proposal-NoneAbove,
}
use alg_bc_db.Consensus.Counting.{
  Setting, Weighed, Count, counted, timed_out, count_votes, count_all, count_one, judge, member,
  add_votes,
}
use alg_bc_db.Consensus.Counting.Quorum.{Backed, Says, count_votes-Says}
use alg_bc_db.Consensus.Protocol.{
  binary_loop, first_turn, second_turn, third_turn, Run, hangs, binary_ba, agreed, crashed, ba,
  empty_hash, reduction, reduced,
}
use alg_bc_db.Consensus.Protocol.Decision.{Explained, binary_ba-Explained}
use alg_bc_db.Consensus.Protocol.Support.{ba-Backed}
use alg_bc_db.Consensus.Protocol.Agreement.{Fits, ba-unanimous, ba-no_quorum}

abbrev same : Bytes → Bytes
same bs = bs

abbrev key_of : ℕ → Bytes
key_of n = replicate 32 n

abbrev vote_of : ℕ → Bytes → VoteMessage
vote_of voter hash = record {
  signature = key_of voter;
  round = 4;
  step = 1;
  vrf = 128 ∷ replicate 31 0;
  proof = [];
  parent_hash = 3 ∷ [];
  hash = hash;
}

abbrev setting : Setting
setting = record {
  verify_sign = λ pk text signature. true;
  e = record { num = 1; den = 4 };
  tail_hash = 3 ∷ [];
  seed_known = λ round. true;
  expected = 1;
}

-- The draws of the weights are 3 and 3.
abbrev votes : List Weighed
votes = (vote_of 1 (1 ∷ 2 ∷ 3 ∷ 4 ∷ []), 3) ∷ (vote_of 2 (1 ∷ 2 ∷ 3 ∷ 4 ∷ []), 3) ∷ []

votes_count : count_votes setting 2 votes true ≡ counted (1 ∷ 2 ∷ 3 ∷ 4 ∷ [])
unfolding count_votes count_all count_one recover_pubkey judge signed_data equal sub_users
    search_interval cdf sum_prob prob rat_add rat_mul rat_leb rat_ltb factorial hash_fraction
    be_value member read add_votes
votes_count = refl

count_votes-Says_example : Says 2 setting votes true (count_votes setting 2 votes true)
count_votes-Says_example = count_votes-Says 2 setting (omega arith) votes true

sub_users_first_example :
    (sub_users rat_one 1 3 (128 ∷ []) ≤ 3)
    × (((in_interval (cdf rat_one 1 3) (hash_fraction (128 ∷ [])) (sub_users rat_one 1 3 (128 ∷ []))
            ≡ true)
          × ((i : ℕ)
              → i < sub_users rat_one 1 3 (128 ∷ [])
              → in_interval (cdf rat_one 1 3) (hash_fraction (128 ∷ [])) i ≡ false))
        ⊎ ((sub_users rat_one 1 3 (128 ∷ []) ≡ 0)
            × ((i : ℕ)
                → i ≤ 3
                → in_interval (cdf rat_one 1 3) (hash_fraction (128 ∷ [])) i ≡ false)))
sub_users_first_example = sub_users_first rat_one 1 3 (128 ∷ [])

abbrev proposal_of : Bytes → Proposal
proposal_of prior = record {
  round = 4;
  hash = [];
  prior = prior;
  vrf = 128 ∷ [];
  proof = [];
  pubkey = [];
}

abbrev block_of : Bytes → Block
block_of hash = record new_block { round = 4; current_block_hash = hash }

abbrev messages : List Incoming
messages =
    proposal (proposal_of (2 ∷ [])) true
    ∷ proposal (proposal_of (3 ∷ [])) false
    ∷ block (block_of (5 ∷ []))
    ∷ vote (vote_of 1 (5 ∷ []))
    ∷ []

abbrev peer : Peer
peer = handle_all messages new_peer

handle_all_lem_example :
    (peer.proposals 4 ≡ new_peer.proposals 4 ++ proposals_of 4 messages)
    × (peer.blocks 4 ≡ new_peer.blocks 4 ++ blocks_of 4 messages)
    × (peer.in_votes (52 ∷ 49 ∷ [])
        ≡ new_peer.in_votes (52 ∷ 49 ∷ []) ++ votes_of (52 ∷ 49 ∷ []) messages)
    × (peer.incoming_votes (52 ∷ 49 ∷ []) ≡ new_peer.incoming_votes (52 ∷ 49 ∷ []))
handle_all_lem_example = handle_all_lem messages new_peer 4 (52 ∷ 49 ∷ [])

get_max_proposal-NoneAbove_example :
    ((get_max_proposal peer 4 ≡ none) × (peer.proposals 4 ≡ []))
    ⊎ ((m : Proposal) × (get_max_proposal peer 4 ≡ some m)
        × ((i : ℕ) × (get_elem? (peer.proposals 4) i ≡ some m))
        × All (λ b. less m.prior b.prior ≡ false) (peer.proposals 4))
get_max_proposal-NoneAbove_example = get_max_proposal-NoneAbove peer 4

-- The counts of a run: a timeout, a hash, and timeouts again.
abbrev counts : ℕ → Count
counts zero = timed_out
counts (suc zero) = counted (5 ∷ [])
counts (suc (suc n)) = timed_out

abbrev sample_run : Run
sample_run = record { hash = 5 ∷ []; empty = 0 ∷ []; count = counts; coin = λ n. some 0 }

sample_run_hangs :
    binary_ba sample_run
    ≡ hangs (
        (1, 5 ∷ [])
        ∷ (2, 5 ∷ [])
        ∷ (3, 5 ∷ [])
        ∷ (3, 5 ∷ [])
        ∷ (4, 5 ∷ [])
        ∷ (5, 0 ∷ [])
        ∷ (5, 5 ∷ [])
        ∷ (6, 5 ∷ [])
        ∷ (7, 0 ∷ [])
        ∷ (7, 5 ∷ [])
        ∷ (8, 5 ∷ [])
        ∷ (9, 0 ∷ [])
        ∷ (9, 5 ∷ [])
        ∷ (10, 5 ∷ [])
        ∷ (11, 0 ∷ [])
        ∷ (11, 5 ∷ [])
        ∷ (12, 5 ∷ [])
        ∷ (13, 0 ∷ [])
        ∷ [])
unfolding binary_ba binary_loop first_turn second_turn third_turn equal
sample_run_hangs = refl

binary_ba-Explained_example : Explained sample_run (binary_ba sample_run)
binary_ba-Explained_example = binary_ba-Explained sample_run

abbrev holder : Peer
holder = record new_peer { blocks = λ round. block_of (5 ∷ []) ∷ [] }

holder-get_block : get_block holder 4 (5 ∷ []) ≡ some (block_of (5 ∷ []))
unfolding get_block find_block equal
holder-get_block = refl

empty_hash-ne : 5 ∷ [] ≢ empty_hash same 4 (3 ∷ [])
unfolding empty_hash uint64_to_bytes be_bytes
empty_hash-ne e = cc

empty_hash-ne_nil : empty_hash same 4 (3 ∷ []) ≢ []
unfolding empty_hash uint64_to_bytes be_bytes
empty_hash-ne_nil e = cc

ba-unanimous_example :
    ba same holder 4
      (3 ∷ [])
      (some (3 ∷ []))
      (5 ∷ [])
      (counted (5 ∷ []))
      (counted (5 ∷ []))
      (λ n. counted (5 ∷ []))
      (λ n. some 0)
      (counted (5 ∷ []))
    ≡ agreed final_consensus (record (block_of (5 ∷ [])) { consensus = final_consensus })
ba-unanimous_example =
    ba-unanimous same holder 4 (3 ∷ []) (3 ∷ []) (5 ∷ []) (5 ∷ []) (λ n. some 0) (block_of (5 ∷ []))
      empty_hash-ne empty_hash-ne holder-get_block

abbrev voted : Bytes
voted = 1 ∷ 2 ∷ 3 ∷ 4 ∷ []

abbrev voted_holder : Peer
voted_holder = record new_peer { blocks = λ round. block_of voted ∷ [] }

voted_holder-get_block : get_block voted_holder 4 voted ≡ some (block_of voted)
unfolding get_block find_block equal
voted_holder-get_block = refl

voted-ne : voted ≢ empty_hash same 4 (3 ∷ [])
unfolding empty_hash uint64_to_bytes be_bytes
voted-ne e = cc

-- The counts of `binaryBA` are those of the two votes above.
voted_agreed :
    ba same voted_holder 4
      (3 ∷ [])
      (some (3 ∷ []))
      voted
      (counted voted)
      (counted voted)
      (λ n. count_votes setting 2 votes true)
      (λ n. some 0)
      (counted voted)
    ≡ agreed final_consensus (record (block_of voted) { consensus = final_consensus })
voted_agreed =
    subst
      (λ c.
        ba same voted_holder 4 (3 ∷ []) (some (3 ∷ [])) voted (counted voted) (counted voted)
          (λ n. c) (λ n. some 0) (counted voted)
        ≡ agreed final_consensus (record (block_of voted) { consensus = final_consensus }))
      (sym votes_count)
      (ba-unanimous same voted_holder 4 (3 ∷ []) (3 ∷ []) voted voted (λ n. some 0) (block_of voted)
        voted-ne voted-ne voted_holder-get_block)

ba-Backed_example :
    (hash : Bytes) × (prev : Bytes) × (n : ℕ) × (some (3 ∷ []) ≡ some prev)
    × Backed 2 setting votes hash
    × Fits same 4 prev hash (record (block_of voted) { consensus = final_consensus })
ba-Backed_example =
    ba-Backed same voted_holder 4 (3 ∷ []) (some (3 ∷ [])) voted (counted voted) (counted voted)
      setting 2 (λ n. votes) (λ n. true) (λ n. some 0) (counted voted) final_consensus
      (record (block_of voted) { consensus = final_consensus }) (omega arith) voted_agreed

holder-get_block_nil : get_block holder 4 [] ≡ none
unfolding get_block find_block equal
holder-get_block_nil = refl

reduced_once :
    reduction (empty_hash same 4 (3 ∷ [])) (5 ∷ []) (counted (5 ∷ [])) (counted (5 ∷ []))
    ≡ some (record { hash = 5 ∷ []; votes = (1001, 5 ∷ []) ∷ (1002, 5 ∷ []) ∷ [] })
unfolding reduction reduced
reduced_once = refl

ba-no_quorum_example :
    ba same holder 4
      (3 ∷ [])
      (some (3 ∷ []))
      (5 ∷ [])
      (counted (5 ∷ []))
      (counted (5 ∷ []))
      (λ n. counted [])
      (λ n. some 0)
      timed_out
    ≡ crashed
ba-no_quorum_example =
    ba-no_quorum same holder 4 (3 ∷ []) (3 ∷ []) (5 ∷ []) (counted (5 ∷ [])) (counted (5 ∷ [])) _
      (λ n. counted []) (λ n. some 0) timed_out reduced_once refl empty_hash-ne_nil
      empty_hash-ne_nil holder-get_block_nil
