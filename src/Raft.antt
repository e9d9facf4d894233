-- ===== src/Raft.antt =====
-- Raft/raft.go and Raft/rpc.go: the election of the node that keeps the accounts. The calls that run
-- side by side, the channels and the network are in the child Election.
pub mod Election
pub mod Votes
pub mod Local
pub mod Moves
pub mod Safety
pub mod Stuck
pub mod Race
mod Tests
use alg_bc_db.Prelude.{
  ℕ, ◌+◌, ◌-◌, ◌*◌, ◌/◌, Bool, true, false, not, ◌&&◌, Bytes, codes, equal, ◌++◌, ltb, leb, ◌==◌,
  if◌then◌else◌,
}

-- `state` is 0 for a follower, 1 for a candidate and 2 for a leader.
pub record Raft : Type 0 where
  pub ip : Bytes
  pub me : Bytes
  pub vote : ℕ
  pub current_term : ℕ
  pub voted_for : Bytes
  pub state : ℕ
  pub last_send_heart_beat_time : ℕ
  pub current_leader : Bytes

-- The mark of no node.
abbrev pub nobody : Bytes
nobody = codes "-1"

unfoldable pub new_raft : Bytes → Bytes → Raft
new_raft ip port = record {
  ip = ip;
  me = ip ++ port;
  vote = 0;
  current_term = 0;
  voted_for = nobody;
  state = 0;
  last_send_heart_beat_time = 0;
  current_leader = nobody;
}

unfoldable pub re_default : Raft → Raft
re_default rf = record rf { vote = 0; voted_for = nobody; state = 0 }

-- The test of `becomeCandidate`, after its sleep.
unfoldable pub may_stand : Raft → Bool
may_stand rf = rf.state == 0 && (equal rf.current_leader nobody && equal rf.voted_for nobody)

-- What `becomeCandidate` writes after its test.
unfoldable pub stand : Raft → Raft
stand rf = record rf {
  state = 1;
  voted_for = rf.me;
  vote = rf.vote + 1;
  current_term = rf.current_term + 1;
}

-- A call that nothing comes in between of.
unfoldable pub become_candidate : Raft → Raft
become_candidate rf = if may_stand rf then stand rf else rf

-- The method `Vote`: its test, which holds no lock, and its write, which does.
unfoldable pub may_vote : Raft → Bool
may_vote rf = equal rf.voted_for nobody && equal rf.current_leader nobody

unfoldable pub set_vote_for : Bytes → Raft → Raft
set_vote_for id rf = record rf { voted_for = id }

-- A call that nothing comes in between of.
unfoldable pub cast_vote : Raft → Bytes → Raft
cast_vote rf node_ip = if may_vote rf then set_vote_for node_ip rf else rf

-- The loop of `election` on a reply, in a cluster of `count` nodes.
unfoldable pub vote_add : Bool → Raft → Raft
vote_add ok rf = if ok then (record rf { vote = rf.vote + 1 }) else rf

unfoldable pub wins : ℕ → Raft → Bool
wins count rf = leb (count / 2 + 1) rf.vote && equal rf.current_leader nobody

unfoldable pub on_reply : ℕ → Bool → Raft → Raft
unfolding vote_add
on_reply count ok rf =
    let rf' = vote_add ok rf in
    if wins count rf' then (record rf' { state = 2; current_leader = rf.me }) else rf'

unfoldable pub confirmation_leader : Bytes → Raft → Raft
unfolding re_default
confirmation_leader node_ip rf = re_default (record rf { current_leader = node_ip })

-- `now` is the time in milliseconds.
unfoldable pub heart_beat_response : Bytes → ℕ → Raft → Raft
heart_beat_response node_ip now rf = record rf {
  current_leader = node_ip;
  last_send_heart_beat_time = now;
}

-- One round of `heartTimeoutDetection`, with 4 seconds of patience; true starts an election.
unfoldable pub heart_lost : ℕ → Raft → Bool
heart_lost now rf =
    not (rf.last_send_heart_beat_time == 0) && ltb 4000 (now - rf.last_send_heart_beat_time)

unfoldable pub heart_timeout : ℕ → Raft → Raft
unfolding re_default
heart_timeout now rf =
    if heart_lost now rf
    then (record (re_default rf) { current_leader = nobody; last_send_heart_beat_time = 0 })
    else rf
