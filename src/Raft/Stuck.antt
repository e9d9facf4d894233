-- ===== src/Raft/Stuck.antt =====
-- A vote of Raft/raft.go that is never taken back.
use alg_bc_db.Prelude.{ℕ, ◌≡◌, ◌≢◌, Bytes, equal_iff, arith}
use alg_bc_db.Raft.{
  Raft, nobody, may_stand, become_candidate, may_vote, cast_vote, heart_lost, heart_timeout,
}

-- A node that has voted and that has had no heartbeat yet stays as it is, whoever asks for its vote,
-- whenever it may stand itself and whatever the time is: the vote for a candidate that was not
-- elected is never given again.
pub voted-stays :
    (rf : Raft) (node_ip : Bytes) (now : ℕ)
    → rf.voted_for ≢ nobody
    → rf.last_send_heart_beat_time ≡ 0
    → (cast_vote rf node_ip ≡ rf) × (become_candidate rf ≡ rf) × (heart_timeout now rf ≡ rf)
unfolding cast_vote become_candidate heart_timeout may_vote may_stand heart_lost
voted-stays rf node_ip now voted quiet = (
  ground (arith, equal_iff rf.voted_for nobody),
  ground (arith, equal_iff rf.voted_for nobody),
  ground arith,
)
