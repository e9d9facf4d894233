-- ===== src/Consensus/Counting/Coin.antt =====
-- `commonCoin` of algorand/algorand.go on the votes that a peer has for it.
use alg_bc_db.Prelude.{ℕ, ◌≡◌, some, List, Bytes, map}
use alg_bc_db.Consensus.Messages.{
  Incoming, new_peer, construct_vote_key, get_incoming_msgs, VoteMessage,
}
use alg_bc_db.Consensus.Messages.Proposals.{handle_all, handle_all_lem}
use alg_bc_db.Consensus.Counting.{Setting, common_coin, coin_loop}

-- Draws a weight for each vote.
abbrev weighed : (VoteMessage → ℕ) → List VoteMessage → List (VoteMessage × ℕ)
weighed w = map (λ m. (m, w m))

-- Whatever messages a peer has handled, the table that the coin reads is empty, so the coin is 0 in
-- every round and step.
pub common_coin-zero :
    (s : Setting) (sha256 : Bytes → Bytes) (ms : List Incoming) (w : VoteMessage → ℕ)
    (round step : ℕ)
    → common_coin s sha256
        (map (λ m. (m, w m)) (get_incoming_msgs (handle_all ms new_peer) round step))
      ≡ some 0
unfolding common_coin coin_loop get_incoming_msgs new_peer
common_coin-zero s sha256 ms w round step =
    let (_, _, _, e) = handle_all_lem ms new_peer round (construct_vote_key round step) in rw e
