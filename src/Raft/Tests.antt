-- ===== src/Raft/Tests.antt =====
-- The election of Raft/raft.go in a cluster of three nodes.
use alg_bc_db.Prelude.{
  ℕ, ◌+◌, ◌-◌, ◌≡◌, refl, Bool, true, false, none, some, [], ◌∷◌, Bytes, codes, equal, arith,
}
use alg_bc_db.Raft.{new_raft, may_stand, may_vote, stand, set_vote_for, on_reply, vote_add, wins}
use alg_bc_db.Raft.Election.{
  System, Anything, may_stands, stands, Reached, start, step, started, put,
}
use alg_bc_db.Raft.Race.{overlapping_votes-two_leaders}

abbrev address : ℕ → Bytes
address v = (v + 100) ∷ []

abbrev port : Bytes
port = codes "3302"

abbrev asking : System
asking = record (started address port) { standing = put (started address port).standing 0 true }

abbrev standing : System
standing = record asking {
  nodes = put (started address port).nodes 0 (stand (new_raft (address 0) port));
  gave = put (λ v. none) 0 (some 0);
  standing = put asking.standing 0 false;
}

abbrev voting : System
voting = record standing { voting = put standing.voting 1 (put (standing.voting 1) 0 true) }

abbrev granted : System
granted = record voting {
  nodes = put voting.nodes 1 (set_vote_for (voting.nodes 0).ip (voting.nodes 1));
  pending = put voting.pending 0 (voting.pending 0 + 1);
  gave = put voting.gave 1 (some 0);
  voting = put voting.voting 1 (put (voting.voting 1) 0 false);
}

abbrev led : System
led = record granted {
  nodes = put granted.nodes 0 (on_reply 3 true (granted.nodes 0));
  pending = put granted.pending 0 (granted.pending 0 - 1);
}

module _ (AtWrite : Bool → Type 0) (holds : AtWrite true) where
  first_stands : Reached 3 AtWrite address port standing
  unfolding new_raft may_stand equal
  first_stands =
      step {t = standing} (step {t = asking} start (may_stands 0 refl))
        (stands 0 (omega arith) refl holds)

-- Nodes 0 and 1 stand, and node 2 may vote.
abbrev asking_too : System
asking_too = record standing { standing = put standing.standing 1 true }

abbrev rivals : System
rivals = record asking_too {
  nodes = put asking_too.nodes 1 (stand (asking_too.nodes 1));
  gave = put asking_too.gave 1 (some 1);
  standing = put asking_too.standing 1 false;
}

rivals-Reached : Reached 3 Anything address port rivals
unfolding new_raft may_stand equal
rivals-Reached =
    step {t = rivals} (step {t = asking_too} (first_stands Anything tt) (may_stands 1 refl))
      (stands 1 (omega arith) refl tt)

third_idle : may_vote (rivals.nodes 2) ≡ true
unfolding new_raft may_vote equal
third_idle = refl

rivals_win :
    (wins 3 (vote_add true (rivals.nodes 0)) ≡ true)
    × (wins 3 (vote_add true (rivals.nodes 1)) ≡ true)
unfolding new_raft stand vote_add wins equal
rivals_win = (refl, refl)

overlapping_votes-two_leaders_example :
    (t : System) × Reached 3 Anything address port t
    × ((t.nodes 0).state ≡ 2)
    × ((t.nodes 1).state ≡ 2)
overlapping_votes-two_leaders_example =
    overlapping_votes-two_leaders 3 address port rivals 2 0 1 (omega arith) (λ e. omega arith)
      (λ e. omega arith) (λ e. omega arith) third_idle rivals_win.0 rivals_win.1 rivals-Reached
