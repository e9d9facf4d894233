-- ===== src/Raft/Safety.antt =====
-- One leader at a time in the election of Raft/raft.go, as long as no heartbeat is lost.
use alg_bc_db.Prelude.{ℕ, ◌+◌, ◌≤◌}
use alg_bc_db.Raft.{Raft}
use alg_bc_db.Raft.Election.{System}
use alg_bc_db.Raft.Votes.{gives}
use alg_bc_db.Raft.Local.{Local}

abbrev Inv : ℕ → System → Type 0
Inv count s =
    ((v : ℕ) → Local count v (s.gave v) (s.nodes v))
    × ((c : ℕ) → (s.nodes c).vote + s.pending c ≤ gives count s.gave c)
