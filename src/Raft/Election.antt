-- ===== src/Raft/Election.antt =====
-- The nodes of a cluster between two losses of the heartbeat, as steps: the methods of Raft/raft.go
-- and rpc.go on single nodes, and the replies under way between them. `Vote` and `becomeCandidate`
-- test without the lock and write later: the test and the writes are two steps, and other calls can
-- come in between.
use alg_bc_db.Prelude.{
  ℕ, ◌+◌, ◌-◌, ◌<◌, ◌≡◌, ◌≢◌, Bool, true, false, Option, none, some, Bytes, ◌==◌, if◌then◌else◌,
}
use alg_bc_db.Raft.{
  Raft, nobody, new_raft, re_default, may_stand, stand, may_vote, set_vote_for, on_reply,
  confirmation_leader, heart_beat_response,
}

-- `pending` counts the granted votes for a node that it has not received. `gave` is who a node's
-- vote went to; the program has no such record, which only the proofs use. `voting` and `standing` are
-- the calls that have passed their test and not yet written: those of `Vote` at a node for another,
-- and that of `becomeCandidate`.
pub record System : Type 0 where
  pub nodes : ℕ → Raft
  pub pending : ℕ → ℕ
  pub gave : ℕ → Option ℕ
  pub voting : ℕ → ℕ → Bool
  pub standing : ℕ → Bool

abbrev pub put {ℓ} : {A : Type ℓ} → (ℕ → A) → ℕ → A → ℕ → A
put f v x u = if u == v then x else f u

-- What a run asks of a test at the time of the write: nothing, or that it still holds.
abbrev pub Anything : Bool → Type 0
Anything b = Unit

abbrev pub StillHolds : Bool → Type 0
StillHolds b = b ≡ true

-- Steps of a cluster of `count` nodes. A request for votes may arrive after its election is over. A
-- node that has timed out asks anew. After a leader is confirmed, an election that still runs ends.
pub data Step (count : ℕ) (AtWrite : Bool → Type 0) : System → System → Type 0 where
  may_stands :
      {s : System} (v : ℕ)
      → may_stand (s.nodes v) ≡ true
      → Step count AtWrite s (record s { standing = put s.standing v true })
  stands :
      {s : System} (v : ℕ)
      → v < count
      → s.standing v ≡ true
      → AtWrite (may_stand (s.nodes v))
      → Step count AtWrite s (record s {
        nodes = put s.nodes v (stand (s.nodes v));
        gave = put s.gave v (some v);
        standing = put s.standing v false;
      })
  may_votes :
      {s : System} (v c : ℕ)
      → may_vote (s.nodes v) ≡ true
      → Step count AtWrite s (record s { voting = put s.voting v (put (s.voting v) c true) })
  grants :
      {s : System} (v c : ℕ)
      → v < count
      → s.voting v c ≡ true
      → AtWrite (may_vote (s.nodes v))
      → Step count AtWrite s (record s {
        nodes = put s.nodes v (set_vote_for (s.nodes c).ip (s.nodes v));
        pending = put s.pending c (s.pending c + 1);
        gave = put s.gave v (some c);
        voting = put s.voting v (put (s.voting v) c false);
      })
  receives :
      {s : System} (c : ℕ)
      → 0 < s.pending c
      → Step count AtWrite s (record s {
        nodes = put s.nodes c (on_reply count true (s.nodes c));
        pending = put s.pending c (s.pending c - 1);
      })
  hears_no :
      {s : System} (c : ℕ)
      → (s.nodes c).state ≡ 1
      → Step count AtWrite s (record s { nodes = put s.nodes c (on_reply count false (s.nodes c)) })
  times_out :
      {s : System} (c : ℕ)
      → c < count
      → (s.nodes c).state ≡ 1
      → Step count AtWrite s
          (record s { nodes = put s.nodes c (re_default (s.nodes c)); gave = put s.gave c none })
  gives_up :
      {s : System} (c : ℕ)
      → (s.nodes c).current_leader ≢ nobody
      → Step count AtWrite s (record s { nodes = put s.nodes c (re_default (s.nodes c)) })
  confirms :
      {s : System} (c v : ℕ)
      → (s.nodes c).state ≡ 2
      → v ≢ c
      → Step count AtWrite s
          (record s { nodes = put s.nodes v (confirmation_leader (s.nodes c).ip (s.nodes v)) })
  beats :
      {s : System} (c v now : ℕ)
      → (s.nodes c).state ≡ 2
      → v ≢ c
      → Step count AtWrite s
          (record s { nodes = put s.nodes v (heart_beat_response (s.nodes c).ip now (s.nodes v)) })

-- The cluster at its start, with the addresses of the nodes.
abbrev pub started : (ℕ → Bytes) → Bytes → System
started ip port = record {
  nodes = λ v. new_raft (ip v) port;
  pending = λ v. 0;
  gave = λ v. none;
  voting = λ v c. false;
  standing = λ v. false;
}

-- What the steps lead to.
pub data Reached (count : ℕ) (AtWrite : Bool → Type 0) (ip : ℕ → Bytes) (port : Bytes)
    : System → Type 0 where
  start : Reached count AtWrite ip port (started ip port)
  step :
      {s t : System}
      → Reached count AtWrite ip port s
      → Step count AtWrite s t
      → Reached count AtWrite ip port t
