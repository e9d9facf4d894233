-- ===== src/Raft/Moves.antt =====
-- How the steps of a cluster of Raft/raft.go change the votes that are counted.
use alg_bc_db.Prelude.{
  ℕ, ◌+◌, ◌≤◌, ◌<◌, ◌≡◌, refl, sym, ap, ◌∙◌, inl, inr, Bool, true, false, Option, none, some, Bytes,
  arith, ◌==◌, if◌then◌else◌, Bool-cases,
}
use alg_bc_db.Raft.{Raft, stand, set_vote_for, vote_add, wins, on_reply}
use alg_bc_db.Raft.Election.{System, put}
use alg_bc_db.Raft.Votes.{weight, gives, gives-put}

module _ (count : ℕ) where
  pub put-vote :
      (nodes : ℕ → Raft) (v : ℕ) (rf : Raft) (c : ℕ)
      → (put nodes v rf c).vote ≡ (if c == v then rf.vote else (nodes c).vote)
  put-vote nodes v rf c = elim (Bool-cases (c == v)) [ inl e ↦ rw e refl | inr e ↦ rw e refl ]

  -- A step of one node keeps the bound on the votes, if it adds no more votes than it gives.
  pub global-put :
      (s : System) (v : ℕ) (g : Option ℕ) (rf : Raft) (pending : ℕ → ℕ)
      → v < count
      → ((c : ℕ)
          → (if c == v then rf.vote else (s.nodes c).vote) + pending c + weight (s.gave v) c
            ≤ (s.nodes c).vote + s.pending c + weight g c)
      → ((c : ℕ) → (s.nodes c).vote + s.pending c ≤ gives count s.gave c)
      → (c : ℕ) → (put s.nodes v rf c).vote + pending c ≤ gives count (put s.gave v g) c
  global-put s v g rf pending lt adds votes c =
      let moved = gives-put count v s.gave g c lt in
      let before = votes c in
      let added = adds c in let vote = put-vote s.nodes v rf c in omega arith

  pub weight-none : (g : Option ℕ) (c : ℕ) → g ≡ none → weight g c ≡ 0
  weight-none g c e = ap (λ o. weight o c) e

  pub weight_self : (g : Option ℕ) (v c : ℕ) → g ≡ some v → weight g c ≡ (if v == c then 1 else 0)
  weight_self g v c e = ap (λ o. weight o c) e

  pub stand-vote : (rf : Raft) → (stand rf).vote ≡ rf.vote + 1
  unfolding stand
  stand-vote rf = refl

  pub set_vote_for-vote : (rf : Raft) (ip : Bytes) → (set_vote_for ip rf).vote ≡ rf.vote
  unfolding set_vote_for
  set_vote_for-vote rf ip = refl

  pub on_reply-vote :
      (ok : Bool) (rf : Raft) → (on_reply count ok rf).vote ≡ rf.vote + (if ok then 1 else 0)
  unfolding on_reply vote_add
  on_reply-vote true rf = elim (Bool-cases (wins count (vote_add true rf))) [
    | inl e ↦ rw (e, on_reply) refl
    | inr e ↦ rw (e, on_reply) refl
  ]
  on_reply-vote false rf = elim (Bool-cases (wins count (vote_add false rf))) [
    | inl e ↦ rw (e, on_reply) (omega arith)
    | inr e ↦ rw (e, on_reply) (omega arith)
  ]

  pub same-if : (f : ℕ → ℕ) (d v x : ℕ) → x ≡ f v → (if d == v then x else f d) ≡ f d
  same-if f d v x e = elim (Bool-cases (d == v)) [
    | inl same ↦ let d≡v : d ≡ v = ground arith in rw same (e ∙ ap f (sym d≡v))
    | inr other ↦ rw other refl
  ]

  pub put-more : (f : ℕ → ℕ) (c d : ℕ) → put f c (f c + 1) d ≡ f d + (if c == d then 1 else 0)
  put-more f c d = elim (Bool-cases (d == c)) [
    | inl same ↦
        let d≡c : d ≡ c = ground arith in let at : f d ≡ f c = ap f d≡c in rw same (ground arith)
    | inr other ↦ rw other (ground arith)
  ]
