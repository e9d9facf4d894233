-- ===== src/Raft/Local.antt =====
-- What holds of a single node of Raft/raft.go, and how its methods keep it.
use mathlib.Core.Option.{none-ne-some}
use alg_bc_db.Prelude.{
  ℕ, ◌+◌, ◌/◌, ◌≤◌, ◌≡◌, ◌≢◌, refl, sym, ◌∙◌, subst, ◌⊎◌, inl, inr, Bool, true, false, Option, none,
  some, Bytes, equal_iff, arith, ◌==◌, Bool-cases,
}
use alg_bc_db.Raft.{
  Raft, nobody, re_default, may_stand, stand, may_vote, set_vote_for, vote_add, wins, on_reply,
  heart_beat_response,
}
use alg_bc_db.Raft.Election.{put}

-- What holds of node `v`, whose vote went to `g`, in a cluster of `count` nodes.
abbrev pub Local : ℕ → ℕ → Option ℕ → Raft → Type 0
Local count v g rf =
    (rf.ip ≢ nobody)
    × (rf.me ≢ nobody)
    × (may_vote rf ≡ true → g ≡ none)
    × (rf.state ≡ 1 → (g ≡ some v) × (1 ≤ rf.vote))
    × (rf.state ≡ 2 → count / 2 + 1 ≤ rf.vote)

module _ (count : ℕ) where
  pub Local-put :
      (nodes : ℕ → Raft) (gave : ℕ → Option ℕ) (v : ℕ) (g : Option ℕ) (rf : Raft)
      → Local count v g rf
      → ((u : ℕ) → Local count u (gave u) (nodes u))
      → (u : ℕ) → Local count u (put gave v g u) (put nodes v rf u)
  Local-put nodes gave v g rf new all u = elim (Bool-cases (u == v)) [
    | inl e ↦ let u≡v : u ≡ v = ground arith in rw e (subst (λ w. Local count w g rf) (sym u≡v) new)
    | inr e ↦ rw e (all u)
  ]

  pub Local-put_node :
      (nodes : ℕ → Raft) (gave : ℕ → Option ℕ) (v : ℕ) (rf : Raft)
      → Local count v (gave v) rf
      → ((u : ℕ) → Local count u (gave u) (nodes u))
      → (u : ℕ) → Local count u (gave u) (put nodes v rf u)
  Local-put_node nodes gave v rf new all u = elim (Bool-cases (u == v)) [
    | inl e ↦
        let u≡v : u ≡ v = ground arith in
        rw e (subst (λ w. Local count w (gave w) rf) (sym u≡v) new)
    | inr e ↦ rw e (all u)
  ]

  pub shut :
      (rf : Raft) → (rf.voted_for ≢ nobody) ⊎ (rf.current_leader ≢ nobody) → may_vote rf ≡ false
  unfolding may_vote
  shut rf closed = ground (arith, equal_iff rf.voted_for nobody, equal_iff rf.current_leader nobody)

  pub never :
      (rf : Raft) → (rf.voted_for ≢ nobody) ⊎ (rf.current_leader ≢ nobody) → may_vote rf ≡ true → ⊥
  never rf closed m = let f = shut rf closed in let no : true ≡ false = cc in cc

  pub no_vote-none : {g : Option ℕ} (v : ℕ) → g ≡ none → g ≡ some v → ⊥
  no_vote-none v e e' = none-ne-some v (sym e ∙ e')

  pub may_stand-parts : (rf : Raft) → may_stand rf ≡ true → (rf.state ≡ 0) × (may_vote rf ≡ true)
  unfolding may_stand may_vote
  may_stand-parts rf h = ground arith

  pub Local-stands :
      (v : ℕ) (g : Option ℕ) (rf : Raft) → Local count v g rf → Local count v (some v) (stand rf)
  unfolding stand
  Local-stands v g rf (ip, me, idle, stood, leads) = (
    ip,
    me,
    λ m. absurd (never _ (inl me) m),
    λ e. (refl, omega arith),
    λ e. absurd (omega arith),
  )

  pub Local-grants :
      (v : ℕ) (g : Option ℕ) (c : ℕ) (ip' : Bytes) (rf : Raft)
      → may_vote rf ≡ true
      → ip' ≢ nobody
      → Local count v g rf
      → Local count v (some c) (set_vote_for ip' rf)
  unfolding set_vote_for
  Local-grants v g c ip' rf h ne (ip, me, idle, stood, leads) = (
    ip,
    me,
    λ m. absurd (never _ (inl ne) m),
    λ e. absurd (no_vote-none v (idle h) (stood e).0),
    leads,
  )

  pub Local-vote_add :
      (ok : Bool) (v : ℕ) (g : Option ℕ) (rf : Raft)
      → Local count v g rf
      → Local count v g (vote_add ok rf)
  unfolding vote_add may_vote
  Local-vote_add true v g rf (ip, me, idle, stood, leads) =
      (ip, me, idle, λ e. ((stood e).0, omega arith), λ e. let old = leads e in omega arith)
  Local-vote_add false v g rf all = all

  pub Local-wins :
      (v : ℕ) (g : Option ℕ) (rf : Raft) (leader : Bytes)
      → wins count rf ≡ true
      → leader ≢ nobody
      → Local count v g rf
      → Local count v g (record rf { state = 2; current_leader = leader })
  unfolding wins
  Local-wins v g rf leader w ne (ip, me, idle, stood, leads) =
      (ip, me, λ m. absurd (never _ (inr ne) m), λ e. absurd (omega arith), λ e. ground arith)

  pub Local-reply :
      (ok : Bool) (v : ℕ) (g : Option ℕ) (rf : Raft)
      → Local count v g rf
      → Local count v g (on_reply count ok rf)
  unfolding on_reply
  Local-reply ok v g rf all = elim (Bool-cases (wins count (vote_add ok rf))) [
    | inl w ↦
        rw (w, on_reply)
          (Local-wins v g (vote_add ok rf) rf.me w all.1 (Local-vote_add ok v g rf all))
    | inr l ↦ rw (l, on_reply) (Local-vote_add ok v g rf all)
  ]

  pub Local-re_default :
      (v : ℕ) (g : Option ℕ) (rf : Raft) → Local count v g rf → Local count v none (re_default rf)
  unfolding re_default
  Local-re_default v g rf (ip, me, idle, stood, leads) =
      (ip, me, λ m. refl, λ e. absurd (omega arith), λ e. absurd (omega arith))

  -- With a leader a node gives no vote, so whom it gave one to does not matter.
  pub Local-led :
      (v : ℕ) (g g' : Option ℕ) (rf rf' : Raft)
      → rf'.ip ≡ rf.ip
      → rf'.me ≡ rf.me
      → rf'.state ≡ 0
      → rf'.current_leader ≢ nobody
      → Local count v g rf
      → Local count v g' rf'
  Local-led v g g' rf rf' ei em e0 ne (ip, me, idle, stood, leads) = (
    λ x. ip (sym ei ∙ x),
    λ x. me (sym em ∙ x),
    λ m. absurd (never rf' (inr ne) m),
    λ e. absurd (omega arith),
    λ e. absurd (omega arith),
  )

  pub Local-beats :
      (v now : ℕ) (g : Option ℕ) (ip' : Bytes) (rf : Raft)
      → ip' ≢ nobody
      → Local count v g rf
      → Local count v g (heart_beat_response ip' now rf)
  unfolding heart_beat_response
  Local-beats v now g ip' rf ne (ip, me, idle, stood, leads) =
      (ip, me, λ m. absurd (never _ (inr ne) m), stood, leads)
