-- ===== src/Raft/Race.antt =====
-- Two calls of `Vote` of Raft/rpc.go at one node that overlap.
use alg_bc_db.Prelude.{
  ℕ, ◌+◌, ◌-◌, ◌<◌, ◌≡◌, ◌≢◌, refl, sym, ap, ◌∙◌, some, Bool, true, false, Bytes, arith, ◌==◌,
}
use alg_bc_db.Raft.{Raft, may_vote, set_vote_for, vote_add, wins, on_reply}
use alg_bc_db.Raft.Election.{System, put, Anything, may_votes, grants, receives, Reached, step}

pub put_self : {A : Type 0} (f : ℕ → A) (v : ℕ) (x : A) → put f v x v ≡ x
put_self f v x = let same : (v == v) ≡ true = ground arith in rw same refl

pub put_other : {A : Type 0} (f : ℕ → A) (v u : ℕ) (x : A) → u ≢ v → put f v x u ≡ f u
put_other f v u x ne = let other : (u == v) ≡ false = ground arith in rw other refl

on_reply-leads :
    (count : ℕ) (rf : Raft)
    → wins count (vote_add true rf) ≡ true
    → (on_reply count true rf).state ≡ 2
unfolding on_reply
on_reply-leads count rf w = rw (w, on_reply) refl

module _ (count : ℕ) (ip : ℕ → Bytes) (port : Bytes) where
  -- `Vote` can pass its test at node `v` for two candidates before it writes for either, and then gives
  -- the vote to both.
  overlapping_votes-both :
      (s : System) (v a b : ℕ)
      → v < count
      → a ≢ b
      → v ≢ a
      → v ≢ b
      → may_vote (s.nodes v) ≡ true
      → Reached count Anything ip port s
      → (t : System) × Reached count Anything ip port t
        × (t.nodes a ≡ s.nodes a)
        × (t.nodes b ≡ s.nodes b)
        × (t.pending a ≡ s.pending a + 1)
        × (t.pending b ≡ s.pending b + 1)
  overlapping_votes-both s v a b lt ab va vb idle reached =
      let asked_a : ℕ → Bool = put (s.voting v) a true in
      let voting1 = put s.voting v asked_a in
      let asked_b : ℕ → Bool = put (voting1 v) b true in
      let voting2 = put voting1 v asked_b in
      let first : voting2 v a ≡ true =
        ap (λ f. f a) (put_self voting1 v asked_b)
        ∙ put_other (voting1 v) b a true ab
        ∙ ap (λ f. f a) (put_self s.voting v asked_a)
        ∙ put_self (s.voting v) a true in
      let voting3 = put voting2 v (put (voting2 v) a false) in
      let second : voting3 v b ≡ true =
        ap (λ f. f b) (put_self voting2 v (put (voting2 v) a false))
        ∙ put_other (voting2 v) a b false (λ e. ab (sym e))
        ∙ ap (λ f. f b) (put_self voting1 v asked_b)
        ∙ put_self (voting1 v) b true in
      let s2 : System = record s { voting = voting2 } in
      let nodes3 = put s.nodes v (set_vote_for (s.nodes a).ip (s.nodes v)) in
      let pending3 = put s.pending a (s.pending a + 1) in
      let s3 : System = record s {
        nodes = nodes3;
        pending = pending3;
        gave = put s.gave v (some a);
        voting = voting3;
      } in
      let reached2 : Reached count Anything ip port s2 =
        step (step reached (may_votes v a idle)) (may_votes v b idle) in
      let reached3 : Reached count Anything ip port s3 = step reached2 (grants v a lt first tt) in
      (
        record s3 {
          nodes = put nodes3 v (set_vote_for (nodes3 b).ip (nodes3 v));
          pending = put pending3 b (pending3 b + 1);
          gave = put s3.gave v (some b);
          voting = put voting3 v (put (voting3 v) b false);
        },
        step reached3 (grants v b lt second tt),
        put_other nodes3 v a _ (λ e. va (sym e)) ∙ put_other s.nodes v a _ (λ e. va (sym e)),
        put_other nodes3 v b _ (λ e. vb (sym e)) ∙ put_other s.nodes v b _ (λ e. vb (sym e)),
        put_other pending3 b a _ ab ∙ put_self s.pending a _,
        put_self pending3 b _ ∙ ap (λ n. n + 1) (put_other s.pending a b _ (λ e. ab (sym e))),
      )

  -- In a cluster that has come, by any steps, to a node that may vote and two other nodes that one more
  -- vote makes a leader, two overlapping calls of `Vote` at that node lead on to both being leaders at
  -- once.
  pub overlapping_votes-two_leaders :
      (s : System) (v a b : ℕ)
      → v < count
      → a ≢ b
      → v ≢ a
      → v ≢ b
      → may_vote (s.nodes v) ≡ true
      → wins count (vote_add true (s.nodes a)) ≡ true
      → wins count (vote_add true (s.nodes b)) ≡ true
      → Reached count Anything ip port s
      → (t : System) × Reached count Anything ip port t
        × ((t.nodes a).state ≡ 2)
        × ((t.nodes b).state ≡ 2)
  overlapping_votes-two_leaders s v a b lt ab va vb idle wa wb reached =
      let (t, reached', na, nb, pa, pb) = overlapping_votes-both s v a b lt ab va vb idle reached in
      let nodes1 = put t.nodes a (on_reply count true (t.nodes a)) in
      let pending1 = put t.pending a (t.pending a - 1) in
      let t1 : System = record t { nodes = nodes1; pending = pending1 } in
      let some_b : 0 < pending1 b =
        let same = put_other t.pending a b (t.pending a - 1) (λ e. ab (sym e)) in omega arith in
      let same_b : nodes1 b ≡ s.nodes b = put_other t.nodes a b _ (λ e. ab (sym e)) ∙ nb in
      (
        record t1 {
          nodes = put nodes1 b (on_reply count true (nodes1 b));
          pending = put pending1 b (pending1 b - 1);
        },
        step {t = _} (step {t = t1} reached' (receives a (omega arith))) (receives b some_b),
        ap (λ rf. rf.state)
              (put_other nodes1 b a _ ab ∙ put_self t.nodes a _ ∙ ap (on_reply count true) na)
            ∙ on_reply-leads count (s.nodes a) wa,
        ap (λ rf. rf.state) (put_self nodes1 b _ ∙ ap (on_reply count true) same_b)
            ∙ on_reply-leads count (s.nodes b) wb,
      )
