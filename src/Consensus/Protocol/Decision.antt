-- ===== src/Consensus/Protocol/Decision.antt =====
-- What `binaryBA` of algorand/algorand.go decides, and when it ends.
use alg_bc_db.Prelude.{
  ℕ, zero, suc, ◌%◌, ◌+◌, ◌*◌, ◌≤◌, ◌<◌, ◌≡◌, ◌≢◌, refl, ap, ◌∙◌, ◌⊎◌, inl, inr, Bool, true, false,
  not, List, [], ◌∷◌, ◌++◌, Bytes, equal, equal_refl, equal_sound, arith, ltb, ◌==◌, Bool-cases,
  Option-cases, if◌then◌else◌,
}
use alg_bc_db.Consensus.Parameters.{final, max_steps}
use alg_bc_db.Consensus.Counting.{Count, counted, timed_out, faulted}
use alg_bc_db.Consensus.Protocol.{
  Ballot, Run, Turn, goes_on, returns, panics, first_turn, second_turn, third_turn, Outcome,
  decided, hangs, fault, out_of_fuel, ahead, final_vote, binary_loop, binary_ba,
}

Turn-cases :
    (t : Turn) → (t ≡ panics) ⊎ ((v : Bytes) × (t ≡ returns v)) ⊎ ((r : Bytes) × (t ≡ goes_on r))
Turn-cases (goes_on r) = inr (inr (r, refl))
Turn-cases (returns v) = inr (inl (v, refl))
Turn-cases panics = inl refl

first_turn_if-returns :
    (b : Bool) (empty r v : Bytes)
    → equal r empty ≡ b
    → (if not b then returns r else goes_on r) ≡ returns v
    → (counted r ≡ counted v) × (v ≢ empty)
first_turn_if-returns true empty r v e h = cc
first_turn_if-returns false empty r v e h =
    (cc, λ same. let all = equal_refl empty in let r≡v : r ≡ v = cc in cc)

first_turn-returns :
    (hash empty v : Bytes) (c : Count)
    → first_turn hash empty c ≡ returns v
    → (c ≡ counted v) × (v ≢ empty)
unfolding first_turn
first_turn-returns hash empty v timed_out h = cc
first_turn-returns hash empty v faulted h = cc
first_turn-returns hash empty v (counted r) h = first_turn_if-returns _ empty r v refl h

second_turn_if-returns :
    (b : Bool) (empty r v : Bytes)
    → equal r empty ≡ b
    → (if b then returns r else goes_on r) ≡ returns v
    → (counted r ≡ counted v) × (v ≡ empty)
second_turn_if-returns true empty r v e h = let same = equal_sound r empty e in (cc, cc)
second_turn_if-returns false empty r v e h = cc

second_turn-returns :
    (empty v : Bytes) (c : Count) → second_turn empty c ≡ returns v → (c ≡ counted v) × (v ≡ empty)
unfolding second_turn
second_turn-returns empty v timed_out h = cc
second_turn-returns empty v faulted h = cc
second_turn-returns empty v (counted r) h = second_turn_if-returns _ empty r v refl h

-- The ballots of the final step.
unfoldable pub finals : List Ballot → List Ballot
finals [] = []
finals (b ∷ bs) = let rest = finals bs in if b.0 == final then b ∷ rest else rest

finals-++ : (bs cs : List Ballot) → finals (bs ++ cs) ≡ finals bs ++ finals cs
unfolding finals
finals-++ [] cs = refl
finals-++ (b ∷ bs) cs = elim (Bool-cases (b.0 == final)) [
  | inl e ↦ rw e (ap (λ l. b ∷ l) (finals-++ bs cs))
  | inr e ↦ rw e (finals-++ bs cs)
]

finals-ahead : (step : ℕ) (v : Bytes) → step < 100 → finals (ahead step v) ≡ []
unfolding finals ahead
finals-ahead step v lt = ground arith

finals-step :
    (step : ℕ) (v : Bytes) (bs : List Ballot) → step < 100 → finals ((step, v) ∷ bs) ≡ finals bs
unfolding finals
finals-step step v bs lt = ground arith

-- What holds of an outcome: a decision is the hash that some count returned, not the empty hash if
-- its step is odd and the empty hash if its step is even, and the node has cast one vote of the final
-- step, for the hash, if it decided in step 1, and none otherwise; without a decision it has cast none.
-- The fuel is enough.
unfoldable pub Explained : Run → Outcome → Type 0
Explained a (decided v step cast) =
    ((n : ℕ) × (a.count n ≡ counted v))
    × ((step % 2 ≡ 1 × v ≢ a.empty) ⊎ (step % 2 ≡ 0 × v ≡ a.empty))
    × (((step ≡ 1) × (finals cast ≡ (final, v) ∷ [])) ⊎ ((step ≢ 1) × (finals cast ≡ [])))
Explained a (hangs cast) = finals cast ≡ []
Explained a fault = Unit
Explained a out_of_fuel = ⊥

finals-append : (cast bs : List Ballot) → finals cast ≡ [] → finals (cast ++ bs) ≡ finals bs
finals-append cast bs e = finals-++ cast bs ∙ ap (λ l. l ++ finals bs) e

finals-first :
    (cast : List Ballot) (step : ℕ) (r v : Bytes)
    → step < max_steps
    → finals cast ≡ []
    → finals (cast ++ ((step, r) ∷ (ahead step v ++ final_vote step v))) ≡ final_vote step v
unfolding final_vote finals ahead
finals-first cast step r v lt e = finals-append cast _ e ∙ ground arith

finals-second :
    (cast : List Ballot) (step : ℕ) (r r1 v : Bytes)
    → step < max_steps
    → finals cast ≡ []
    → finals (cast ++ ((step, r) ∷ (step + 1, r1) ∷ ahead (step + 1) v)) ≡ []
unfolding finals ahead
finals-second cast step r r1 v lt e = finals-append cast _ e ∙ ground arith

finals-third :
    (cast : List Ballot) (step : ℕ) (r r1 r2 : Bytes)
    → step < max_steps
    → finals cast ≡ []
    → finals (cast ++ (step, r) ∷ (step + 1, r1) ∷ (step + 2, r2) ∷ []) ≡ []
unfolding finals
finals-third cast step r r1 r2 lt e = finals-append cast _ e ∙ ground arith

final_vote-lem :
    (step : ℕ) (v : Bytes) (cast : List Ballot)
    → finals cast ≡ final_vote step v
    → ((step ≡ 1) × (finals cast ≡ (final, v) ∷ [])) ⊎ ((step ≢ 1) × (finals cast ≡ []))
unfolding final_vote
final_vote-lem step v cast e = elim (Bool-cases (step == 1)) [
  | inl one ↦ inl (ground arith, rw one at e)
  | inr other ↦ inr (ground arith, rw other at e)
]

module _ (a : Run) where
  binary_loop-Explained :
      (fuel step n : ℕ) (r : Bytes) (cast : List Ballot)
      → step ≤ 13
      → 14 ≤ step + 2 * fuel
      → step % 2 ≡ 1
      → finals cast ≡ []
      → Explained a (binary_loop fuel a step n r cast)
  unfolding binary_loop Explained
  binary_loop-Explained zero step n r cast low enough odd e = omega arith
  binary_loop-Explained (suc fuel) step n r cast low enough odd e =
      elim (Bool-cases (ltb step max_steps)) [
        | inr over ↦ rw (over, Explained) e
        | inl under ↦ elim (Turn-cases (first_turn a.hash a.empty (a.count n))) [
          | inl f ↦ rw (Explained, under, f) tt
          | inr (inl (v, f)) ↦
              let (source, ne) = first_turn-returns a.hash a.empty v (a.count n) f in
              rw (Explained, under, f)
                (
                  (n, source),
                  inl (odd, ne),
                  final_vote-lem step v _ (finals-first cast step r v (ground arith) e),
                )
          | inr (inr (r1, f)) ↦ elim (Turn-cases (second_turn a.empty (a.count (n + 1)))) [
            | inl g ↦ rw (Explained, under, f, g) tt
            | inr (inl (v, g)) ↦
                let (source, same) = second_turn-returns a.empty v (a.count (n + 1)) g in
                rw (Explained, under, f, g)
                  (
                    (n + 1, source),
                    inr (omega arith, same),
                    inr ((λ first. omega arith), finals-second cast step r r1 v (ground arith) e),
                  )
            | inr (inr (r2, g)) ↦
                elim (Option-cases (third_turn a.hash a.empty (a.coin (n + 2)) (a.count (n + 2)))) [
                  | inl h ↦ rw (Explained, under, f, g, h) tt
                  | inr (r3, h) ↦
                      rw (Explained, under, f, g, h)
                        (binary_loop-Explained fuel (step + 2) (n + 3) r3 _ (ground arith)
                          (omega arith) (omega arith)
                          (finals-third cast step r r1 r2 (ground arith) e))
                ]
          ]
        ]
      ]

-- The loop of `binaryBA` ends within its steps, whatever its counts return: it decides, hangs after
-- the last step, or faults. A decision is a hash that one of the counts returned, not the empty hash
-- in an odd step and the empty hash in an even step. The node has cast one vote of the final step, for
-- the hash, if it decided in step 1, and none at all otherwise.
pub binary_ba-Explained : (a : Run) → Explained a (binary_ba a)
unfolding binary_ba finals
binary_ba-Explained a =
    binary_loop-Explained a 7 1 0 a.hash [] (omega arith) (omega arith) refl refl
