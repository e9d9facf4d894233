-- ===== src/Consensus/Protocol/Agreement.antt =====
-- The block that `BA` of algorand/algorand.go ends with.
use alg_bc_db.Prelude.{
  ℕ, ◌≡◌, ◌≢◌, refl, ap, subst, sym, ◌∙◌, ◌⊎◌, inl, inr, Bool, true, false, List, [], ◌∷◌, ◌++◌,
  Bytes, equal, equal_refl, equal_sound, Option, none, some, Bool-cases, Option-cases,
  if◌then◌else◌,
}
use alg_bc_db.DataChain.{Block, new_block}
use alg_bc_db.Consensus.Parameters.{final_consensus, tentative_consensus}
use alg_bc_db.Consensus.Messages.{Peer, find_block, get_block}
use alg_bc_db.Consensus.Counting.{Count, counted, timed_out}
use alg_bc_db.Consensus.Protocol.{
  returns, Ballot, Vote, Run, Outcome, decided, hangs, fault, out_of_fuel, reduced, reduction,
  binary_ba, binary_loop, agreed, stuck, crashed, ahead, final_vote, empty_hash, empty_block,
  chosen, returned, typed, conclude, finish, ba, first_turn, second_turn, third_turn,
}
use alg_bc_db.Consensus.Protocol.Decision.{Explained, binary_ba-Explained}

find_block-hash :
    (bs : List Block) (hash : Bytes) (best : Option Block) (b : Block)
    → (best ≡ some b → b.current_block_hash ≡ hash)
    → find_block hash best bs ≡ some b
    → b.current_block_hash ≡ hash
unfolding find_block
find_block-hash [] hash best b was h = was h
find_block-hash (c ∷ cs) hash best b was h = elim (Bool-cases (equal c.current_block_hash hash)) [
  | inl e ↦
      find_block-hash cs hash (some c) b
        (λ same.
          let sound = equal_sound c.current_block_hash hash e in
          let c≡b : c ≡ b = cc in ap (λ x. x.current_block_hash) (sym c≡b) ∙ sound)
        (rw (e, find_block) at h)
  | inr e ↦ find_block-hash cs hash best b was (rw (e, find_block) at h)
]

-- What an agreed block has to do with the decided hash: it has the hash, or it is the empty block of
-- the round after the hash `last`, but for the kind of consensus.
abbrev pub Fits : (Bytes → Bytes) → ℕ → Bytes → Bytes → Block → Type 0
Fits sha256 round last hash b =
    (b.current_block_hash ≡ hash)
    ⊎ ((hash ≡ empty_hash sha256 round last)
        × (b ≡ record new_block {
          round = round;
          previous_block_hash = last;
          consensus = b.consensus;
        }))

chosen-Fits :
    (sha256 : Bytes → Bytes) (p : Peer) (round : ℕ) (last hash : Bytes) (b : Block)
    → chosen sha256 p round last hash ≡ some b
    → Fits sha256 round last hash b
unfolding chosen empty_block get_block
chosen-Fits sha256 p round last hash b h =
    elim (Bool-cases (equal hash (empty_hash sha256 round last))) [
      | inl e ↦
          let made : some (empty_block round last) ≡ some b = rw e at h in
          let b' : empty_block round last ≡ b = cc in
          inr (
            equal_sound hash _ e,
            sym b'
                ∙ ap (λ k. record (empty_block round last) { consensus = k })
                    (ap (λ x. x.consensus) b'),
          )
      | inr e ↦ inl (find_block-hash (p.blocks round) hash none b (λ x. cc) (rw e at h))
    ]

typed-Fits :
    (sha256 : Bytes → Bytes) (round : ℕ) (last hash : Bytes) (b : Block) (kind : ℕ)
    → Fits sha256 round last hash b
    → Fits sha256 round last hash (record b { consensus = kind })
typed-Fits sha256 round last hash b kind (inl e) = inl e
typed-Fits sha256 round last hash b kind (inr (e, whole)) =
    inr (e, ap {A = Block} (λ x. record x { consensus = kind }) whole)

-- The consensus is final if the count of the final votes returned the hash, else tentative.
abbrev pub Kind : ℕ → Option Bytes → Bytes → Type 0
Kind kind r hash =
    ((kind ≡ final_consensus) × (r ≡ some hash)) ⊎ ((kind ≡ tentative_consensus) × (r ≢ some hash))

typed-agreed :
    (same : Bool) (o : Option Block) (kind : ℕ) (b : Block)
    → typed same o ≡ agreed kind b
    → (c : Block) × (o ≡ some c)
      × (record c { consensus = kind } ≡ b)
      × (kind ≡ (if same then final_consensus else tentative_consensus))
typed-agreed same none kind b h = cc
typed-agreed same (some c) kind b h =
    let kind' : (if same then final_consensus else tentative_consensus) ≡ kind = cc in
    (c, refl, rw (← kind') cc, sym kind')

Kind-lem :
    (same : Bool) (kind : ℕ) (r hash : Bytes)
    → equal r hash ≡ same
    → kind ≡ (if same then final_consensus else tentative_consensus)
    → Kind kind (some r) hash
Kind-lem true kind r hash e k = inl (k, ap some (equal_sound r hash e))
Kind-lem false kind r hash e k =
    inr (k, λ same. let all = equal_refl hash in let r≡hash : r ≡ hash = cc in cc)

conclude-agreed :
    (sha256 : Bytes → Bytes) (p : Peer) (round : ℕ) (last hash : Bytes) (r : Option Bytes)
    (kind : ℕ) (b : Block)
    → conclude sha256 p round last hash r ≡ agreed kind b
    → Fits sha256 round last hash b × Kind kind r hash
conclude-agreed sha256 p round last hash none kind b h = cc
conclude-agreed sha256 p round last hash (some r) kind b h =
    let (c, found, same, k) = typed-agreed (equal r hash) _ kind b h in
    (
      subst (Fits sha256 round last hash) same
          (typed-Fits sha256 round last hash c kind (chosen-Fits sha256 p round last hash c found)),
      Kind-lem _ kind r hash refl k,
    )

equal-ne : (xs ys : Bytes) → xs ≢ ys → equal xs ys ≡ false
equal-ne xs ys ne = elim (Bool-cases (equal xs ys)) [
  | inl e ↦ absurd (ne (equal_sound xs ys e))
  | inr e ↦ e
]

first_turn-done :
    (hash empty v : Bytes) (c : Count)
    → c ≡ counted v
    → v ≢ empty
    → first_turn hash empty c ≡ returns v
unfolding first_turn
first_turn-done hash empty v c e ne = rw (e, first_turn, equal-ne v empty ne) refl

-- A run whose first count returns a hash, not that of the empty block, decides it.
binary_ba-first :
    (a : Run) (v : Bytes)
    → a.count 0 ≡ counted v
    → v ≢ a.empty
    → (cast : List Ballot) × (binary_ba a ≡ decided v 1 cast)
unfolding binary_ba binary_loop
binary_ba-first a v e ne = (
  (1, a.hash) ∷ (ahead 1 v ++ final_vote 1 v),
  rw (binary_loop, first_turn-done a.hash a.empty v (a.count 0) e ne) refl,
)

module _ (sha256 : Bytes → Bytes) (p : Peer) (round : ℕ) where
  finish-agreed :
      (last : Option Bytes) (final_count : Count) (o : Outcome) (kind : ℕ) (b : Block)
      → finish sha256 p round last final_count o ≡ agreed kind b
      → (hash : Bytes) × (step : ℕ) × (cast : List Ballot) × (prev : Bytes) × (o
          ≡ decided hash step cast)
        × (last ≡ some prev)
        × Fits sha256 round prev hash b
        × Kind kind (returned final_count) hash
  unfolding finish
  finish-agreed last final_count (hangs cast) kind b h = cc
  finish-agreed last final_count fault kind b h = cc
  finish-agreed last final_count out_of_fuel kind b h = cc
  finish-agreed none final_count (decided hash step cast) kind b h = cc
  finish-agreed (some prev) final_count (decided hash step cast) kind b h =
      let (fits, k) = conclude-agreed sha256 p round prev hash (returned final_count) kind b h in
      (hash, step, cast, prev, refl, refl, fits, k)

  -- If `BA` ends with a block, then the hash that `binaryBA` decided was returned by one of its
  -- counts. The block has that hash, or the hash is that of the empty block after the last block,
  -- and the block is that one, without transactions. The consensus is final exactly if the count of
  -- the final votes returned the hash too.
  pub ba-agreed :
      (tail : Bytes) (last : Option Bytes) (proposed : Bytes) (first second : Count)
      (count : ℕ → Count) (coin : ℕ → Option ℕ) (final_count : Count) (kind : ℕ) (b : Block)
      → ba sha256 p round tail last proposed first second count coin final_count ≡ agreed kind b
      → (hash : Bytes) × (prev : Bytes) × ((n : ℕ) × (count n ≡ counted hash))
        × (last ≡ some prev)
        × Fits sha256 round prev hash b
        × Kind kind (returned final_count) hash
  unfolding ba Explained
  ba-agreed tail last proposed first second count coin final_count kind b h =
      elim (Option-cases (reduction (empty_hash sha256 round tail) proposed first second)) [
        | inl e ↦ let no : crashed ≡ agreed kind b = rw (e, ba) at h in cc
        | inr (v, e) ↦
            let run : Run = record {
              hash = v.hash;
              empty = empty_hash sha256 round tail;
              count = count;
              coin = coin;
            } in
            let (hash, step, cast, prev, o, l, fits, k) =
              finish-agreed last final_count (binary_ba run) kind b (rw (e, ba) at h) in
            (hash, prev, (subst (Explained run) o (binary_ba-Explained run)).0, l, fits, k)
      ]

  conclude-missing :
      (prev hash : Bytes) (r : Option Bytes)
      → chosen sha256 p round prev hash ≡ none
      → conclude sha256 p round prev hash r ≡ crashed
  conclude-missing prev hash none e = refl
  conclude-missing prev hash (some r) e = rw e refl

  -- If all counts return the same hash, which is not that of the empty block after the tail or after
  -- the last block, and the peer holds a block of the round with that hash, then `BA` ends with that
  -- block, as final, whatever hash the node proposed.
  pub ba-unanimous :
      (tail prev proposed hash : Bytes) (coin : ℕ → Option ℕ) (b : Block)
      → hash ≢ empty_hash sha256 round tail
      → hash ≢ empty_hash sha256 round prev
      → get_block p round hash ≡ some b
      → ba sha256 p round tail
          (some prev)
          proposed
          (counted hash)
          (counted hash)
          (λ n. counted hash)
          coin
          (counted hash)
        ≡ agreed final_consensus (record b { consensus = final_consensus })
  unfolding ba reduction reduced finish returned chosen
  ba-unanimous tail prev proposed hash coin b ne ne' found =
      let run : Run = record {
        hash = hash;
        empty = empty_hash sha256 round tail;
        count = λ n. counted hash;
        coin = coin;
      } in
      let (cast, e) = binary_ba-first run hash refl ne in
      rw (e, finish, equal_refl hash, equal-ne hash (empty_hash sha256 round prev) ne', found) refl

  -- If every count times out and the coin is always 0, `BA` never ends.
  pub ba-silence :
      (tail : Bytes) (last : Option Bytes) (proposed : Bytes) (final_count : Count)
      → ba sha256 p round tail last proposed timed_out timed_out
          (λ n. timed_out)
          (λ n. some 0)
          final_count
        ≡ stuck
  unfolding ba reduction reduced binary_ba binary_loop first_turn second_turn third_turn finish
  ba-silence tail last proposed final_count = refl

  -- If the reduction ends, the first count of `binaryBA` returns the empty sequence without an error,
  -- as it does when votes come in but for no hash enough, the hashes of the empty blocks after the
  -- tail and after the last block are not empty, and the peer holds no block of the round without a
  -- hash, then `BA` faults.
  pub ba-no_quorum :
      (tail prev proposed : Bytes) (first second : Count) (v : Vote) (count : ℕ → Count)
      (coin : ℕ → Option ℕ) (final_count : Count)
      → reduction (empty_hash sha256 round tail) proposed first second ≡ some v
      → count 0 ≡ counted []
      → empty_hash sha256 round tail ≢ []
      → empty_hash sha256 round prev ≢ []
      → get_block p round [] ≡ none
      → ba sha256 p round tail (some prev) proposed first second count coin final_count ≡ crashed
  unfolding ba finish chosen
  ba-no_quorum tail prev proposed first second v count coin final_count red none_enough ne ne'
        missing =
      let run : Run = record {
        hash = v.hash;
        empty = empty_hash sha256 round tail;
        count = count;
        coin = coin;
      } in
      let (cast, e) = binary_ba-first run [] none_enough (λ x. ne (sym x)) in
      rw (red, ba, e, finish)
        (conclude-missing prev [] (returned final_count)
          (rw (equal-ne [] (empty_hash sha256 round prev) (λ x. ne' (sym x))) missing))
