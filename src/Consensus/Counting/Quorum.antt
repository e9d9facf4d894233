-- ===== src/Consensus/Counting/Quorum.antt =====
-- What a result of `countVotes` in algorand/algorand.go says about the votes.
use mathlib.Core.Option.{none-ne-some}
use alg_bc_db.Prelude.{
  ℕ, ◌+◌, ◌≤◌, ◌<◌, ◌≡◌, ◌≢◌, refl, sym, ◌⊎◌, inl, inr, Bool, true, false, ◌||◌, Option, none, some,
  subst, List, [], ◌∷◌, Bytes, arith, leb, ◌==◌, if◌then◌else◌, Bool-cases, Option-cases,
}
use alg_bc_db.Conversions.{read}
use alg_bc_db.Consensus.Messages.{recover_pubkey}
use alg_bc_db.Consensus.Counting.{
  Setting, Weighed, judge, member, Tally, add_votes, enter, weigh, count_keyed, count_one,
  count_all, empty_tally, Count, counted, timed_out, faulted, counted_of, count_votes,
}

some-eq {ℓ} : {A : Type ℓ} {a b : A} → some a ≡ some b → a ≡ b
some-eq h = cc

-- The votes for the hashes of index `i` among the messages: the first valid message with votes of
-- each voter that is not among `seen`.
abbrev pub share : ℕ → ℕ → Option ℕ → ℕ
share i votes none = 0
share i votes (some index) = if i == index then votes else 0

abbrev pub support_from : ℕ → (List Bytes → ℕ) → List Bytes → Bytes → Option (ℕ × Bytes) → ℕ
support_from i rest seen pk none = 0
support_from i rest seen pk (some (votes, hash)) =
    if member pk seen || votes == 0
    then rest seen
    else share i votes (read 4 hash) + rest (pk ∷ seen)

module _ (needed : ℕ) where
  -- The loop has a result if some count has reached the threshold, and none otherwise.
  abbrev Agrees : Tally → Type 0
  Agrees t =
      ((t.result ≡ []) × ((i : ℕ) → t.counts i < needed))
      ⊎ ((i : ℕ) × (read 4 t.result ≡ some i) × (needed ≤ t.counts i))

  same→≡ : (i index : ℕ) → (i == index) ≡ true → i ≡ index
  same→≡ i index e = ground arith

  counts-grow : (counts : ℕ → ℕ) (index votes i : ℕ) → counts i ≤ add_votes counts index votes i
  unfolding add_votes
  counts-grow counts index votes i = ground arith

  add_votes-ne :
      (counts : ℕ → ℕ) (index votes i : ℕ)
      → (i == index) ≡ false
      → add_votes counts index votes i ≡ counts i
  unfolding add_votes
  add_votes-ne counts index votes i e = rw e

  reached-Agrees :
      (t : Tally) (voters : List Bytes) (votes index : ℕ) (hash : Bytes) (b : Bool)
      → leb needed (add_votes t.counts index votes index) ≡ b
      → read 4 hash ≡ some index
      → Agrees t
      → Agrees (record {
        counts = add_votes t.counts index votes;
        voters = voters;
        result = if b then hash else t.result;
      })
  reached-Agrees t voters votes index hash true e r a = inr (index, r, ground arith)
  reached-Agrees t voters votes index hash false e r (inr (i, r', le)) =
      inr (i, r', let g = counts-grow t.counts index votes i in omega arith)
  reached-Agrees t voters votes index hash false e r (inl (n, below)) = inl (
    n,
    λ i. elim (Bool-cases (i == index)) [
      | inl same ↦
          subst (λ j. add_votes t.counts index votes j < needed) (sym (same→≡ i index same))
            (ground arith)
      | inr other ↦
          let e' = add_votes-ne t.counts index votes i other in let b = below i in omega arith
    ],
  )

  -- What a processed vote does, to the agreement and to the counts. `rest` counts what comes later.
  abbrev Effect : Tally → Tally → ℕ → ℕ → (List Bytes → ℕ) → Type 0
  Effect t t' i more rest =
      (Agrees t → Agrees t') × (t'.counts i + rest t'.voters ≡ t.counts i + more)

  add_votes-share :
      (counts : ℕ → ℕ) (index votes i rest : ℕ)
      → add_votes counts index votes i + rest ≡ counts i + (share i votes (some index) + rest)
  unfolding add_votes
  add_votes-share counts index votes i rest = ground arith

  enter-Effect :
      (t t' : Tally) (pk : Bytes) (votes : ℕ) (hash : Bytes) (o : Option ℕ) (i : ℕ)
      (rest : List Bytes → ℕ)
      → read 4 hash ≡ o
      → enter needed t pk votes hash o ≡ some t'
      → Effect t t' i (share i votes o + rest (pk ∷ t.voters)) rest
  enter-Effect t t' pk votes hash none i rest e h = cc
  enter-Effect t t' pk votes hash (some index) i rest e h =
      subst (λ x. Effect t x i (share i votes (some index) + rest (pk ∷ t.voters)) rest) (some-eq h)
        (
          λ a. reached-Agrees t (pk ∷ t.voters) votes index hash _ refl e a,
          add_votes-share t.counts index votes i (rest (pk ∷ t.voters)),
        )

  weigh_if-Effect :
      (b : Bool) (t t' : Tally) (pk : Bytes) (votes : ℕ) (hash : Bytes) (i : ℕ)
      (rest : List Bytes → ℕ)
      → (if b then some t else enter needed t pk votes hash (read 4 hash)) ≡ some t'
      → Effect t t' i
          (if b then rest t.voters else share i votes (read 4 hash) + rest (pk ∷ t.voters))
          rest
  weigh_if-Effect true t t' pk votes hash i rest h =
      subst (λ x. Effect t x i (rest t.voters) rest) (some-eq h) (λ a. a, refl)
  weigh_if-Effect false t t' pk votes hash i rest h =
      enter-Effect t t' pk votes hash (read 4 hash) i rest refl h

  weigh-Effect :
      (t t' : Tally) (pk : Bytes) (o : Option (ℕ × Bytes)) (i : ℕ) (rest : List Bytes → ℕ)
      → weigh needed t pk o ≡ some t'
      → Effect t t' i (support_from i rest t.voters pk o) rest
  weigh-Effect t t' pk none i rest h = cc
  weigh-Effect t t' pk (some (votes, hash)) i rest h =
      weigh_if-Effect (member pk t.voters || votes == 0) t t' pk votes hash i rest h

  module _ (s : Setting) where
    abbrev support_keyed : ℕ → Weighed → (List Bytes → ℕ) → List Bytes → Option Bytes → ℕ
    support_keyed i m rest seen none = 0
    support_keyed i m rest seen (some pk) = support_from i rest seen pk (judge s pk m)

    -- The votes for hashes of index `i` of the voters that are not among `seen`, each of whom counts
    -- with the first of the messages that is valid and has votes.
    unfoldable pub support : ℕ → List Weighed → List Bytes → ℕ
    support i [] seen = 0
    support i (m ∷ ms) seen =
        support_keyed i m (λ voters. support i ms voters) seen (recover_pubkey m.0.signature)

    count_keyed-Effect :
        (t t' : Tally) (m : Weighed) (o : Option Bytes) (i : ℕ) (rest : List Bytes → ℕ)
        → count_keyed s needed t m o ≡ some t'
        → Effect t t' i (support_keyed i m rest t.voters o) rest
    count_keyed-Effect t t' m none i rest h = cc
    count_keyed-Effect t t' m (some pk) i rest h = weigh-Effect t t' pk (judge s pk m) i rest h

    -- Of a whole inbox.
    count_all-Effect :
        (ms : List Weighed) (t t' : Tally) (i : ℕ)
        → count_all s needed t ms ≡ some t'
        → (Agrees t → Agrees t') × (t'.counts i ≡ t.counts i + support i ms t.voters)
    unfolding count_all support count_one
    count_all-Effect [] t t' i h =
        subst (λ x. (Agrees t → Agrees x) × (x.counts i ≡ t.counts i + 0)) (some-eq h)
          (λ a. a, omega arith)
    count_all-Effect (m ∷ ms) t t' i h =
        elim (Option-cases (count_keyed s needed t m (recover_pubkey m.0.signature))) [
          | inl e ↦ absurd (none-ne-some t' (rw (e, count_all) at h))
          | inr (u, e) ↦
              let (keeps, adds) = count_keyed-Effect t u m _ i (λ voters. support i ms voters) e in
              let (keeps', adds') = count_all-Effect ms u t' i (rw (e, count_all) at h) in
              (λ a. keeps' (keeps a), omega arith)
        ]

    Agrees-start : 0 < needed → Agrees empty_tally
    Agrees-start positive = inl (refl, λ i. positive)

    -- What the final state of the loop says of the result.
    abbrev pub Backed : List Weighed → Bytes → Type 0
    Backed ms hash =
        ((hash ≡ []) × ((i : ℕ) → support i ms [] < needed))
        ⊎ ((i : ℕ) × (read 4 hash ≡ some i) × (needed ≤ support i ms []))

    Backed-end :
        (ms : List Weighed) (t : Tally)
        → ((i : ℕ) → t.counts i ≡ support i ms [])
        → Agrees t
        → Backed ms t.result
    Backed-end ms t same (inl (e, below)) = inl (e, λ i. ground (arith, same i, below i))
    Backed-end ms t same (inr (i, r, le)) = inr (i, r, ground (arith, same i))

    -- What a result says of the inbox and of the timer.
    abbrev pub Says : List Weighed → Bool → Count → Type 0
    Says ms expired (counted hash) = Backed ms hash
    Says ms expired timed_out = (ms ≡ []) × (expired ≡ true)
    Says ms expired faulted = ms ≢ []

    Says-count_all :
        0 < needed
        → (m : Weighed) (ms : List Weighed) (expired : Bool) (o : Option Tally)
        → count_all s needed empty_tally (m ∷ ms) ≡ o
        → Says (m ∷ ms) expired (counted_of o)
    Says-count_all positive m ms expired none e = λ h. cc
    Says-count_all positive m ms expired (some t) e =
        Backed-end (m ∷ ms) t
          (λ i. let g = (count_all-Effect (m ∷ ms) empty_tally t i e).1 in omega arith)
          ((count_all-Effect (m ∷ ms) empty_tally t 0 e).0 (Agrees-start positive))

    -- For a threshold above 0: if `countVotes` returns a hash and no error, then the votes of
    -- distinct voters for the hashes with its first four bytes reach the threshold, or the hash is
    -- empty and the votes for no hash reach it. The error of the timeout is returned only with no
    -- vote in the inbox and after the timer has fired, and a fault needs a vote in the inbox.
    pub count_votes-Says :
        0 < needed
        → (ms : List Weighed) (expired : Bool) → Says ms expired (count_votes s needed ms expired)
    unfolding count_votes support
    count_votes-Says positive [] true = (refl, refl)
    count_votes-Says positive [] false = inl (refl, λ i. positive)
    count_votes-Says positive (m ∷ ms) expired = Says-count_all positive m ms expired _ refl
