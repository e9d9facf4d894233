-- ===== src/Consensus/Messages/Keys.antt =====
-- The keys of the vote table of algorand/peer.go: two decimal numbers with nothing between them.
use alg_bc_db.Prelude.{
  ℕ, zero, suc, ◌+◌, ◌*◌, ◌/◌, ◌%◌, ◌≤◌, ◌<◌, ◌≡◌, refl, sym, ap, ◌∙◌, [], ◌∷◌, ◌++◌, append_assoc,
  Bytes, arith, ltb, Bool-cases, inl, inr,
}
use alg_bc_db.Consensus.Messages.{digits_of, itoa, construct_vote_key}

digits_of-append :
    (fuel n : ℕ) (rest : Bytes) → n < fuel → digits_of fuel n rest ≡ digits_of fuel n [] ++ rest
unfolding digits_of
digits_of-append zero n rest h = absurd (omega arith)
digits_of-append (suc fuel) n rest h = elim (Bool-cases (ltb n 10)) [
  | inl small ↦ rw small
  | inr large ↦ rw large (
      digits_of-append fuel (n / 10) ((48 + n % 10) ∷ rest) (ground arith)
      ∙ sym (append_assoc (digits_of fuel (n / 10) []) ((48 + n % 10) ∷ []) rest)
      ∙ ap (λ u. u ++ rest)
          (sym (digits_of-append fuel (n / 10) ((48 + n % 10) ∷ []) (ground arith))))
]

digits_of-fuel :
    (fuel more n : ℕ) (rest : Bytes)
    → n < fuel
    → n < more
    → digits_of fuel n rest ≡ digits_of more n rest
unfolding digits_of
digits_of-fuel zero more n rest h k = absurd (omega arith)
digits_of-fuel (suc fuel) zero n rest h k = absurd (omega arith)
digits_of-fuel (suc fuel) (suc more) n rest h k =
    ground (arith, digits_of-fuel fuel more (n / 10) ((48 + n % 10) ∷ rest))

itoa_lem : (n : ℕ) → itoa n ≡ digits_of (suc n) n []
unfolding itoa
itoa_lem n = refl

itoa-step : (n : ℕ) → 10 ≤ n → itoa n ≡ digits_of n (n / 10) ((48 + n % 10) ∷ [])
unfolding itoa
itoa-step n h = ground arith

itoa-digit : (d : ℕ) → d < 10 → itoa d ≡ (48 + d) ∷ []
unfolding itoa
itoa-digit d h = ground arith

-- Writing a number whose last digit is `d` is writing the rest, and then the digit.
itoa-append : (a d : ℕ) → 1 ≤ a → d < 10 → itoa (10 * a + d) ≡ itoa a ++ itoa d
itoa-append a d h k =
    let quotient : (10 * a + d) / 10 ≡ a = omega arith in
    let digit : (10 * a + d) % 10 ≡ d = omega arith in
    itoa-step (10 * a + d) (omega arith)
    ∙ rw (quotient, digit, itoa-digit d k)
        (digits_of-append (10 * a + d) a ((48 + d) ∷ []) (omega arith)
          ∙ ap (λ u. u ++ (48 + d) ∷ [])
              (digits_of-fuel (10 * a + d) (suc a) a [] (omega arith) (omega arith)
                ∙ sym (itoa_lem a)))

-- The votes of different rounds and steps share a key: for a round from 1 on and a step of two
-- digits, moving the first digit of the step to the end of the round leaves the key as it is.
pub construct_vote_key-collision :
    (r d s : ℕ)
    → 1 ≤ r
    → 1 ≤ d
    → d < 10
    → s < 10
    → construct_vote_key r (10 * d + s) ≡ construct_vote_key (10 * r + d) s
unfolding construct_vote_key
construct_vote_key-collision r d s hr hd kd ks =
    rw (itoa-append d s hd ks, itoa-append r d hr kd)
      (sym (append_assoc (itoa r) (itoa d) (itoa s)))
