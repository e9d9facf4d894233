-- ===== src/Consensus/Sortition/Selection.antt =====
-- What `subUsers` and `SortitionSeed` of algorand/algorand.go choose.
use alg_bc_db.Prelude.{
  ℕ, zero, suc, ◌+◌, ◌-◌, ◌*◌, ◌/◌, ◌^◌, ◌≤◌, ◌<◌, ◌≡◌, refl, Bool, true, false, ◌&&◌, Option, none,
  some, Bytes, arith, ◌⊎◌, inl, inr, ◌==◌, Bool-cases,
}
use alg_bc_db.Consensus.Sortition.{
  Rat, rat_leb, rat_ltb, cdf, lower_end, search_interval, or_zero, hash_fraction, sub_users,
  seed_round,
}

-- The hash lies in the interval from `f j` up to below `f (j + 1)`.
abbrev pub in_interval : (ℕ → Rat) → Rat → ℕ → Bool
in_interval f hash j = rat_leb (f j) hash && rat_ltb hash (f (j + 1))

module _ (f : ℕ → Rat) (hash : Rat) where
  -- The first of the `left` intervals from `j` on that holds the hash, if there is one.
  abbrev First : ℕ → ℕ → Option ℕ → Type 0
  First left j none = (i : ℕ) → j ≤ i → i < j + left → in_interval f hash i ≡ false
  First left j (some k) =
      (j ≤ k)
      × (k < j + left)
      × (in_interval f hash k ≡ true)
      × ((i : ℕ) → j ≤ i → i < k → in_interval f hash i ≡ false)

  First-step :
      (left j : ℕ) (r : Option ℕ)
      → in_interval f hash j ≡ false
      → First left (j + 1) r
      → First (suc left) j r
  First-step left j none miss w = λ i le lt. elim (Bool-cases (i == j)) [
    | inl e ↦ ground arith
    | inr ne ↦ w i (ground arith) (ground arith)
  ]
  First-step left j (some k) miss w = (
    omega arith,
    omega arith,
    w.2,
    λ i le lt. elim (Bool-cases (i == j)) [
      | inl e ↦ ground arith
      | inr ne ↦ w.3 i (ground arith) (ground arith)
    ],
  )

  search_interval-First :
      (left j : ℕ) (upper : Option Rat)
      → lower_end f j upper ≡ f j
      → First left j (search_interval f hash left j upper)
  unfolding search_interval
  search_interval-First zero j upper e = λ i le lt. absurd (omega arith)
  search_interval-First (suc left) j upper e = elim (Bool-cases (in_interval f hash j)) [
    | inl hit ↦ rw (e, hit) (omega arith, omega arith, hit, λ i le lt. absurd (omega arith))
    | inr miss ↦
        rw (e, miss)
          (First-step left j _ miss (search_interval-First left (j + 1) (some (f (j + 1))) refl))
  ]

or_zero-First :
    (f : ℕ → Rat) (hash : Rat) (weight : ℕ) (r : Option ℕ)
    → First f hash (weight + 1) 0 r
    → (or_zero r ≤ weight)
      × (((in_interval f hash (or_zero r) ≡ true)
            × ((i : ℕ) → i < or_zero r → in_interval f hash i ≡ false))
          ⊎ ((or_zero r ≡ 0) × ((i : ℕ) → i ≤ weight → in_interval f hash i ≡ false)))
or_zero-First f hash weight none w =
    (omega arith, inr (refl, λ i le. w i (omega arith) (omega arith)))
or_zero-First f hash weight (some k) w = (omega arith, inl (w.2, λ i lt. w.3 i (omega arith) lt))

-- The number of sub-users is at most the weight. It is the first `k` for which the VRF output, as a
-- fraction, lies between the distribution at `k` and at `k + 1`; if no interval up to the weight
-- holds the output, it is 0.
pub sub_users_first :
    (e : Rat) (expected weight : ℕ) (vrf : Bytes)
    → let k = sub_users e expected weight vrf in
      let inside = in_interval (cdf e expected weight) (hash_fraction vrf) in
      (k ≤ weight)
      × (((inside k ≡ true) × ((i : ℕ) → i < k → inside i ≡ false))
          ⊎ ((k ≡ 0) × ((i : ℕ) → i ≤ weight → inside i ≡ false)))
unfolding sub_users
sub_users_first e expected weight vrf =
    let f = cdf e expected weight in
    or_zero-First f (hash_fraction vrf) weight _
      (search_interval-First f (hash_fraction vrf) (weight + 1) 0 none refl)

-- From round 1 to 2^64 - 1, the seed is that of nothing before round 1000, and later that of the
-- block just below the last multiple of 1000, so it is the same for all rounds between two multiples.
pub seed_round_lem :
    (round : ℕ)
    → 0 < round
    → round < 2 ^ 64
    → ((round < 1000) × (seed_round round ≡ none))
      ⊎ ((1000 ≤ round) × (seed_round round ≡ some (round / 1000 * 1000 - 1)))
unfolding seed_round
seed_round_lem round h k = ground arith
