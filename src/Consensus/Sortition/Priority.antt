-- ===== src/Consensus/Sortition/Priority.antt =====
-- `maxPriority` of algorand/algorand.go is the largest of the users' priorities.
use alg_bc_db.Prelude.{
  ℕ, zero, suc, ◌+◌, ◌≤◌, ◌<◌, ◌≡◌, refl, ◌⊎◌, inl, inr, false, [], ◌++◌, Bytes, less, less_irrefl,
  less_asymm, not-less_trans, ◌∙◌, arith, ◌==◌, Bool-cases,
}
use alg_bc_db.Conversions.{uint64_to_bytes}
use alg_bc_db.Consensus.Sortition.{max_priority_loop, max_priority}

module _ (sha256 : Bytes → Bytes) (vrf : Bytes) where
  -- The priority of user `i`.
  abbrev pub priority : ℕ → Bytes
  priority i = sha256 (vrf ++ uint64_to_bytes i)

  -- The loop's result is not below `best` and none of the priorities from `i` on, and is one of them.
  abbrev Largest : ℕ → ℕ → Bytes → Bytes → Type 0
  Largest left i best r =
      (less r best ≡ false)
      × ((j : ℕ) → i ≤ j → j < i + left → less r (priority j) ≡ false)
      × ((r ≡ best) ⊎ ((j : ℕ) × (i ≤ j) × (j < i + left) × (r ≡ priority j)))

  Largest-step :
      (left i : ℕ) (best m r : Bytes)
      → less m best ≡ false
      → less m (priority i) ≡ false
      → (m ≡ best) ⊎ (m ≡ priority i)
      → Largest left (i + 1) m r
      → Largest (suc left) i best r
  Largest-step left i best m r hb hp which (low, high, one) = (
    not-less_trans r m best low hb,
    λ j le lt. elim (Bool-cases (j == i)) [
      | inl e ↦ ground (arith, not-less_trans r m (priority i) low hp)
      | inr ne ↦ high j (ground arith) (ground arith)
    ],
    elim one [
      | inl e ↦ elim which [
        | inl e' ↦ inl (e ∙ e')
        | inr e' ↦ inr (i, omega arith, omega arith, e ∙ e')
      ]
      | inr (j, le, lt, e) ↦ inr (j, omega arith, omega arith, e)
    ],
  )

  max_priority_loop-Largest :
      (left i : ℕ) (best : Bytes) → Largest left i best (max_priority_loop sha256 vrf left i best)
  unfolding max_priority_loop
  max_priority_loop-Largest zero i best =
      (less_irrefl best, λ j le lt. absurd (omega arith), inl refl)
  max_priority_loop-Largest (suc left) i best = elim (Bool-cases (less best (priority i))) [
    | inl more ↦ rw more (
        Largest-step left i best (priority i) _ (less_asymm best (priority i) more)
          (less_irrefl (priority i)) (inr refl)
          (max_priority_loop-Largest left (i + 1) (priority i)))
    | inr less' ↦ rw less' (
        Largest-step left i best best _ (less_irrefl best) less' (inl refl)
          (max_priority_loop-Largest left (i + 1) best))
  ]

  -- The priority of a proposal is empty or that of one of the users, and none of the users'
  -- priorities is above it, in the order of byte sequences. So with no user it is empty.
  pub max_priority-Largest :
      (users : ℕ)
      → ((j : ℕ) → 1 ≤ j → j ≤ users → less (max_priority sha256 vrf users) (priority j) ≡ false)
        × ((max_priority sha256 vrf users ≡ [])
            ⊎ ((j : ℕ) × (1 ≤ j) × (j ≤ users) × (max_priority sha256 vrf users ≡ priority j)))
  unfolding max_priority max_priority_loop
  max_priority-Largest users =
      let (low, high, one) = max_priority_loop-Largest users 1 [] in
      (
        λ j le lt. high j le (omega arith),
        elim one [ inl e ↦ inl e | inr (j, le, lt, e) ↦ inr (j, le, omega arith, e) ],
      )
