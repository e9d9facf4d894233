-- ===== src/BlockQueue/Race.antt =====
-- `Get` of blockqueue/queue.go reads the head before it takes the lock, so two calls of it can read
-- the same head.
use alg_bc_db.Prelude.{suc, ◌≡◌, refl, Option, none, some, List, ◌∷◌, length, arith}
use alg_bc_db.Prelude.Int.{pos, ◌-ℤ◌, -ℤ-one}
use alg_bc_db.BlockQueue.{Queue, take_node}
use alg_bc_db.BlockQueue.Fifo.{Represents}

module _ {A : Type 0} where
  -- Two overlapping calls of `Get` on the queue `q`: both read the head, then each runs its locked
  -- section. The final queue, and what the two calls return.
  unfoldable pub overlapping_gets : Queue A → Option (Queue A × A × A)
  overlapping_gets q = elim q.head [
    | none ↦ none
    | some n ↦ elim (take_node q n) [
      | none ↦ none
      | some (q', v) ↦ elim (take_node q' n) [ none ↦ none | some (q'', w) ↦ some (q'', v, w) ]
    ]
  ]

  -- On every queue of two elements or more, two overlapping calls of `Get` both return the oldest
  -- element and take only that one off, but count two: `Size` ends one below the queue's length.
  pub overlapping_gets-duplicate :
      (q : Queue A) (x y : A) (xs : List A)
      → Represents q (x ∷ y ∷ xs)
      → (q' : Queue A) × (overlapping_gets q ≡ some (q', x, x))
        × Represents (record q' { size = pos (suc (length xs)) }) (y ∷ xs)
        × (q'.size ≡ pos (length xs))
  unfolding overlapping_gets take_node
  overlapping_gets-duplicate q x y xs (p, r, h, e, s, (m, g, lt, w)) = (
    record q { head = some m; size = q.size -ℤ pos 1 -ℤ pos 1 },
    ground arith,
    (m, r, refl, e, refl, w),
    rw (s, -ℤ-one, -ℤ-one),
  )
