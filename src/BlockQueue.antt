-- ===== src/BlockQueue.antt =====
-- blockqueue/queue.go: the queue of blocks that wait to be distributed, as linked nodes on a heap.
-- The elements are of any type. A method's locked section is one step.
pub mod Fifo
pub mod Race
mod Tests
use alg_bc_db.Prelude.{ℕ, Option, none, some, List, [], ◌∷◌, ◌++◌, length, get_elem?, set}
use alg_bc_db.Prelude.Int.{ℤ, pos, ◌+ℤ◌, ◌-ℤ◌}

-- A node stands at an address, its index in the heap.
pub record Node {ℓ} (A : Type ℓ) : Type ℓ where
  pub elem : A
  pub next : Option ℕ

pub record Queue {ℓ} (A : Type ℓ) : Type ℓ where
  pub heap : List (Node A)
  pub head : Option ℕ
  pub rear : Option ℕ
  pub size : ℤ

module _ {ℓ} {A : Type ℓ} where
  -- `Init`.
  unfoldable pub init : Queue A
  init = record { heap = []; head = none; rear = none; size = pos 0 }

  abbrev pub fresh : A → Node A
  fresh v = record { elem = v; next = none }

  -- `new(node)` takes the next address.
  unfoldable pub alloc : Queue A → A → Queue A
  alloc q v = record q { heap = q.heap ++ fresh v ∷ [] }

  -- `q.Rear.next = n`; `none` is the fault of a bad address.
  unfoldable pub link : Queue A → ℕ → ℕ → Option (Queue A)
  link q r n = elim (get_elem? q.heap r) [
    | none ↦ none
    | some m ↦ some (record q { heap = set q.heap r (record m { next = some n }) })
  ]

  -- The locked section of `Put`, where the new node stands at `n`.
  unfoldable pub append_node : Queue A → ℕ → Option (Queue A)
  append_node q n = elim q.rear [
    | none ↦ some (record q { head = some n; rear = some n; size = q.size +ℤ pos 1 })
    | some r ↦ elim (link q r n) [
      | none ↦ none
      | some q' ↦ some (record q' { rear = some n; size = q'.size +ℤ pos 1 })
    ]
  ]

  unfoldable pub put : Queue A → A → Option (Queue A)
  put q v = append_node (alloc q v) (length q.heap)

  -- The locked section of `Get`, where `n` was read as the head before the lock was taken.
  unfoldable pub take_node : Queue A → ℕ → Option (Queue A × A)
  take_node q n = elim (get_elem? q.heap n) [
    | none ↦ none
    | some m ↦ elim m.next [
      | none ↦ some (record q { head = none; rear = none; size = q.size -ℤ pos 1 }, m.elem)
      | some k ↦ some (record q { head = some k; size = q.size -ℤ pos 1 }, m.elem)
    ]
  ]

  -- `Get`, alone: nil on the empty queue.
  unfoldable pub get : Queue A → Option (Queue A × Option A)
  get q = elim q.head [
    | none ↦ some (q, none)
    | some n ↦ elim (take_node q n) [ none ↦ none | some (q', v) ↦ some (q', some v) ]
  ]
