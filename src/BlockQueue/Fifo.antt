-- ===== src/BlockQueue/Fifo.antt =====
-- The queue of blockqueue/queue.go is a first-in first-out list.
use alg_bc_db.Prelude.{
  ℕ, suc, ◌≤◌, ◌<◌, ◌≡◌, refl, ap, ◌∙◌, Option, none, some, List, [], ◌∷◌, ◌++◌, length, get_elem?,
  set, length-append, get_elem?-set_self, get_elem?-set_ne, get_elem?-append_left,
  get_elem?-append_length, lt-length_of_get_elem?, arith,
}
use alg_bc_db.Prelude.Int.{pos, ◌+ℤ◌, ◌-ℤ◌, +ℤ-one, -ℤ-one}
use alg_bc_db.BlockQueue.{Node, Queue, init, fresh, alloc, link, append_node, put, take_node, get}

-- A use of the queue: `Put` of an element, or `Get`.
pub data Call (A : Type 0) : Type 0 where
  puts : A → Call A
  gets : Call A

module _ {A : Type 0} where
  abbrev pub cell : A → Option ℕ → Node A
  cell v n = record { elem = v; next = n }

  -- The nodes from address `p` to address `r` hold `x ∷ xs`, at rising addresses.
  abbrev pub Run : List (Node A) → ℕ → ℕ → A → List A → Type 0
  Run h r p x [] = (p ≡ r) × (get_elem? h p ≡ some (cell x none))
  Run h r p x (y ∷ xs) =
      (m : ℕ) × (get_elem? h p ≡ some (cell x (some m))) × (p < m) × Run h r m y xs

  -- The queue holds the list, oldest first, and counts it.
  abbrev pub Represents : Queue A → List A → Type 0
  Represents q [] = (q.head ≡ none) × (q.rear ≡ none) × (q.size ≡ pos 0)
  Represents q (x ∷ xs) =
      (p : ℕ) × (r : ℕ) × (q.head ≡ some p)
      × (q.rear ≡ some r)
      × (q.size ≡ pos (suc (length xs)))
      × Run q.heap r p x xs

  Run-le : (h : List (Node A)) (r p : ℕ) (x : A) (xs : List A) → Run h r p x xs → p ≤ r
  Run-le h r p x [] (e, _) = omega arith
  Run-le h r p x (y ∷ xs) (m, _, lt, w) = omega (arith, Run-le h r m y xs w)

  Run-last :
      (h : List (Node A)) (r p : ℕ) (x : A) (xs : List A)
      → Run h r p x xs
      → (z : A) × (get_elem? h r ≡ some (cell z none))
  Run-last h r p x [] (e, g) = (x, rw (← e) g)
  Run-last h r p x (y ∷ xs) (m, _, lt, w) = Run-last h r m y xs w

  -- The heap of a `Put` on a queue with a rear.
  abbrev grown : List (Node A) → ℕ → A → A → List (Node A)
  grown h r z v = set (h ++ fresh v ∷ []) r (cell z (some (length h)))

  grown-ne :
      (h : List (Node A)) (r p : ℕ) (z v : A) {c : Node A}
      → p < r
      → get_elem? h p ≡ some c
      → get_elem? (grown h r z v) p ≡ some c
  grown-ne h r p z v lt e =
      get_elem?-set_ne (h ++ fresh v ∷ []) _ (omega arith)
      ∙ get_elem?-append_left h (fresh v ∷ []) p (lt-length_of_get_elem? h p e)
      ∙ e

  grown_self :
      (h : List (Node A)) (r : ℕ) (z v : A)
      → r < length h
      → get_elem? (grown h r z v) r ≡ some (cell z (some (length h)))
  grown_self h r z v lt =
      get_elem?-set_self (h ++ fresh v ∷ []) r _ (omega (arith, length-append h (fresh v ∷ [])))

  grown-new :
      (h : List (Node A)) (r : ℕ) (z v : A)
      → r < length h
      → get_elem? (grown h r z v) (length h) ≡ some (cell v none)
  grown-new h r z v lt =
      get_elem?-set_ne (h ++ fresh v ∷ []) _ (omega arith) ∙ get_elem?-append_length h [] (fresh v)

  Run-grown :
      (h : List (Node A)) (r p : ℕ) (x : A) (xs : List A) (z v : A)
      → get_elem? h r ≡ some (cell z none)
      → Run h r p x xs
      → Run (grown h r z v) (length h) p x (xs ++ v ∷ [])
  Run-grown h r p x [] z v k (e, g) =
      let lt : r < length h = lt-length_of_get_elem? h r k in
      let same : z ≡ x = ground arith in
      (length h, rw (e, ← same) (grown_self h r z v lt), omega arith, (refl, grown-new h r z v lt))
  Run-grown h r p x (y ∷ xs) z v k (m, g, lt, w) = (
    m,
    grown-ne h r p z v (omega (arith, Run-le h r m y xs w)) g,
    lt,
    Run-grown h r m y xs z v k w,
  )

  -- `Put` never faults, and adds its element at the end.
  pub put-Represents :
      (q : Queue A) (xs : List A) (v : A)
      → Represents q xs
      → (q' : Queue A) × (put q v ≡ some q') × Represents q' (xs ++ v ∷ [])
  unfolding put alloc append_node link
  put-Represents q [] v (h, r, s) = (
    record q {
      heap = q.heap ++ fresh v ∷ [];
      head = some (length q.heap);
      rear = some (length q.heap);
      size = q.size +ℤ pos 1;
    },
    rw r,
    (
      length q.heap,
      length q.heap,
      refl,
      refl,
      rw s (+ℤ-one 0),
      (refl, get_elem?-append_length q.heap [] (fresh v)),
    ),
  )
  put-Represents q (x ∷ xs) v (p, r, h, e, s, w) =
      let (z, k) = Run-last q.heap r p x xs w in
      let lt : r < length q.heap = lt-length_of_get_elem? q.heap r k in
      (
        record q { heap = grown q.heap r z v; rear = some (length q.heap); size = q.size +ℤ pos 1 },
        ground (arith, get_elem?-append_left q.heap (fresh v ∷ []) r lt),
        (
          p,
          length q.heap,
          h,
          refl,
          rw (s, +ℤ-one) (ap pos (omega (arith, length-append xs (v ∷ [])))),
          Run-grown q.heap r p x xs z v k w,
        ),
      )

  -- `Get` never faults; it returns the oldest element.
  pub get-Represents :
      (q : Queue A) (x : A) (xs : List A)
      → Represents q (x ∷ xs)
      → (q' : Queue A) × (get q ≡ some (q', some x)) × Represents q' xs
  unfolding get take_node
  get-Represents q x [] (p, r, h, e, s, (_, g)) = (
    record q { head = none; rear = none; size = q.size -ℤ pos 1 },
    ground arith,
    (refl, refl, rw s (-ℤ-one 0)),
  )
  get-Represents q x (y ∷ xs) (p, r, h, e, s, (m, g, lt, w)) = (
    record q { head = some m; size = q.size -ℤ pos 1 },
    ground arith,
    (m, r, refl, e, rw s (-ℤ-one (suc (length xs))), w),
  )

  -- `Get` on the empty queue returns nil and changes nothing.
  pub get-Represents_nil : (q : Queue A) → Represents q [] → get q ≡ some (q, none)
  unfolding get
  get-Represents_nil q (h, r, s) = rw h

  -- The results of the calls of `Get`, and the queue after all calls.
  unfoldable pub run : List (Call A) → Queue A → Option (Queue A × List (Option A))
  run [] q = some (q, [])
  run (puts v ∷ cs) q = elim (put q v) [ none ↦ none | some q' ↦ run cs q' ]
  run (gets ∷ cs) q = elim (get q) [
    | none ↦ none
    | some (q', o) ↦ elim (run cs q') [ none ↦ none | some (q'', os) ↦ some (q'', o ∷ os) ]
  ]

  -- The same calls on a list.
  unfoldable pub run_list : List (Call A) → List A → List A × List (Option A)
  run_list [] xs = (xs, [])
  run_list (puts v ∷ cs) xs = run_list cs (xs ++ v ∷ [])
  run_list (gets ∷ cs) [] = let (ys, os) = run_list cs [] in (ys, none ∷ os)
  run_list (gets ∷ cs) (x ∷ xs) = let (ys, os) = run_list cs xs in (ys, some x ∷ os)

  -- Calls that do not overlap, on a queue that holds a list: no call faults, each `Get` returns what a first-in first-out list
  -- returns, and the queue ends up with the list's content and its length as `Size`.
  pub run-run_list :
      (cs : List (Call A)) (q : Queue A) (xs : List A)
      → Represents q xs
      → (q' : Queue A) × (run cs q ≡ some (q', (run_list cs xs).1))
        × Represents q' (run_list cs xs).0
  unfolding run run_list
  run-run_list [] q xs w = (q, refl, w)
  run-run_list (puts v ∷ cs) q xs w =
      let (q', e, w') = put-Represents q xs v w in
      let (q'', e', w'') = run-run_list cs q' (xs ++ v ∷ []) w' in (q'', rw (e, run) e', w'')
  run-run_list (gets ∷ cs) q [] w =
      let (q'', e', w'') = run-run_list cs q [] w in
      (q'', rw (get-Represents_nil q w, run, e', run), w'')
  run-run_list (gets ∷ cs) q (x ∷ xs) w =
      let (q', e, w') = get-Represents q x xs w in
      let (q'', e', w'') = run-run_list cs q' xs w' in (q'', rw (e, run, e', run), w'')

pub init-Represents : (A : Type 0) → Represents (init {A = A}) []
unfolding init
init-Represents A = (refl, refl, refl)
