-- ===== src/Cluster/Repeats.antt =====
-- `delRepeatElem` of Cluster/cluster.go comes to an end.
use alg_bc_db.Prelude.{
  ℕ, zero, suc, ◌-◌, ◌≤◌, ◌<◌, ◌≡◌, refl, ◌∙◌, some, List, ◌++◌, length, length-append, length-take,
  length-drop, take, drop, get_elem?, ltb, arith, Bool-cases, inl, inr,
}
use alg_bc_db.Cluster.{Node, repeated, shift_down, del_repeat_loop, del_repeat_elem}

length-shift_down :
    (m i : ℕ) (cells : List Node)
    → suc i < m
    → m ≤ length cells
    → length (shift_down m i cells) ≡ length cells
length-shift_down m i cells h k =
    let rest = drop (suc i) (take m cells) in
    omega (
      arith,
      length-append (take i cells) (rest ++ drop (m - 1) cells),
      length-append rest (drop (m - 1) cells),
      length-take i cells,
      length-drop (suc i) (take m cells),
      length-take m cells,
      length-drop (m - 1) cells,
    )

del_repeat_loop-ends :
    (fuel m i : ℕ) (cells : List Node)
    → m - i < fuel
    → m ≤ length cells
    → (cells' : List Node) × (m' : ℕ) × (del_repeat_loop fuel m i cells ≡ some (cells', m'))
      × (length cells' ≡ length cells)
      × (m' ≤ m)
unfolding del_repeat_loop
del_repeat_loop-ends zero m i cells f k = absurd (omega arith)
del_repeat_loop-ends (suc fuel) m i cells f k = elim (Bool-cases (ltb (suc i) m)) [
  | inr done ↦ (cells, m, rw done refl, refl, omega arith)
  | inl more ↦
      elim (Bool-cases
        (repeated (get_elem? cells (i - 1)) (get_elem? cells i) (get_elem? cells (suc i)))) [
          | inl same ↦
              let kept = length-shift_down m i cells (ground arith) k in
              let (cells', m', e, l, le) =
                del_repeat_loop-ends fuel (m - 1) i (shift_down m i cells) (ground arith)
                  (ground arith) in
              (cells', m', rw (more, same) e, l ∙ kept, omega arith)
          | inr other ↦
              let (cells', m', e, l, le) =
                del_repeat_loop-ends fuel m (suc i) cells (ground arith) k in
              (cells', m', rw (more, other) e, l, le)
        ]
]

-- `delRepeatElem` comes to an end on every list of nodes. It gives no more nodes than there were, and
-- the array of the cluster, which it changes in place, keeps its length.
pub del_repeat_elem-ends :
    (nodes : List Node)
    → (cells : List Node) × (m : ℕ) × (del_repeat_elem nodes ≡ some (cells, m))
      × (length cells ≡ length nodes)
      × (m ≤ length nodes)
unfolding del_repeat_elem
del_repeat_elem-ends nodes =
    del_repeat_loop-ends (suc (length nodes)) (length nodes) 1 nodes (omega arith) (omega arith)
