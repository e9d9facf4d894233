-- ===== src/BlockQueue/Tests.antt =====
-- blockqueue/queue.go on concrete queues.
use alg_bc_db.Prelude.{ℕ, ◌≡◌, refl, some, none, List, [], ◌∷◌, arith}
use alg_bc_db.Prelude.Int.{pos}
use alg_bc_db.BlockQueue.{Queue, init}
use alg_bc_db.BlockQueue.Fifo.{
  Call, puts, gets, Represents, run, run_list, run-run_list, init-Represents,
}
use alg_bc_db.BlockQueue.Race.{overlapping_gets, overlapping_gets-duplicate}

abbrev calls : List (Call ℕ)
calls = puts 5 ∷ puts 6 ∷ gets ∷ gets ∷ gets ∷ []

-- The results of the calls of `Get`, oldest call first.
abbrev calls_results : run_list calls [] ≡ ([], some 5 ∷ some 6 ∷ none ∷ [])
unfolding run_list
calls_results = refl

run-run_list_example :
    (q' : Queue ℕ) × (run calls init ≡ some (q', (run_list calls []).1))
    × Represents q' (run_list calls []).0
run-run_list_example = run-run_list calls init [] (init-Represents ℕ)

abbrev two_items : Queue ℕ
two_items = record {
  heap = record { elem = 5; next = some 1 } ∷ record { elem = 6; next = none } ∷ [];
  head = some 0;
  rear = some 1;
  size = pos 2;
}

two_items-Represents : Represents two_items (5 ∷ 6 ∷ [])
two_items-Represents = (0, 1, refl, refl, refl, (1, refl, omega arith, (refl, refl)))

overlapping_gets-duplicate_example :
    (q' : Queue ℕ) × (overlapping_gets two_items ≡ some (q', 5, 5))
    × Represents (record q' { size = pos 1 }) (6 ∷ [])
    × (q'.size ≡ pos 0)
overlapping_gets-duplicate_example =
    overlapping_gets-duplicate two_items 5 6 [] two_items-Represents
