-- ===== src/Thread/Queue/Examples.antt =====
-- Pushes and pops of a new queue.
use learn_for_cpp.Base.{ℕ, ◌≡◌, refl, none, some, false, map, List, [], ◌∷◌, ◌++◌}
use learn_for_cpp.Thread.Plain
use learn_for_cpp.Thread.Queue.{try_pop_head, Queue, new_queue, push, try_pop, pop_head}
use learn_for_cpp.Thread.Queue.Chain.{Op, pushes, tries, run, run_plain, run-new_queue}
use learn_for_cpp.Thread.Queue.Threads.{
  Shared, Move, new_shared, move, moves, push_step, pop_step, take_head, values, push_begins,
  push_moves, pop_begins, pop_moves,
}
use learn_for_cpp.Thread.Queue.Linear.{AsRead, values-moves}

abbrev ops : List Op
ops = tries ∷ pushes 5 ∷ pushes 6 ∷ tries ∷ tries ∷ tries ∷ []

runs : run ops new_queue ≡ some (none ∷ some 5 ∷ some 6 ∷ none ∷ [])
unfolding new_queue push try_pop try_pop_head pop_head
runs = refl

run-new_queue_example : run ops new_queue ≡ some (run_plain ops Plain.new_queue)
run-new_queue_example = run-new_queue ops

-- The queue holds 7.
abbrev one : Queue
one = record {
  nodes = λ a. record { datum = some 7; next = some 1 };
  head = 0;
  tail = 1;
  fresh = 2;
}

abbrev seven : List ℕ
seven = 7 ∷ []

-- A push and a pop begin together; the pop reads the tail when the value is in, and takes it while
-- the next push is under way.
abbrev schedule : List Move
schedule =
    pop_begins
    ∷ push_begins 5
    ∷ push_moves
    ∷ push_moves
    ∷ push_moves
    ∷ pop_moves
    ∷ push_begins 6
    ∷ pop_moves
    ∷ push_moves
    ∷ pop_moves
    ∷ push_moves
    ∷ []

abbrev ended : Shared
ended = elim (moves schedule new_shared) [ some s ↦ s | none ↦ new_shared ]

ended_runs : moves schedule new_shared ≡ some ended
unfolding moves move new_shared push_step pop_step take_head
ended_runs = refl

ended-values : values ended ≡ some 5 ∷ []
unfolding values moves move new_shared push_step pop_step take_head
ended-values = refl

values-moves_example :
    (ended.crashed ≡ false)
    × ((vs : List ℕ) × (xs : List ℕ) × (values ended ≡ map some vs) × (ended.pushed ≡ vs ++ xs))
    × AsRead ended.popper ended.head
values-moves_example = values-moves schedule ended ended_runs
