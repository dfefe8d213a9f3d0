-- ===== src/Thread/Pool/Examples.antt =====
-- A pool of one thread: it gets a task and drops it; and a pool that is stopped while its thread waits.
use learn_for_cpp.Base.{ℕ, ◌≡◌, ◌⊎◌, refl, true, false, some, List, [], ◌∷◌, ◌++◌, put, arith}
use learn_for_cpp.Thread.Pool.{
  Pool, waiting, checking, taking, holding, ended, new_pool, set_threads_num, start, push, wake,
  stop, work, work_at, Move, pushes, works, move, moves,
}
use learn_for_cpp.Thread.Pool.Tasks.{pushed, moves-start}
use learn_for_cpp.Thread.Pool.Stopped.{works_only, moves-stop}

abbrev one : Pool
one = record {
  running = true;
  threads_num = 1;
  threads = 1;
  workers = λ i. checking;
  tasks = [];
  ran = [];
  thrown = false;
}

one_runs : start (set_threads_num new_pool 1) ≡ some one
unfolding start set_threads_num new_pool
one_runs = refl

abbrev dropping : List Move
dropping = pushes 5 0 ∷ works 0 ∷ works 0 ∷ works 0 ∷ []

abbrev dropped : Pool
dropped = record one {
  workers = put (put (put (λ i. checking) 0 taking) 0 (holding (some 5))) 0 checking;
}

dropped_runs : moves one dropping ≡ some dropped
unfolding moves move push wake work work_at
dropped_runs = refl

moves-start_example :
    (dropped.ran ≡ [])
    × ((gone : List ℕ) × (pushed dropping ≡ gone ++ dropped.tasks))
    × ((dropped.thrown ≡ false) ⊎ (dropped.running ≡ false))
moves-start_example = moves-start 1 dropping one dropped (omega arith) one_runs dropped_runs

abbrev idle : Pool
idle = record one { workers = put (λ i. checking) 0 waiting; threads = 2 }

abbrev stopped : Pool
stopped = record idle { running = false }

stopped_runs : stop idle ≡ some stopped
unfolding stop
stopped_runs = refl

abbrev left : Pool
left = record stopped { workers = put (put (λ i. checking) 0 waiting) 1 ended }

left_runs : moves stopped (works_only (1 ∷ [])) ≡ some left
unfolding moves move work work_at
left_runs = refl

moves-stop_example : left.workers 0 ≡ waiting
moves-stop_example = moves-stop idle stopped left 0 (1 ∷ []) refl stopped_runs left_runs
