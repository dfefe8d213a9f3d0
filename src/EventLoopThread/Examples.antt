-- ===== src/EventLoopThread/Examples.antt =====
-- A loop thread that is started and destroyed, and one whose loop somebody stops first.
use learn_for_cpp.Base.{
  Bool, true, false, ◌≡◌, ◌≢◌, ◌⊎◌, refl, none, some, subst, [], ◌∷◌, arith, replicate,
}
use learn_for_cpp.Thread.Start.{created, joined, start, join}
use learn_for_cpp.EventLoopThread.{
  owner, runner, World, new_world, start_loop, destroy, owner_at, runner_at, step, Reaches, begins,
  later, quits, locking, joining, starting, running, ended, idle, calls_start, calls_destroy,
  returned, dangling, destroyed,
}
use learn_for_cpp.EventLoopThread.Started.{turn, run, run-Reaches, run-start_loop}
use learn_for_cpp.EventLoopThread.Joined.{is_joined, destroy-not-destroyed}

abbrev called : World
called = record {
  thread = record { started = true; joined = false; tid = 0; name = []; effects = created ∷ [] };
  loop = none;
  loop_alive = false;
  quit = false;
  existing = false;
  mutex = none;
  owner = locking;
  runner = starting;
}

called_runs : start_loop new_world true ≡ some called
unfolding start_loop start new_world
called_runs = refl

fresh : new_world.owner ≡ idle
unfolding new_world
fresh = refl

called-Reaches : (others : Bool) → Reaches 64 others called
called-Reaches others = later begins (calls_start fresh called_runs)

-- The owner goes first each time: it waits until it is notified.
abbrev back : World
back = record called {
  loop = some 64;
  loop_alive = true;
  owner = returned (some 64);
  runner = running;
}

back_runs : run 64 (replicate 14 owner) called ≡ back
unfolding run turn step owner_at runner_at
back_runs = refl

run-start_loop_example : (run 64 (replicate 14 owner) called).owner ≡ returned (some 64)
run-start_loop_example =
    run-start_loop 64 false called (replicate 14 owner) (called-Reaches false) refl (omega arith)

-- Somebody stops the loop, and the thread ends; then the owner destroys the object.
abbrev stopped : World
stopped = record back { quit = true; loop_alive = false; runner = ended }

stopped_runs : run 64 (runner ∷ []) (record back { quit = true }) ≡ stopped
unfolding run turn step owner_at runner_at
stopped_runs = refl

abbrev dropped : World
dropped = record stopped {
  thread = record (stopped.thread) { joined = true; effects = joined ∷ created ∷ [] };
  existing = true;
  owner = joining;
}

dropped_runs : destroy stopped ≡ some dropped
unfolding destroy join
dropped_runs = refl

dropped-Reaches : Reaches 64 true dropped
dropped-Reaches =
    let up : Reaches 64 true back =
      subst (Reaches 64 true) back_runs
        (run-Reaches 64 true (replicate 14 owner) called (called-Reaches true)) in
    let down : Reaches 64 true stopped = subst (Reaches 64 true) stopped_runs (
      run-Reaches 64 true (runner ∷ []) (record back { quit = true })
        (later up (quits refl refl))) in
    later down (calls_destroy (some 64) refl dropped_runs)

abbrev gone : World
gone = record dropped { owner = dangling }

gone_runs : run 64 (owner ∷ owner ∷ []) dropped ≡ gone
unfolding run turn step owner_at runner_at
gone_runs = refl

gone-Reaches : Reaches 64 true gone
gone-Reaches =
    subst (Reaches 64 true) gone_runs
      (run-Reaches 64 true (owner ∷ owner ∷ []) dropped dropped-Reaches)

destroy-not-destroyed_example :
    (gone.owner ≢ destroyed)
    × ((is_joined gone.owner ≡ false) ⊎ ((true ≡ true) × (gone.loop_alive ≡ false)))
destroy-not-destroyed_example = destroy-not-destroyed 64 true gone gone-Reaches
