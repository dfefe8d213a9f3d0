-- ===== src/EventLoop/Examples.antt =====
-- The loop's theorems at small loops, and a run.
use mathlib.Core.List.{Mem, not-mem-nil, mem_of_ne_of_mem}
use learn_for_cpp.Base.{ℕ, ◌≡◌, ◌⊎◌, refl, true, false, some, List, [], ◌∷◌, arith}
use learn_for_cpp.EventLoop.{
  Task, task, done, runs, queues, quits, Loop, queue_in_loop, exec, exec_all, do_pending_functions,
  loop_rounds, loop,
}
use learn_for_cpp.EventLoop.Pending.{loop_round}
use learn_for_cpp.Base.Int.{pos, ◌≤ℤ◌, ◌<ℤ◌}
use learn_for_cpp.TimerQueue.{
  Interval, Entry, TimerQueue, add_time, entry_of, is_earliest, get_expiration,
}
use learn_for_cpp.TimerQueue.Order.{addresses}
use learn_for_cpp.EventLoop.Timers.{
  Timers, add_pending, new_timer, once, run_after, IsIn, run_after-get_expiration,
}
use learn_for_cpp.EventLoop.Wakeup.{Foreign, calls, wakeups-calls}

-- Task 2 queues itself no more, and task 1 queues task 2 and runs task 3.
abbrev second : Task
second = task 2 done

abbrev first : Task
first = task 1 (queues second (runs (task 3 done) done))

abbrev busy : Loop
busy = record {
  looping = true;
  quit = false;
  calling_pending = false;
  pending = first ∷ [];
  wakeups = 0;
  ran = [];
}

pending_runs :
    do_pending_functions busy ≡ record busy { pending = second ∷ []; wakeups = 1; ran = 1 ∷ 3 ∷ [] }
unfolding do_pending_functions exec_all exec queue_in_loop
pending_runs = refl

-- `loop` forgets a `quit` that came before it.
early_quit : (loop [] (record busy { quit = true })).quit ≡ false
unfolding loop loop_rounds
early_quit = refl

loop_round_example :
    let l = loop_rounds ((task 5 (quits done) ∷ []) ∷ []) busy in
    (l.ran ≡ 5 ∷ 1 ∷ 3 ∷ []) × (l.pending ≡ second ∷ []) × (l.quit ≡ true) × (l.looping ≡ false)
loop_round_example = loop_round busy (task 5 (quits done) ∷ []) refl

wakeups-calls_example :
    ((calls busy (Foreign.queues second ∷ Foreign.runs second ∷ [])).pending
      ≡ first ∷ second ∷ second ∷ [])
    × ((calls busy (Foreign.queues second ∷ Foreign.runs second ∷ [])).ran ≡ [])
    × ((calls busy (Foreign.queues second ∷ Foreign.runs second ∷ [])).wakeups ≡ 0)
wakeups-calls_example = wakeups-calls busy (Foreign.queues second ∷ Foreign.runs second ∷ []) refl

-- A queue with one timer.
abbrev armed_queue : TimerQueue
armed_queue = record {
  timers = entry_of (new_timer 30 1 (pos 100) once) ∷ [];
  armed = some (pos 100);
  deleted = [];
}

abbrev delay : Interval
delay = record { positive = true; micros = pos 40 }

other_address : ¬ Mem 40 (addresses armed_queue.timers)
other_address m =
    not-mem-nil (mem_of_ne_of_mem (λ (e : ◌≡◌ {A = ℕ} 40 30). absurd (omega (arith, e))) m)

abbrev timers : Timers
timers = record { queue = armed_queue; pending = []; calling_pending = false; wakeups = 0 }

run_after-get_expiration_example :
    let when = add_time (pos 20) delay in
    let t = new_timer 40 2 when once in
    (q1 : TimerQueue) × (s1 : Timers) × (run_after false timers 40 2 (pos 20) delay ≡ some s1)
    × (s1 ≡ record timers { pending = t ∷ [] })
    × (add_pending s1 ≡ some (record timers { queue = q1 }))
    × (((is_earliest when armed_queue.timers ≡ true) × (q1.armed ≡ some when))
        ⊎ ((is_earliest when armed_queue.timers ≡ false) × (q1.armed ≡ armed_queue.armed)))
    × (due : List Entry) × (later : List Entry) × (get_expiration q1 (pos 70)
        ≡ some (due, record q1 { timers = later }))
    × (((when ≤ℤ pos 70) × IsIn (entry_of t) due) ⊎ ((pos 70 <ℤ when) × IsIn (entry_of t) later))
run_after-get_expiration_example =
    run_after-get_expiration false timers 40 2 (pos 20) (pos 70) delay refl refl (tt, tt)
      (omega arith) other_address (omega arith)
