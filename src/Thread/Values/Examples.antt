-- ===== src/Thread/Values/Examples.antt =====
-- A queue used by two threads, a stack, and tasks.
use learn_for_cpp.Base.{◌≡◌, refl, none, some, [], ◌∷◌}
use learn_for_cpp.Thread.Values.{
  push, wait_and_pop, pop_front, try_pop, popped, empty_stack, push_value, pop, put_task, back,
  take_task,
}
use learn_for_cpp.Thread.Values.Order.{pushes, waits, pops, tries, run}

ran : run (tries ∷ pushes 3 ∷ pushes 4 ∷ waits ∷ []) [] ≡ some (3 ∷ [], 4 ∷ [])
unfolding run push wait_and_pop try_pop
ran = refl

-- The pointer form of `wait_and_pop` takes the front of an empty queue.
unguarded : run (pops ∷ []) [] ≡ none
unfolding run pop_front
unguarded = refl

last_in : pop (push_value (push_value [] 3) 4) ≡ popped 4 (3 ∷ [])
unfolding pop push_value
last_in = refl

thrown : pop [] ≡ empty_stack
unfolding pop
thrown = refl

stays : take_task (put_task (put_task [] 3) 4) ≡ some (4, 3 ∷ 4 ∷ [])
unfolding take_task put_task back
stays = refl
