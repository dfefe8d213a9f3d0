-- ===== src/Thread/Values.antt =====
-- The containers of values behind one mutex: `threadsafe_queue`, the first class of
-- thread/threadsafe_queue.cc, `threadsafe_stack` of thread/threadsafe_stack.cc and `TaskQueue` of
-- reactor/taskQueue.cc. The mutex makes each operation one step; one that waits is taken where its wait
-- is over. `front` of an empty queue is the fault `none`.
pub mod Order
mod Examples
use learn_for_cpp.Base.{ℕ, Bool, true, false, Option, none, some, List, [], ◌∷◌, ◌++◌, ◌>>=◌}

-- `queue_`, from its front.
abbrev pub Queue : Type 0
Queue = List ℕ

-- The constructor from another queue.
pub copy_queue : Queue → Queue
copy_queue other = other

unfoldable pub push : Queue → ℕ → Queue
push q new_value = q ++ (new_value ∷ [])

abbrev pub is_empty : List ℕ → Bool
is_empty [] = true
is_empty (x ∷ xs) = false

unfoldable pub empty : Queue → Bool
empty q = is_empty q

-- `wait_and_pop` into a reference.
unfoldable pub wait_and_pop : Queue → Option (ℕ × Queue)
wait_and_pop [] = none
wait_and_pop (x ∷ xs) = some (x, xs)

-- `wait_and_pop` that returns a pointer does not wait.
unfoldable pub pop_front : Queue → Option (ℕ × Queue)
pop_front [] = none
pop_front (x ∷ xs) = some (x, xs)

-- Both forms of `try_pop`.
unfoldable pub try_pop : Queue → Option ℕ × Queue
try_pop [] = (none, [])
try_pop (x ∷ xs) = (some x, xs)

-- `data_` of the stack, from its top. `pop` of an empty stack throws `empty_stack`.
abbrev pub Stack : Type 0
Stack = List ℕ

pub data Pop : Type 0 where
  popped : ℕ → Stack → Pop
  empty_stack : Pop

unfoldable pub push_value : Stack → ℕ → Stack
push_value s new_value = new_value ∷ s

unfoldable pub pop : Stack → Pop
pop [] = empty_stack
pop (x ∷ xs) = popped x xs

-- `taskqueue_`, from its front. `put` does not take the mutex, and `take` returns the last function and
-- leaves it in the vector.
abbrev pub Tasks : Type 0
Tasks = List ℕ

unfoldable pub put_task : Tasks → ℕ → Tasks
put_task ts func = ts ++ (func ∷ [])

unfoldable pub back : Tasks → Option ℕ
back [] = none
back (t ∷ []) = some t
back (t ∷ u ∷ ts) = back (u ∷ ts)

unfoldable pub take_task : Tasks → Option (ℕ × Tasks)
take_task ts = do t ← back ts; some (t, ts)
