-- ===== src/Thread/Plain.antt =====
-- The queues of thread/ that guard a `std::queue`: `threadsafer_queue` of thread/threadsafe_queue.cc
-- and `BlockingQueue` of thread/BlockingQueue.cc. The mutex makes each operation one step; a pop that
-- waits is taken where its wait is over, and is `none` before that.
pub mod Fifo
mod Examples
use learn_for_cpp.Base.{
  ℕ, zero, suc, Bool, true, false, Option, none, some, List, [], ◌∷◌, ◌++◌, length,
}

-- `data_queue`, from its front; the shared pointers are the values.
abbrev pub Queue : Type 0
Queue = List ℕ

abbrev pub new_queue : Queue
new_queue = []

unfoldable pub push : Queue → ℕ → Queue
push q value = q ++ (value ∷ [])

unfoldable pub try_pop : Queue → Option ℕ × Queue
try_pop [] = (none, [])
try_pop (x ∷ xs) = (some x, xs)

unfoldable pub wait_and_pop : Queue → Option (ℕ × Queue)
wait_and_pop [] = none
wait_and_pop (x ∷ xs) = some (x, xs)

-- `BlockingQueue`: `put`, `take` and `size`.
pub put_item : Queue → ℕ → Queue
put_item q x = q ++ (x ∷ [])

pub take_item : Queue → Option (ℕ × Queue)
take_item [] = none
take_item (x ∷ xs) = some (x, xs)

unfoldable pub size : Queue → ℕ
size q = length q
