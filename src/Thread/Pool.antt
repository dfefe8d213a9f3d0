-- ===== src/Thread/Pool.antt =====
-- thread/thread_pool.cc: `threadpool`, with its threads, one access under the mutex at a time. A task
-- is a number. `notify_one` wakes the waiting thread that the caller names, or none. Calling an empty
-- function throws, which ends the program. A failed assertion, or a move that cannot be made, is `none`.
pub mod Tasks
pub mod Stopped
mod Examples
use learn_for_cpp.Base.{
  ℕ, Bool, true, false, not, Option, none, some, List, [], ◌∷◌, ◌++◌, ltb, ◌==◌, put, if◌then◌else◌,
  ◌>>=◌, ◌>>◌, assert,
}

-- Where a thread stands in `threadFunc`: at its test, at the start of `take`, inside `wait`, with what
-- `take` returned, or at the end.
pub data Worker : Type 0 where
  checking taking waiting ended : Worker
  holding : Option ℕ → Worker

pub record Pool : Type 0 where
  pub running : Bool
  pub threads_num : ℕ
  -- The size of `threads_`, and each of them.
  pub threads : ℕ
  pub workers : ℕ → Worker
  pub tasks : List ℕ
  pub ran : List ℕ
  pub thrown : Bool

unfoldable pub new_pool : Pool
new_pool = record {
  running = false;
  threads_num = 0;
  threads = 0;
  workers = λ i. checking;
  tasks = [];
  ran = [];
  thrown = false;
}

unfoldable pub set_threads_num : Pool → ℕ → Pool
set_threads_num p n = record p { threads_num = n }

-- `start` of a pool that has no thread yet.
unfoldable pub start : Pool → Option Pool
start p = do assert (not p.running); some (record p { running = true; threads = p.threads_num })

abbrev pub is_waiting : Worker → Bool
is_waiting waiting = true
is_waiting _ = false

-- A thread inside `wait` goes on with the test.
unfoldable pub wake : Pool → ℕ → Pool
wake p i = if is_waiting (p.workers i) then record p { workers = put p.workers i taking } else p

unfoldable pub push : Pool → ℕ → ℕ → Pool
push p task i =
    if p.threads == 0
    then record p { ran = p.ran ++ (task ∷ []) }
    else wake (record p { tasks = p.tasks ++ (task ∷ []) }) i

-- `stop` up to the joins.
unfoldable pub stop : Pool → Option Pool
stop p = do assert p.running; some (record p { running = false })

-- The loop of `take`: its test, and what it returns.
abbrev pub take : Pool → List ℕ → ℕ → Pool
take p [] i = record p { workers = put p.workers i (if p.running then waiting else holding none) }
take p (t ∷ ts) i = record p { tasks = ts; workers = put p.workers i (holding (some t)) }

-- One step of `threadFunc`; the test of the task is the source's.
unfoldable pub work_at : Worker → Pool → ℕ → Option Pool
work_at checking p i =
    some (record p { workers = put p.workers i (if p.running then taking else ended) })
work_at taking p i = some (take p p.tasks i)
work_at waiting p i = none
work_at ended p i = none
work_at (holding (some t)) p i = some (record p { workers = put p.workers i checking })
work_at (holding none) p i = some (record p { thrown = true })

unfoldable pub work : Pool → ℕ → Option Pool
work p i = do assert (ltb i p.threads); work_at (p.workers i) p i

-- The calls of a user, the steps of the threads, and wakeups out of nothing.
pub data Move : Type 0 where
  pushes : ℕ → ℕ → Move
  stops : Move
  works wakes : ℕ → Move

unfoldable pub move : Pool → Move → Option Pool
move p (pushes task i) = some (push p task i)
move p stops = stop p
move p (works i) = work p i
move p (wakes i) = some (wake p i)

unfoldable pub moves : Pool → List Move → Option Pool
moves p [] = some p
moves p (m ∷ ms) = do p' ← move p m; moves p' ms
