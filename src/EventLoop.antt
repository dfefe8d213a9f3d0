-- ===== src/EventLoop.antt =====
-- reactor/EventLoop.h and EventLoop.cc: the loop's flags, its queue of functions and the eventfd that
-- wakes it. A function that the loop runs is a tree of the calls that it makes on the same loop.
-- What a call runs at once is appended to `ran`. `looping`, `quit` and the rest are read and written
-- in the order of the source; the mutex makes each access to the queue one step.
pub mod Pending
pub mod Wakeup
pub mod Timers
pub mod Round
mod Examples
use learn_for_cpp.Base.{
  ℕ, ◌+◌, Bool, true, false, not, ◌||◌, List, [], ◌∷◌, ◌++◌, Option, none, some, if◌then◌else◌,
  ◌>>=◌, ◌>>◌,
}

-- A function has an identity, and calls `runInLoop`, `queueInLoop` or `quit` of its loop, in order.
mutual
  pub data Task : Type 0 where
    task : ℕ → Calls → Task

  pub data Calls : Type 0 where
    done : Calls
    runs : Task → Calls → Calls
    queues : Task → Calls → Calls
    quits : Calls → Calls

pub record Loop : Type 0 where
  pub looping : Bool
  pub quit : Bool
  pub calling_pending : Bool
  pub pending : List Task
  -- The counter of the eventfd: the number of bytes pending for its channel's read, in eights.
  pub wakeups : ℕ
  pub ran : List ℕ

unfoldable pub new_loop : Loop
new_loop = record {
  looping = false;
  quit = false;
  calling_pending = false;
  pending = [];
  wakeups = 0;
  ran = [];
}

-- `write` of 1 to the eventfd.
abbrev pub wakeup : Loop → Loop
wakeup l = record l { wakeups = l.wakeups + 1 }

-- `EventLoop::handleRead`: `read` resets the counter.
unfoldable pub handle_read : Loop → Loop
handle_read l = record l { wakeups = 0 }

-- The first argument is `isInLoopThread()`. The condition is the source's.
pub queue_in_loop : Bool → Loop → Task → Loop
queue_in_loop in_thread l t =
    let l' : Loop = record l { pending = l.pending ++ (t ∷ []) } in
    if in_thread || l.calling_pending then wakeup l' else l'

pub quit_loop : Bool → Loop → Loop
quit_loop in_thread l =
    let l' : Loop = record l { quit = true } in if in_thread then l' else wakeup l'

-- A function called in the loop thread: it runs, and its calls of `runInLoop` run at once.
unfoldable mutual
  pub exec : Task → Loop → Loop
  exec (task n cs) l = exec_calls cs (record l { ran = l.ran ++ (n ∷ []) })

  pub exec_calls : Calls → Loop → Loop
  exec_calls done l = l
  exec_calls (runs t cs) l = exec_calls cs (exec t l)
  exec_calls (queues t cs) l = exec_calls cs (queue_in_loop true l t)
  exec_calls (quits cs) l = exec_calls cs (quit_loop true l)

pub run_in_loop : Bool → Loop → Task → Loop
run_in_loop in_thread l t = if in_thread then exec t l else queue_in_loop false l t

pub exec_all : List Task → Loop → Loop
exec_all [] l = l
exec_all (t ∷ ts) l = exec_all ts (exec t l)

-- The queue is swapped out under the mutex, then its functions run.
pub do_pending_functions : Loop → Loop
do_pending_functions l =
    let l' = exec_all l.pending (record l { calling_pending = true; pending = [] }) in
    record l' { calling_pending = false }

-- The rounds of `loop`: each is the handlers of the channels that one `epoll` made active, here as the
-- functions that they call. With no round left the loop waits in `epoll`.
pub loop_rounds : List (List Task) → Loop → Loop
loop_rounds [] l = if l.quit then record l { looping = false } else l
loop_rounds (handlers ∷ rounds) l =
    let rest = loop_rounds rounds (do_pending_functions (exec_all handlers l)) in
    if l.quit then record l { looping = false } else rest

pub loop : List (List Task) → Loop → Loop
loop rounds l = loop_rounds rounds (record l { looping = true; quit = false })
