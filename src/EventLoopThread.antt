-- ===== src/EventLoopThread.antt =====
-- reactor/EventLoopThread.h and EventLoopThread.cc: a thread with a loop of its own. Two parties move
-- in turns, one access to shared data at a time: the owner, which calls `startLoop` and the destructor,
-- and the thread, which runs `ThreadFunc`. A party that cannot move, because the mutex is held or it
-- waits, has no step. A failed assertion is `none` of the call.
pub mod Inv
pub mod Started
pub mod Joined
mod Examples
use learn_for_cpp.Base.{
  ℕ, Bool, true, false, not, Option, none, some, [], ◌≡◌, if◌then◌else◌, ◌>>=◌,
}
use learn_for_cpp.Thread.Start.{Thread, new_thread, start, join}

pub data Party : Type 0 where
  owner runner : Party

-- Where the owner stands; `waiting` is inside `cond_.wait`, `dangling` has called a method of a loop
-- that is gone.
pub data Owner : Type 0 where
  idle locking testing waiting reading : Owner
  returned : Option ℕ → Owner
  joining quitting destroyed dangling : Owner

-- Where `ThreadFunc` stands.
pub data Runner : Type 0 where
  absent starting acquiring publishing notifying releasing entering running ended : Runner

pub record World : Type 0 where
  pub thread : Thread
  -- `loop_`, the address of the loop on the thread's stack, and whether that loop exists.
  pub loop : Option ℕ
  pub loop_alive : Bool
  -- The loop's `quit_`.
  pub quit : Bool
  pub existing : Bool
  pub mutex : Option Party
  pub owner : Owner
  pub runner : Runner

unfoldable pub new_world : World
unfolding new_thread
new_world = record {
  thread = (new_thread [] 0).0;
  loop = none;
  loop_alive = false;
  quit = false;
  existing = false;
  mutex = none;
  owner = idle;
  runner = absent;
}

-- `startLoop` up to its block, with whether `pthread_create` succeeds.
unfoldable pub start_loop : World → Bool → Option World
start_loop w ok = do
  t ← start w.thread ok
  some (record w { thread = t; owner = locking; runner = starting })

-- The destructor up to `pthread_join`.
unfoldable pub destroy : World → Option World
destroy w = do t ← join w.thread; some (record w { existing = true; thread = t; owner = joining })

abbrev pub is_null : Option ℕ → Bool
is_null none = true
is_null (some p) = false

abbrev pub is_free : Option Party → Bool
is_free none = true
is_free (some p) = false

abbrev pub is_ended : Runner → Bool
is_ended ended = true
is_ended _ = false

-- `notify_one` wakes the owner where it waits.
abbrev pub woken : Owner → Owner
woken waiting = locking
woken o = o

-- The rest of `startLoop` and of the destructor: `lock`, the test and `wait`, `return loop_`,
-- `pthread_join`, `loop_->quit()`.
unfoldable pub owner_at : Owner → World → Option World
owner_at idle w = none
owner_at locking w =
    if is_free w.mutex then some (record w { mutex = some owner; owner = testing }) else none
owner_at testing w =
    some (record w { mutex = none; owner = if is_null w.loop then waiting else reading })
owner_at waiting w = none
owner_at reading w = some (record w { owner = returned w.loop })
owner_at (returned p) w = none
owner_at joining w = if is_ended w.runner then some (record w { owner = quitting }) else none
owner_at quitting w = some (
    if w.loop_alive
    then record w { quit = true; owner = destroyed }
    else record w { owner = dangling })
owner_at destroyed w = none
owner_at dangling w = none

-- `ThreadFunc`, with the address of its loop: `EventLoop loop`, `lock`, `loop_ = &loop`, `notify_one`,
-- the end of the block, `loop()`, which sets `quit_`, and its end, with that of the loop.
unfoldable pub runner_at : ℕ → Runner → World → Option World
runner_at here absent w = none
runner_at here starting w = some (record w { loop_alive = true; runner = acquiring })
runner_at here acquiring w =
    if is_free w.mutex then some (record w { mutex = some runner; runner = publishing }) else none
runner_at here publishing w = some (record w { loop = some here; runner = notifying })
runner_at here notifying w = some (record w { owner = woken w.owner; runner = releasing })
runner_at here releasing w = some (record w { mutex = none; runner = entering })
runner_at here entering w = some (record w { quit = false; runner = running })
runner_at here running w =
    if w.quit then some (record w { loop_alive = false; runner = ended }) else none
runner_at here ended w = none

unfoldable pub step : ℕ → Party → World → Option World
step here owner w = owner_at w.owner w
step here runner w = runner_at here w.runner w

-- What can happen. `others` says whether anybody but the destructor calls `quit` of the loop.
pub data Step (here : ℕ) (others : Bool) (w : World) : World → Type 0 where
  moves : {w' : World} (p : Party) → step here p w ≡ some w' → Step here others w w'
  wakes : w.owner ≡ waiting → Step here others w (record w { owner = locking })
  quits : others ≡ true → w.loop_alive ≡ true → Step here others w (record w { quit = true })
  calls_start : {w' : World} → w.owner ≡ idle → start_loop w true ≡ some w' → Step here others w w'
  calls_destroy :
      {w' : World} (p : Option ℕ)
      → w.owner ≡ returned p
      → destroy w ≡ some w'
      → Step here others w w'

pub data Reaches (here : ℕ) (others : Bool) : World → Type 0 where
  begins : Reaches here others new_world
  later : {w w' : World} → Reaches here others w → Step here others w w' → Reaches here others w'
