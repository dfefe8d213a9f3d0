-- ===== src/Thread/Holder.antt =====
-- `MutexLock` of thread/Mutex.h, with threads that lock and unlock it. `lock` and `unlock` are two moves
-- each: the call of pthread, which waits while another thread has the mutex, and the access to
-- `holder_`. A thread is its `CurrentThread::tid()`, a positive number.
pub mod Exact
mod Examples
use learn_for_cpp.Base.{
  ℕ, Bool, true, false, Option, none, some, List, [], ◌∷◌, ltb, put, ◌==◌, if◌then◌else◌, ◌>>=◌,
  ◌>>◌, assert,
}

-- Where a thread is: it has not called `lock`, it has the mutex but has not set `holder_`, `lock` has
-- returned, and `unlock` has cleared `holder_`.
pub data Place : Type 0 where
  outside taking inside leaving : Place

abbrev pub is_outside : Place → Bool
is_outside outside = true
is_outside _ = false

abbrev pub is_taking : Place → Bool
is_taking taking = true
is_taking _ = false

abbrev pub is_inside : Place → Bool
is_inside inside = true
is_inside _ = false

abbrev pub is_leaving : Place → Bool
is_leaving leaving = true
is_leaving _ = false

pub record MutexLock : Type 0 where
  -- The thread that has the mutex of pthread.
  pub owner : Option ℕ
  pub holder : ℕ
  pub places : ℕ → Place

unfoldable pub new_mutex : MutexLock
new_mutex = record { owner = none; holder = 0; places = λ t. outside }

unfoldable pub is_locked_by_this_thread : MutexLock → ℕ → Bool
is_locked_by_this_thread m t = m.holder == t

unfoldable pub assert_locked : MutexLock → ℕ → Option MutexLock
assert_locked m t = do assert (is_locked_by_this_thread m t); some m

-- The destructor.
unfoldable pub destroy : MutexLock → Option MutexLock
destroy m = do assert (m.holder == 0); some m

abbrev pub is_free : Option ℕ → Bool
is_free none = true
is_free (some t) = false

-- `lock`, by one access each.
pub take_mutex : MutexLock → ℕ → Option MutexLock
take_mutex m t = do
  assert (is_free m.owner)
  some (record m { owner = some t; places = put m.places t taking })

pub set_holder : MutexLock → ℕ → MutexLock
set_holder m t = record m { holder = t; places = put m.places t inside }

-- `unlock`.
pub clear_holder : MutexLock → ℕ → MutexLock
clear_holder m t = record m { holder = 0; places = put m.places t leaving }

pub release_mutex : MutexLock → ℕ → MutexLock
release_mutex m t = record m { owner = none; places = put m.places t outside }

-- The next access of a thread; one that is outside calls `lock`, one that is inside `unlock`.
unfoldable pub move : MutexLock → ℕ → Option MutexLock
move m t = do
  assert (ltb 0 t)
  elim (m.places t) [
    | outside ↦ take_mutex m t
    | taking ↦ some (set_holder m t)
    | inside ↦ some (clear_holder m t)
    | leaving ↦ some (release_mutex m t)
  ]

-- The accesses of several threads, in any order.
pub moves : MutexLock → List ℕ → Option MutexLock
moves m [] = some m
moves m (t ∷ ts) = do m' ← move m t; moves m' ts
