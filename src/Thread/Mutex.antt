-- ===== src/Thread/Mutex.antt =====
-- `hierarchical_mutex` of thread/hieraarchical_mutex.cc. The mutexes of a program are numbered; the
-- model follows one thread, for which `this_thread_hierarchy_value` is one word. A call that throws is
-- `throws`; one on which `std::mutex` blocks, or that has no defined behaviour, does not return here:
-- `lock` of a mutex that the thread itself has. Other threads enter as `free`: whether
-- `try_lock` gets the internal mutex.
pub mod Hierarchy
pub mod Deadlock
mod Examples
use learn_for_cpp.Base.{
  ℕ, ◌+◌, ◌-◌, ◌^◌, Bool, true, false, not, Option, none, some, List, [], ◌∷◌, leb, put, ◌==◌,
  if◌then◌else◌, ◌>>=◌, ◌>>◌,
}

-- What `lock` sets: the mutex keeps the thread's value before it.
pub record Mutex : Type 0 where
  pub hierarchy_value : ℕ
  pub previous_hierarchy_value : ℕ

-- One thread: its value, and the mutexes by number.
pub record Thread : Type 0 where
  pub this_thread_hierarchy_value : ℕ
  pub mutexes : ℕ → Mutex

-- `ULONG_MAX`.
abbrev pub ulong_max : ℕ
ulong_max = 2 ^ 64 - 1

pub new_mutex : ℕ → Mutex
new_mutex value = record { hierarchy_value = value; previous_hierarchy_value = 0 }

pub new_thread : (ℕ → ℕ) → Thread
new_thread values = record {
  this_thread_hierarchy_value = ulong_max;
  mutexes = λ m. new_mutex (values m);
}

-- `none` is the exception `std::logic_error`.
pub check_for_hierarchy_violation : Thread → ℕ → Option (Unit {0})
check_for_hierarchy_violation t m =
    if leb t.this_thread_hierarchy_value (t.mutexes m).hierarchy_value then none else some tt

pub update_hierarchy_value : Thread → ℕ → Thread
update_hierarchy_value t m = record {
  this_thread_hierarchy_value = (t.mutexes m).hierarchy_value;
  mutexes =
      put t.mutexes m
        (record (t.mutexes m) { previous_hierarchy_value = t.this_thread_hierarchy_value });
}

-- `lock` of the internal mutex comes between the two.
pub lock : Thread → ℕ → Option Thread
lock t m = do check_for_hierarchy_violation t m; some (update_hierarchy_value t m)

pub unlock : Thread → ℕ → Option Thread
unlock t m =
    if t.this_thread_hierarchy_value == (t.mutexes m).hierarchy_value
    then some (record t { this_thread_hierarchy_value = (t.mutexes m).previous_hierarchy_value })
    else none

pub try_lock : Thread → ℕ → Bool → Option (Bool × Thread)
try_lock t m free = do
  check_for_hierarchy_violation t m
  some (if free then (true, update_hierarchy_value t m) else (false, t))
