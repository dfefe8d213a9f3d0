-- ===== src/Thread/Mutex/Examples.antt =====
-- Two threads with three mutexes, and what the check refuses.
use mathlib.Core.List.{Mem, mem-cons_self}
use learn_for_cpp.Base.{put, ℕ, ◌*◌, ◌≡◌, refl, true, none, some, [], ◌∷◌}
use learn_for_cpp.Thread.Mutex.{
  Thread, new_thread, new_mutex, lock, unlock, try_lock, check_for_hierarchy_violation,
  update_hierarchy_value,
}
use learn_for_cpp.Thread.Mutex.Deadlock.{begins, locks, Waiter, lock-not-circular}

-- Mutex `m` has the value ten times `m`.
abbrev values : ℕ → ℕ
values m = m * 10

-- A thread that locked mutex `m` first.
abbrev locked : ℕ → Thread
locked m = record {
  this_thread_hierarchy_value = values m;
  mutexes =
      put (λ n. record { hierarchy_value = values n; previous_hierarchy_value = 0 }) m
        (record { hierarchy_value = values m; previous_hierarchy_value = 18446744073709551615 });
}

lock_three : lock (new_thread values) 3 ≡ some (locked 3)
unfolding lock check_for_hierarchy_violation update_hierarchy_value new_thread new_mutex
lock_three = refl

lock_one : lock (new_thread values) 1 ≡ some (locked 1)
unfolding lock check_for_hierarchy_violation update_hierarchy_value new_thread new_mutex
lock_one = refl

upwards_throws : try_lock (locked 1) 3 true ≡ none
unfolding try_lock check_for_hierarchy_violation
upwards_throws = refl

unlocks_top : unlock (locked 1) 3 ≡ none
unfolding unlock
unlocks_top = refl

passed_one : check_for_hierarchy_violation (locked 3) 1 ≡ some tt
unfolding check_for_hierarchy_violation
passed_one = refl

passed_zero : check_for_hierarchy_violation (locked 1) 0 ≡ some tt
unfolding check_for_hierarchy_violation
passed_zero = refl

abbrev first : Waiter values
first = record {
  thread = locked 3;
  held = 3 ∷ [];
  wanted = 1;
  runs = locks 3 begins lock_three;
  passed = passed_one;
}

abbrev second : Waiter values
second = record {
  thread = locked 1;
  held = 1 ∷ [];
  wanted = 0;
  runs = locks 1 begins lock_one;
  passed = passed_zero;
}

lock-not-circular_example : ¬ Mem 0 first.held
lock-not-circular_example = lock-not-circular values first (second ∷ []) 0 (mem-cons_self, refl)
