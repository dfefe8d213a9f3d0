-- ===== src/TimerQueue/Examples.antt =====
-- The timer queue's theorems at a queue with three timers, and a run.
use mathlib.Core.List.{Mem, Perm, Nodup, Nodup-cons, Nodup-nil, not-mem-nil, mem_of_ne_of_mem}
use learn_for_cpp.Base.{
  ℕ, not, ◌==◌, ◌&&◌, zero, suc, ◌≢◌, ◌≡◌, refl, Bool, true, false, some, List, [], ◌∷◌, ◌++◌, map,
  All, arith,
}
use learn_for_cpp.Base.Int.{pos, ◌+ℤ◌}
use learn_for_cpp.TimerQueue.{
  Timer, Interval, TimerQueue, entry_of, add_each, add_timer_in_loop, run_each, reset_each, reset,
  restart, valid, next_expire, handle_read, get_expiration, split_due, insert, set_insert, add_time,
}
use learn_for_cpp.TimerQueue.Order.{IsSorted}
use learn_for_cpp.TimerQueue.Expiry.{IsDue, IsLater, IsAddress}
use learn_for_cpp.TimerQueue.Handler.{kept, dropped}
use learn_for_cpp.TimerQueue.Round.{callbacks, added, AreDistinct, timers-handle_read}

abbrev once : Interval
once = record { positive = false; micros = pos 0 }

abbrev every_50 : Interval
every_50 = record { positive = true; micros = pos 50 }

abbrev timer : ℕ → ℕ → ℕ → Interval → Timer
timer address callback when interval = record {
  address = address;
  callback = callback;
  expiration = pos when;
  interval = interval;
}

abbrev three : TimerQueue
three = record {
  timers =
      entry_of (timer 30 1 100 once)
      ∷ entry_of (timer 10 2 120 every_50)
      ∷ entry_of (timer 20 3 200 once)
      ∷ [];
  armed = some (pos 100);
  deleted = [];
}

-- Callback 1 adds a timer.
abbrev adds : ℕ → List Timer
adds zero = []
adds (suc zero) = timer 40 4 150 once ∷ []
adds (suc (suc n)) = []

abbrev is_fresh : ℕ → List ℕ → Bool
is_fresh x [] = true
is_fresh x (y ∷ ys) = not (x == y) && is_fresh x ys

abbrev are_fresh : List ℕ → Bool
are_fresh [] = true
are_fresh (x ∷ xs) = is_fresh x xs && are_fresh xs

is_fresh_lem : (x : ℕ) (ys : List ℕ) → is_fresh x ys ≡ true → ¬ Mem x ys
is_fresh_lem x [] h m = not-mem-nil m
is_fresh_lem x (y ∷ ys) h m =
    let ne : x ≢ y = ground (arith, h) in
    is_fresh_lem x ys (ground (arith, h)) (mem_of_ne_of_mem ne m)

are_fresh_lem : (xs : List ℕ) → are_fresh xs ≡ true → Nodup xs
are_fresh_lem [] h = Nodup-nil
are_fresh_lem (x ∷ xs) h =
    Nodup-cons.1 (is_fresh_lem x xs (ground (arith, h)), are_fresh_lem xs (ground (arith, h)))

three-IsSorted : IsSorted three.timers
three-IsSorted = ((refl, (refl, tt)), ((refl, tt), (tt, tt)))

three-IsAddress : All IsAddress three.timers
three-IsAddress = (omega arith, (omega arith, (omega arith, tt)))

three-AreDistinct : AreDistinct adds three (pos 120)
unfolding split_due
three-AreDistinct = are_fresh_lem _ refl

runs_two :
    handle_read adds three (pos 120)
    ≡ some (
      1 ∷ 2 ∷ [],
      record {
        timers =
            entry_of (timer 40 4 150 once)
            ∷ entry_of (timer 10 2 170 every_50)
            ∷ entry_of (timer 20 3 200 once)
            ∷ [];
        armed = some (pos 150);
        deleted = 30 ∷ [];
      },
    )
unfolding handle_read get_expiration split_due run_each add_each add_timer_in_loop insert set_insert
    reset reset_each restart add_time ◌+ℤ◌
runs_two = refl

timers-handle_read_example :
    let (due, later) = split_due (pos 120) three.timers in
    (due ++ later ≡ three.timers)
    × All (IsDue (pos 120)) due
    × All (IsLater (pos 120)) later
    × (q' : TimerQueue) × (handle_read adds three (pos 120) ≡ some (callbacks due, q'))
    × IsSorted q'.timers
    × Perm q'.timers (kept (pos 120) due ++ (map entry_of (added adds due) ++ later))
    × (q'.deleted ≡ three.deleted ++ dropped due)
    × (valid (next_expire q'.timers) ≡ true → q'.armed ≡ some (next_expire q'.timers))
timers-handle_read_example =
    timers-handle_read adds three (pos 120) three-IsSorted three-IsAddress three-AreDistinct
