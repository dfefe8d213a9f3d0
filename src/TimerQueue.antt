-- ===== src/TimerQueue.antt =====
-- reactor/Timer.h, Timer.cc, TimerQueue.h and TimerQueue.cc, with the operations of timestamp/ that
-- they use. A `Timestamp` is its signed count of microseconds (no int64_t overflow). A `Timer *` is an
-- address with the object; each object has one owner, the set or the vector of expired timers.
-- A `double` interval is what the code reads of it: whether it is positive, and its microseconds.
pub mod Order
pub mod Expiry
pub mod Handler
pub mod Round
pub mod Clock
mod Examples
use learn_for_cpp.Base.{
  ℕ, ◌+◌, ◌-◌, ◌*◌, ◌/◌, ◌%◌, ◌^◌, Bool, true, false, not, ◌&&◌, ◌||◌, Option, none, some, List, [],
  ◌∷◌, ◌++◌, ltb, if◌then◌else◌, ◌>>=◌, ◌>>◌, assert,
}
use learn_for_cpp.Base.Int.{ℤ, pos, negsuc, ltb_ℤ, ◌+ℤ◌, ◌-ℤ◌, pos_part}

abbrev pub Timestamp : Type 0
Timestamp = ℤ

abbrev pub valid : Timestamp → Bool
valid t = ltb_ℤ (pos 0) t

abbrev pub invalid : Timestamp
invalid = pos 0

abbrev pub micro_second_per_second : ℕ
micro_second_per_second = 1000 * 1000

pub record Interval : Type 0 where
  pub positive : Bool
  pub micros : ℤ

pub add_time : Timestamp → Interval → Timestamp
add_time t i = t +ℤ i.micros

pub record Timer : Type 0 where
  pub address : ℕ
  pub callback : ℕ
  pub expiration : Timestamp
  pub interval : Interval

-- `repeat_`, which the constructor sets.
abbrev pub repeats : Timer → Bool
repeats t = t.interval.positive

unfoldable pub restart : Timer → Timestamp → Timer
restart t now = record t { expiration = if repeats t then add_time now t.interval else invalid }

-- `std::pair<Timestamp, Timer *>`.
pub record Entry : Type 0 where
  pub when : Timestamp
  pub timer : Timer

-- The order of the set: by time, then by address.
abbrev pub entry_ltb : Entry → Entry → Bool
entry_ltb x y =
    ltb_ℤ x.when y.when || (not (ltb_ℤ y.when x.when) && ltb x.timer.address y.timer.address)

pub record TimerQueue : Type 0 where
  -- `timerlist_`, from its begin.
  pub timers : List Entry
  -- The time for which `timerfd_` is set.
  pub armed : Option Timestamp
  -- The addresses of the deleted timers.
  pub deleted : List ℕ

-- `std::set::insert`; `none` where the entry is there already.
pub set_insert : Entry → List Entry → Option (List Entry)
set_insert e [] = some (e ∷ [])
set_insert e (x ∷ xs) =
    let rest = set_insert e xs in
    if entry_ltb e x
    then some (e ∷ x ∷ xs)
    else if entry_ltb x e
    then (do ys ← rest; some (x ∷ ys))
    else none

abbrev pub is_earliest : Timestamp → List Entry → Bool
is_earliest when [] = true
is_earliest when (x ∷ xs) = ltb_ℤ when x.when

abbrev pub entry_of : Timer → Entry
entry_of t = record { when = t.expiration; timer = t }

-- `TimerQueue::insert`, with the assertion on `ret.second`.
unfoldable pub insert : TimerQueue → Timer → Option (Bool × TimerQueue)
insert q t = do
  timers ← set_insert (entry_of t) q.timers
  some (is_earliest t.expiration q.timers, record q { timers = timers })

abbrev pub reset_timerfd : TimerQueue → Timestamp → TimerQueue
reset_timerfd q t = record q { armed = some t }

unfoldable pub add_timer_in_loop : TimerQueue → Timer → Option TimerQueue
add_timer_in_loop q t = do
  (earliest, q') ← insert q t
  some (if earliest then reset_timerfd q' t.expiration else q')

-- `UINTPTR_MAX`.
abbrev pub uintptr_max : ℕ
uintptr_max = 2 ^ 64 - 1

-- `e` stands before the sentry `(now, UINTPTR_MAX)`.
abbrev pub before_sentry : Timestamp → Entry → Bool
before_sentry now e =
    ltb_ℤ e.when now || (not (ltb_ℤ now e.when) && ltb e.timer.address uintptr_max)

-- The entries before `lower_bound(sentry)` and those from it on.
pub split_due : Timestamp → List Entry → List Entry × List Entry
split_due now [] = ([], [])
split_due now (x ∷ xs) =
    let (due, later) = split_due now xs in
    if before_sentry now x then (x ∷ due, later) else ([], x ∷ xs)

abbrev pub starts_after : Timestamp → List Entry → Bool
starts_after now [] = true
starts_after now (x ∷ xs) = ltb_ℤ now x.when

pub get_expiration : TimerQueue → Timestamp → Option (List Entry × TimerQueue)
get_expiration q now = do
  let (due, later) = split_due now q.timers
  assert (starts_after now later)
  some (due, record q { timers = later })

-- The loop of `reset`.
pub reset_each : List Entry → Timestamp → TimerQueue → Option TimerQueue
reset_each [] now q = some q
reset_each (e ∷ es) now q = do
  q' ←
      (if repeats e.timer
        then (do (earliest, q') ← insert q (restart e.timer now); some q')
        else some (record q { deleted = q.deleted ++ (e.timer.address ∷ []) }))
  reset_each es now q'

-- Where `reset` sets `timerfd_` again: the first time left, if there is one and it is valid.
abbrev pub next_expire : List Entry → Timestamp
next_expire [] = pos 0
next_expire (x ∷ xs) = x.when

pub reset : TimerQueue → List Entry → Timestamp → Option TimerQueue
reset q expired now = do
  q' ← reset_each expired now q
  some (if valid (next_expire q'.timers) then reset_timerfd q' (next_expire q'.timers) else q')

-- The timers that a callback adds to the queue, one by one.
pub add_each : List Timer → TimerQueue → Option TimerQueue
add_each [] q = some q
add_each (t ∷ ts) q = do q' ← add_timer_in_loop q t; add_each ts q'

-- Running the expired timers: `adds` says which timers a callback adds. The result has the callbacks.
pub run_each : (ℕ → List Timer) → List Entry → TimerQueue → Option (List ℕ × TimerQueue)
run_each adds [] q = some ([], q)
run_each adds (e ∷ es) q = do
  q' ← add_each (adds e.timer.callback) q
  (ran, q'') ← run_each adds es q'
  some (e.timer.callback ∷ ran, q'')

-- `TimerQueue::handleRead` at the time `now`.
unfoldable pub handle_read :
    (ℕ → List Timer) → TimerQueue → Timestamp → Option (List ℕ × TimerQueue)
handle_read adds q now = do
  (expired, q1) ← get_expiration q now
  (ran, q2) ← run_each adds expired q1
  q3 ← reset q2 expired now
  some (ran, q3)

-- `struct timespec`, from a time and the time now: at least 100 microseconds.
pub record Timespec : Type 0 where
  pub seconds : ℕ
  pub nanoseconds : ℕ

pub how_mach_time_from_now : Timestamp → Timestamp → Timespec
how_mach_time_from_now when now =
    let d = when -ℤ now in
    let micros : ℕ = if ltb_ℤ d (pos 100) then 100 else pos_part d in
    record {
      seconds = micros / micro_second_per_second;
      nanoseconds = (micros % micro_second_per_second) * 1000;
    }
