-- ===== src/EventLoop/Timers.antt =====
-- `runAt`, `runAfter` and `runEvery` of the loop, called in its thread, where `addTimer` puts the timer
-- into the queue at once, or in another one, where it hands it to the loop's queue. The address of the new timer and the time now are arguments.
use mathlib.Core.List.{Mem}
use learn_for_cpp.Base.{
  ℕ, ◌≡◌, ◌⊎◌, inl, inr, refl, ap, ◌∙◌, subst, Bool, ◌||◌, ◌+◌, ◌>>=◌, true, false, Option, some,
  List, [], ◌∷◌, ◌++◌, All, arith, Bool-cases, ◌<◌, if◌then◌else◌,
}
use learn_for_cpp.Base.Int.{pos, ◌≤ℤ◌, ◌<ℤ◌}
use learn_for_cpp.TimerQueue.{
  Timestamp, Interval, Timer, Entry, TimerQueue, add_time, add_timer_in_loop, insert, entry_of,
  is_earliest, get_expiration, uintptr_max,
}
use learn_for_cpp.TimerQueue.Order.{IsSorted, addresses, set_insert_lem, All-Inserted}
use learn_for_cpp.TimerQueue.Expiry.{IsDue, IsLater, IsAddress, get_expiration_lem}

-- `new Timer`.
abbrev pub new_timer : ℕ → ℕ → Timestamp → Interval → Timer
new_timer address callback when interval = record {
  address = address;
  callback = callback;
  expiration = when;
  interval = interval;
}

-- The interval 0.0.
abbrev pub once : Interval
once = record { positive = false; micros = pos 0 }

-- The timers of a loop. `pending` is the loop's queue, as far as it holds calls of `addTimerInLoop`.
pub record Timers : Type 0 where
  pub queue : TimerQueue
  pub pending : List Timer
  pub calling_pending : Bool
  pub wakeups : ℕ

-- `queueInLoop` of `addTimerInLoop`.
abbrev pub queue_timer : Bool → Timers → Timer → Timers
queue_timer in_loop s t =
    let s' : Timers = record s { pending = s.pending ++ (t ∷ []) } in
    if in_loop || s.calling_pending then record s' { wakeups = s'.wakeups + 1 } else s'

-- `addTimer`, with its `runInLoop`.
unfoldable pub add_timer : Bool → Timers → Timer → Option Timers
add_timer in_loop s t =
    if in_loop
    then (do q ← add_timer_in_loop s.queue t; some (record s { queue = q }))
    else some (queue_timer false s t)

abbrev pub add_each : List Timer → TimerQueue → Option TimerQueue
add_each [] q = some q
add_each (t ∷ ts) q = do q' ← add_timer_in_loop q t; add_each ts q'

-- `doPendingFunctions`, in the thread of the loop.
unfoldable pub add_pending : Timers → Option Timers
add_pending s = do
  q ← add_each s.pending s.queue
  some (record s { queue = q; pending = []; calling_pending = false })

pub run_at : Bool → Timers → ℕ → ℕ → Timestamp → Option Timers
run_at in_loop s address callback time = add_timer in_loop s (new_timer address callback time once)

pub run_after : Bool → Timers → ℕ → ℕ → Timestamp → Interval → Option Timers
run_after in_loop s address callback now delay =
    run_at in_loop s address callback (add_time now delay)

pub run_every : Bool → Timers → ℕ → ℕ → Timestamp → Interval → Option Timers
run_every in_loop s address callback now interval =
    add_timer in_loop s (new_timer address callback (add_time now interval) interval)

-- An entry of a list, with those before and behind it.
pub record IsIn (e : Entry) (xs : List Entry) : Type 0 where
  pub front : List Entry
  pub back : List Entry
  pub whole : xs ≡ front ++ (e ∷ back)

IsIn-append :
    (e : Entry) (xs ys front back : List Entry)
    → xs ++ ys ≡ front ++ (e ∷ back)
    → IsIn e xs ⊎ IsIn e ys
IsIn-append e [] ys front back h = inr (record { front = front; back = back; whole = h })
IsIn-append e (x ∷ xs) ys [] back h =
    let first : x ≡ e = cc in inl (record { front = []; back = xs; whole = ap (λ y. y ∷ xs) first })
IsIn-append e (x ∷ xs) ys (f ∷ front) back h = elim (IsIn-append e xs ys front back (cc)) [
  | inl i ↦ inl (record { front = x ∷ i.front; back = i.back; whole = ap (λ l. x ∷ l) i.whole })
  | inr i ↦ inr i
]

All-middle {κ} :
    (P : Entry → Type κ) (e : Entry) (front back : List Entry) → All P (front ++ (e ∷ back)) → P e
All-middle P e [] back a = a.0
All-middle P e (x ∷ front) back a = All-middle P e front back a.1

All-IsIn {κ} : (P : Entry → Type κ) (e : Entry) (xs : List Entry) → IsIn e xs → All P xs → P e
All-IsIn P e xs i a = All-middle P e i.front i.back (subst (All P) i.whole a)

-- Adding a timer, and looking at some time for those that are due.
add_timer-get_expiration :
    (q : TimerQueue) (t : Timer) (now : Timestamp)
    → IsSorted q.timers
    → All IsAddress q.timers
    → ¬ Mem t.address (addresses q.timers)
    → t.address < uintptr_max
    → (q1 : TimerQueue) × (add_timer_in_loop q t ≡ some q1)
      × (((is_earliest t.expiration q.timers ≡ true) × (q1.armed ≡ some t.expiration))
          ⊎ ((is_earliest t.expiration q.timers ≡ false) × (q1.armed ≡ q.armed)))
      × (due : List Entry) × (later : List Entry) × (get_expiration q1 now
          ≡ some (due, record q1 { timers = later }))
      × (((t.expiration ≤ℤ now) × IsIn (entry_of t) due)
          ⊎ ((now <ℤ t.expiration) × IsIn (entry_of t) later))
unfolding add_timer_in_loop insert
add_timer-get_expiration q t now s a fresh low =
    let e = entry_of t in
    let (ys, r, sorted, i) = set_insert_lem e q.timers s fresh in
    let q1 : TimerQueue = record q {
      timers = ys;
      armed = if is_earliest t.expiration q.timers then some t.expiration else q.armed;
    } in
    let (due, later, r', whole, d, l, _) =
      get_expiration_lem q1 now sorted (All-Inserted IsAddress i low a) in
    (
      q1,
      ground (arith, r),
      elim (Bool-cases (is_earliest t.expiration q.timers)) [
        | inl first ↦ inl (first, rw first refl)
        | inr behind ↦ inr (behind, rw behind refl)
      ],
      due,
      later,
      r',
      elim (IsIn-append e due later i.front i.back (whole ∙ i.after)) [
        | inl here ↦ inl (All-IsIn (IsDue now) e due here d, here)
        | inr there ↦ inr (All-IsIn (IsLater now) e later there l, there)
      ],
    )

-- A function handed to `runAfter`, where the timers are in order, the new one is not among them, and
-- the loop neither has anything queued nor runs its queue. In the thread of the loop its timer is put
-- into the set of timers at once. From another thread it is only queued, and the loop is not woken; it
-- is put into the set when the loop runs its queue next. The descriptor is set for it if it is then the
-- first, and whenever the set is looked at after that, the timer is due exactly if the delay is over,
-- and waits else.
pub run_after-get_expiration :
    (in_loop : Bool) (s : Timers) (address callback : ℕ) (start now : Timestamp) (delay : Interval)
    → s.pending ≡ []
    → s.calling_pending ≡ false
    → IsSorted s.queue.timers
    → All IsAddress s.queue.timers
    → ¬ Mem address (addresses s.queue.timers)
    → address < uintptr_max
    → let when = add_time start delay in
      let t = new_timer address callback when once in
      (q1 : TimerQueue) × (s1 : Timers) × (run_after in_loop s address callback start delay
        ≡ some s1)
      × (s1 ≡ (if in_loop then record s { queue = q1 } else record s { pending = t ∷ [] }))
      × (add_pending s1 ≡ some (record s { queue = q1 }))
      × (((is_earliest when s.queue.timers ≡ true) × (q1.armed ≡ some when))
          ⊎ ((is_earliest when s.queue.timers ≡ false) × (q1.armed ≡ s.queue.armed)))
      × (due : List Entry) × (later : List Entry) × (get_expiration q1 now
          ≡ some (due, record q1 { timers = later }))
      × (((when ≤ℤ now) × IsIn (entry_of t) due) ⊎ ((now <ℤ when) × IsIn (entry_of t) later))
unfolding run_after run_at add_timer add_pending
run_after-get_expiration in_loop s address callback start now delay idle calm sorted a fresh low =
    let t = new_timer address callback (add_time start delay) once in
    let (q1, r, first, due, later, looked, found) =
      add_timer-get_expiration s.queue t now sorted a fresh low in
    elim (Bool-cases in_loop) [
      | inl here ↦ (
        q1,
        record s { queue = q1 },
        ground (arith, here, r),
        ground (arith, here),
        ground (arith, idle, calm),
        first,
        due,
        later,
        looked,
        found,
      )
      | inr away ↦ (
        q1,
        record s { pending = t ∷ [] },
        ground (arith, away, idle, calm),
        ground (arith, away),
        ground (arith, r, idle, calm),
        first,
        due,
        later,
        looked,
        found,
      )
    ]
