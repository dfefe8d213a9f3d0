-- ===== src/TimerQueue/Expiry.antt =====
-- Which timers are due, and the time for which the timer descriptor is set.
use learn_for_cpp.Base.{
  ℕ, ◌+◌, ◌*◌, ◌/◌, ◌%◌, ◌<◌, ◌≡◌, refl, ap, ◌∙◌, true, false, some, List, [], ◌∷◌, ◌++◌, All,
  arith, Bool-cases, inl, inr, if◌then◌else◌,
}
use learn_for_cpp.Base.Int.{ℤ, pos, negsuc, pos_part, ltb_ℤ, ◌≤ℤ◌, ◌<ℤ◌, ◌-ℤ◌}
use learn_for_cpp.TimerQueue.{
  Timestamp, Entry, TimerQueue, entry_ltb, uintptr_max, before_sentry, split_due, starts_after,
  get_expiration, how_mach_time_from_now, micro_second_per_second,
}
use learn_for_cpp.TimerQueue.Order.{IsSorted}

abbrev pub IsDue : Timestamp → Entry → Type 0
IsDue now e = e.when ≤ℤ now

abbrev pub IsLater : Timestamp → Entry → Type 0
IsLater now e = now <ℤ e.when

-- No object lies at the largest address.
abbrev pub IsAddress : Entry → Type 0
IsAddress e = e.timer.address < uintptr_max

before_sentry-IsLater :
    (now : Timestamp) (x : Entry) → IsAddress x → before_sentry now x ≡ false → IsLater now x
before_sentry-IsLater now x a h = ground arith

IsLater-mono :
    (now : Timestamp) (x : Entry) (xs : List Entry)
    → IsLater now x
    → All (λ y. entry_ltb x y ≡ true) xs
    → All (IsLater now) xs
IsLater-mono now x [] h s = tt
IsLater-mono now x (y ∷ xs) h s = (ground (arith, s.0), IsLater-mono now x xs h s.1)

pub split_due_lem :
    (now : Timestamp) (xs : List Entry)
    → IsSorted xs
    → All IsAddress xs
    → let (due, later) = split_due now xs in
      (due ++ later ≡ xs)
      × All (IsDue now) due
      × All (IsLater now) later
      × (starts_after now later ≡ true)
      × IsSorted later
unfolding split_due
split_due_lem now [] s a = (refl, tt, tt, refl, tt)
split_due_lem now (x ∷ xs) s a = elim (Bool-cases (before_sentry now x)) [
  | inl due ↦
      let (whole, d, l, st, sl) = split_due_lem now xs s.1 a.1 in
      let first : IsDue now x = ground arith in
      rw due (ap (λ r. x ∷ r) whole, (first, d), l, st, sl)
  | inr later ↦
      let first : IsLater now x = before_sentry-IsLater now x a.0 later in
      rw later (refl, tt, (first, IsLater-mono now x xs first s.0), ground arith, s)
]

-- `getexpiration` passes its assertion and splits a sorted set into the entries that are due at `now`
-- and those that are later, both in order.
pub get_expiration_lem :
    (q : TimerQueue) (now : Timestamp)
    → IsSorted q.timers
    → All IsAddress q.timers
    → (due : List Entry) × (later : List Entry) × (get_expiration q now
        ≡ some (due, record q { timers = later }))
      × (due ++ later ≡ q.timers)
      × All (IsDue now) due
      × All (IsLater now) later
      × IsSorted later
unfolding get_expiration
get_expiration_lem q now s a =
    let (whole, d, l, st, sl) = split_due_lem now q.timers s a in
    ((split_due now q.timers).0, (split_due now q.timers).1, rw st, whole, d, l, sl)

whole_micros : (m : ℕ) → m / 1000000 * 1000000 + (m % 1000000) * 1000 / 1000 ≡ m
whole_micros m = omega arith

at_least_100 :
    (d : ℤ)
    → pos (if ltb_ℤ d (pos 100) then 100 else pos_part d)
      ≡ (if ltb_ℤ d (pos 100) then pos 100 else d)
at_least_100 (pos n) = ground arith
at_least_100 (negsuc n) = ground arith

-- The descriptor is set to the time left, or to 100 microseconds where less is left or the time has
-- passed, and its nanoseconds are in range.
pub how_mach_time_from_now_lem :
    (when now : Timestamp)
    → let ts = how_mach_time_from_now when now in
      let total = pos (ts.seconds * micro_second_per_second + ts.nanoseconds / 1000) in
      (ts.nanoseconds < 1000 * micro_second_per_second)
      × (total ≡ (if ltb_ℤ (when -ℤ now) (pos 100) then pos 100 else when -ℤ now))
unfolding how_mach_time_from_now
how_mach_time_from_now_lem when now = (
  omega arith,
  ap pos (whole_micros (if ltb_ℤ (when -ℤ now) (pos 100) then 100 else pos_part (when -ℤ now)))
      ∙ at_least_100 (when -ℤ now),
)
