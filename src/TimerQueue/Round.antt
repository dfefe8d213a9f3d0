-- ===== src/TimerQueue/Round.antt =====
-- A whole `handleRead`: expired timers leave, their callbacks add timers, and those that repeat return.
use mathlib.Core.List.{Perm, Nodup, perm_append_comm, map-append}
use mathlib.Core.List.Perm
use learn_for_cpp.Base.{
  ℕ, ◌≡◌, refl, sym, ap, ◌∙◌, true, some, List, [], ◌∷◌, ◌++◌, map, All, arith, Bool-cases, inl,
  inr, append_assoc, append-nil, subst,
}
use learn_for_cpp.TimerQueue.{
  Timestamp, Timer, Entry, TimerQueue, entry_of, run_each, reset, valid, next_expire, handle_read,
  get_expiration, reset_timerfd, split_due,
}
use learn_for_cpp.TimerQueue.Order.{IsSorted, addresses}
use learn_for_cpp.TimerQueue.Expiry.{IsDue, IsLater, IsAddress, split_due_lem}
use learn_for_cpp.TimerQueue.Handler.{
  Gained, gain_none, timer_addresses, add_each-Gained, kept, dropped, reset_each-Gained,
}

abbrev pub callbacks : List Entry → List ℕ
callbacks = map λ e. e.timer.callback

-- The timers that the callbacks of the entries add.
abbrev pub added : (ℕ → List Timer) → List Entry → List Timer
added adds [] = []
added adds (e ∷ es) = adds e.timer.callback ++ added adds es

Gained-trans :
    {q q1 q2 : TimerQueue} {es fs : List Entry} {bs ds : List ℕ}
    → Gained q q1 es bs
    → Gained q1 q2 fs ds
    → Gained q q2 (fs ++ es) (bs ++ ds)
Gained-trans {q} {q1} {q2} {es} {fs} {bs} {ds} g h = record {
  sorted = h.sorted;
  entries = rw (append_assoc fs es q.timers) (Perm.trans h.entries (Perm.append_left fs g.entries));
  deletes = h.deletes ∙ ap (λ x. x ++ ds) g.deletes ∙ append_assoc q.deleted bs ds;
}

Gained-perm :
    {q q1 : TimerQueue} {es fs : List Entry} {ds : List ℕ}
    → Perm es fs
    → Gained q q1 es ds
    → Gained q q1 fs ds
Gained-perm {q} p g = record {
  sorted = g.sorted;
  entries = Perm.trans g.entries (Perm.append_right q.timers p);
  deletes = g.deletes;
}

run_each-Gained :
    (adds : ℕ → List Timer) (es : List Entry) (q : TimerQueue) (rest : List ℕ)
    → IsSorted q.timers
    → Nodup ((timer_addresses (added adds es) ++ rest) ++ addresses q.timers)
    → (q' : TimerQueue) × (run_each adds es q ≡ some (callbacks es, q'))
      × Gained q q' (map entry_of (added adds es)) []
      × Nodup (rest ++ addresses q'.timers)
unfolding run_each
run_each-Gained adds [] q rest s n = (q, refl, gain_none q s, n)
run_each-Gained adds (e ∷ es) q rest s n =
    let ts = adds e.timer.callback in
    let more = added adds es in
    let names : timer_addresses (ts ++ more) ++ rest
        ≡ timer_addresses ts ++ (timer_addresses more ++ rest) =
      ap (λ x. x ++ rest) (map-append _ ts more)
      ∙ append_assoc (timer_addresses ts) (timer_addresses more) rest in
    let (q1, r1, g1, n1) =
      add_each-Gained ts q (timer_addresses more ++ rest) s
        (subst (λ x. Nodup (x ++ addresses q.timers)) names n) in
    let (q2, r2, g2, n2) = run_each-Gained adds es q1 rest g1.sorted n1 in
    (
      q2,
      ground (arith, r1, r2),
      Gained-perm
          (rw (map-append entry_of ts more)
            (perm_append_comm (map entry_of more) (map entry_of ts)))
          (Gained-trans g1 g2),
      n2,
    )

reset-Gained :
    (es : List Entry) (now : Timestamp) (q : TimerQueue)
    → IsSorted q.timers
    → Nodup (addresses es ++ addresses q.timers)
    → (q' : TimerQueue) × (reset q es now ≡ some q')
      × Gained q q' (kept now es) (dropped es)
      × (valid (next_expire q'.timers) ≡ true → q'.armed ≡ some (next_expire q'.timers))
unfolding reset
reset-Gained es now q s n =
    let (q', r, g) = reset_each-Gained es now q s n in
    elim (Bool-cases (valid (next_expire q'.timers))) [
      | inl set ↦ (
        reset_timerfd q' (next_expire q'.timers),
        ground (arith, r, set),
        record { sorted = g.sorted; entries = g.entries; deletes = g.deletes },
        λ _. refl,
      )
      | inr unset ↦ (q', ground (arith, r, unset), g, λ h. ground (arith, h, unset))
    ]

-- The addresses of the timers that the callbacks add and of those in the set are all distinct.
abbrev pub AreDistinct : (ℕ → List Timer) → TimerQueue → Timestamp → Type 0
AreDistinct adds q now =
    Nodup (timer_addresses (added adds (split_due now q.timers).0) ++ addresses q.timers)

-- When the timer descriptor fires and all timers in sight have distinct addresses, `handleRead` passes
-- its assertions: it runs the callbacks of the due timers in order, leaves exactly the later timers, the
-- ones that the callbacks added and the due ones that repeat, in order of time, deletes the other due
-- timers, and sets the descriptor to the first time left if that is valid.
pub timers-handle_read :
    (adds : ℕ → List Timer) (q : TimerQueue) (now : Timestamp)
    → IsSorted q.timers
    → All IsAddress q.timers
    → AreDistinct adds q now
    → let (due, later) = split_due now q.timers in
      (due ++ later ≡ q.timers)
      × All (IsDue now) due
      × All (IsLater now) later
      × (q' : TimerQueue) × (handle_read adds q now ≡ some (callbacks due, q'))
      × IsSorted q'.timers
      × Perm q'.timers (kept now due ++ (map entry_of (added adds due) ++ later))
      × (q'.deleted ≡ q.deleted ++ dropped due)
      × (valid (next_expire q'.timers) ≡ true → q'.armed ≡ some (next_expire q'.timers))
unfolding handle_read get_expiration
timers-handle_read adds q now s a n =
    let due = (split_due now q.timers).0 in
    let later = (split_due now q.timers).1 in
    let (whole, d, l, st, sl) = split_due_lem now q.timers s a in
    let news = timer_addresses (added adds due) in
    let q1 : TimerQueue = record q { timers = later } in
    let all : news ++ addresses q.timers ≡ (news ++ addresses due) ++ addresses later =
      ap (λ x. news ++ addresses x) (sym whole)
      ∙ ap (λ x. news ++ x) (map-append _ due later)
      ∙ sym (append_assoc news (addresses due) (addresses later)) in
    let (q2, r2, g2, n2) = run_each-Gained adds due q1 (addresses due) sl (subst Nodup all n) in
    let (q3, r3, g3, set) = reset-Gained due now q2 g2.sorted n2 in
    (
      whole,
      d,
      l,
      q3,
      ground (arith, st, r2, r3),
      g3.sorted,
      Perm.trans g3.entries (Perm.append_left (kept now due) g2.entries),
      g3.deletes ∙ ap (λ x. x ++ dropped due) (g2.deletes ∙ append-nil q.deleted),
      set,
    )
