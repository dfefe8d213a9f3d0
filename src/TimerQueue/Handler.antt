-- ===== src/TimerQueue/Handler.antt =====
-- Adding timers and handling an expiry: the queue stays sorted, every assertion holds, and exactly the
-- timers that repeat come back.
use mathlib.Core.List.{Mem, Perm, Nodup, Nodup-cons, perm_middle, mem-append_right}
use mathlib.Core.List.Perm
use learn_for_cpp.Base.{
  ℕ, ◌≡◌, refl, sym, ap, ◌∙◌, some, List, [], ◌∷◌, ◌++◌, map, arith, Bool-cases, inl, inr,
  if◌then◌else◌, append_assoc, append-nil, subst,
}
use learn_for_cpp.TimerQueue.{
  Timestamp, Timer, Entry, TimerQueue, repeats, restart, entry_of, is_earliest, insert,
  add_timer_in_loop, add_each, reset_each, reset_timerfd,
}
use learn_for_cpp.TimerQueue.Order.{IsSorted, addresses, perm-Inserted, set_insert_lem}

-- From `q` to `q'` the set gained the entries `es`, and the addresses `ds` were deleted.
pub record Gained (q q' : TimerQueue) (es : List Entry) (ds : List ℕ) : Type 0 where
  pub sorted : IsSorted q'.timers
  pub entries : Perm q'.timers (es ++ q.timers)
  pub deletes : q'.deleted ≡ q.deleted ++ ds

insert_lem :
    (q : TimerQueue) (t : Timer)
    → IsSorted q.timers
    → ¬ Mem t.address (addresses q.timers)
    → (q' : TimerQueue) × (insert q t ≡ some (is_earliest t.expiration q.timers, q'))
      × IsSorted q'.timers
      × Perm q'.timers (entry_of t ∷ q.timers)
      × (q'.deleted ≡ q.deleted)
unfolding insert
insert_lem q t s fresh =
    let (ys, e, s', i) = set_insert_lem (entry_of t) q.timers s fresh in
    (record q { timers = ys }, rw e, s', perm-Inserted i, refl)

-- A timer joins addresses that must stay distinct.
join :
    (a : ℕ) (rest : List ℕ) (es : List Entry) (ys : List Entry) (e : Entry)
    → e.timer.address ≡ a
    → Perm ys (e ∷ es)
    → Nodup (a ∷ (rest ++ addresses es))
    → Nodup (rest ++ addresses ys)
join a rest es ys e same p n =
    Perm.nodup
      (Perm.trans (Perm.symm (perm_middle rest (addresses es))) (
        Perm.append_left rest
          (Perm.symm (rw same at (Perm.map (λ (x : Entry). x.timer.address) p)))))
      n

fresh_of : (a : ℕ) (rest xs : List ℕ) → Nodup (a ∷ (rest ++ xs)) → ¬ Mem a xs
fresh_of a rest xs n m = (Nodup-cons.0 n).0 (mem-append_right rest m)

abbrev pub timer_addresses : List Timer → List ℕ
timer_addresses = map λ t. t.address

gain :
    (q q1 q' : TimerQueue) (e : Entry) (es : List Entry) (ds : List ℕ)
    → Perm q1.timers (e ∷ q.timers)
    → q1.deleted ≡ q.deleted
    → Gained q1 q' es ds
    → Gained q q' (e ∷ es) ds
gain q q1 q' e es ds p d g = record {
  sorted = g.sorted;
  entries = Perm.trans g.entries (Perm.trans (Perm.append_left es p) (perm_middle es q.timers));
  deletes = g.deletes ∙ ap (λ x. x ++ ds) d;
}

pub gain_none : (q : TimerQueue) → IsSorted q.timers → Gained q q [] []
gain_none q s = record {
  sorted = s;
  entries = Perm.refl q.timers;
  deletes = sym (append-nil q.deleted);
}

add_timer_in_loop_lem :
    (q : TimerQueue) (t : Timer)
    → IsSorted q.timers
    → ¬ Mem t.address (addresses q.timers)
    → (q' : TimerQueue) × (add_timer_in_loop q t ≡ some q')
      × IsSorted q'.timers
      × Perm q'.timers (entry_of t ∷ q.timers)
      × (q'.deleted ≡ q.deleted)
      × (q'.armed ≡ (if is_earliest t.expiration q.timers then some t.expiration else q'.armed))
unfolding add_timer_in_loop
add_timer_in_loop_lem q t s fresh =
    let (q1, e, s', p, d) = insert_lem q t s fresh in
    elim (Bool-cases (is_earliest t.expiration q.timers)) [
      | inl first ↦ (reset_timerfd q1 t.expiration, rw (e, first), s', p, d, rw first)
      | inr behind ↦ (q1, rw (e, behind), s', p, d, rw behind)
    ]

pub add_each-Gained :
    (ts : List Timer) (q : TimerQueue) (rest : List ℕ)
    → IsSorted q.timers
    → Nodup ((timer_addresses ts ++ rest) ++ addresses q.timers)
    → (q' : TimerQueue) × (add_each ts q ≡ some q')
      × Gained q q' (map entry_of ts) []
      × Nodup (rest ++ addresses q'.timers)
unfolding add_each
add_each-Gained [] q rest s n = (q, refl, gain_none q s, n)
add_each-Gained (t ∷ ts) q rest s n =
    let (q1, e, s1, p, d, _) =
      add_timer_in_loop_lem q t s
        (fresh_of t.address (timer_addresses ts ++ rest) (addresses q.timers) n) in
    let n1 : Nodup ((timer_addresses ts ++ rest) ++ addresses q1.timers) =
      join t.address (timer_addresses ts ++ rest) q.timers q1.timers (entry_of t) refl p n in
    let (q', e', g, n') = add_each-Gained ts q1 rest s1 n1 in
    (q', rw e e', gain q q1 q' (entry_of t) (map entry_of ts) [] p d g, n')

-- The entries that come back, with the callbacks run and the addresses deleted.
abbrev pub kept : Timestamp → List Entry → List Entry
kept now [] = []
kept now (e ∷ es) =
    if repeats e.timer then entry_of (restart e.timer now) ∷ kept now es else kept now es

abbrev pub dropped : List Entry → List ℕ
dropped [] = []
dropped (e ∷ es) = if repeats e.timer then dropped es else e.timer.address ∷ dropped es

pub reset_each-Gained :
    (es : List Entry) (now : Timestamp) (q : TimerQueue)
    → IsSorted q.timers
    → Nodup (addresses es ++ addresses q.timers)
    → (q' : TimerQueue) × (reset_each es now q ≡ some q') × Gained q q' (kept now es) (dropped es)
unfolding reset_each
reset_each-Gained [] now q s n = (q, refl, gain_none q s)
reset_each-Gained (e ∷ es) now q s n = elim (Bool-cases (repeats e.timer)) [
  | inl again ↦
      let t : Timer = restart e.timer now in
      let same : t.address ≡ e.timer.address = unfold restart in refl in
      let (q1, r, s1, p, d) =
        insert_lem q t s
          (λ m. fresh_of e.timer.address (addresses es) (addresses q.timers) n (rw same at m)) in
      let n1 = join e.timer.address (addresses es) q.timers q1.timers (entry_of t) same p n in
      let (q', r', g) = reset_each-Gained es now q1 s1 n1 in
      let k : kept now (e ∷ es) ≡ entry_of t ∷ kept now es = ground arith in
      let d' : dropped (e ∷ es) ≡ dropped es = ground arith in
      (
        q',
        ground (arith, r, r'),
        subst (λ x. Gained q q' x (dropped (e ∷ es))) (sym k)
            (subst (λ y. Gained q q' (entry_of t ∷ kept now es) y) (sym d')
              (gain q q1 q' (entry_of t) (kept now es) (dropped es) p d g)),
      )
  | inr once ↦
      let q1 : TimerQueue = record q { deleted = q.deleted ++ (e.timer.address ∷ []) } in
      let (q', r', g) = reset_each-Gained es now q1 s ((Nodup-cons.0 n).1) in
      let k : kept now (e ∷ es) ≡ kept now es = ground arith in
      let d' : dropped (e ∷ es) ≡ e.timer.address ∷ dropped es = ground arith in
      (
        q',
        ground (arith, r'),
        subst (λ x. Gained q q' x (dropped (e ∷ es))) (sym k)
            (subst (λ y. Gained q q' (kept now es) y) (sym d')
              (record {
                sorted = g.sorted;
                entries = g.entries;
                deletes = g.deletes ∙ append_assoc q.deleted (e.timer.address ∷ []) (dropped es);
              })),
      )
]
