-- ===== src/Thread/Values/Order.antt =====
-- Any sequence of calls of several threads.
use learn_for_cpp.Base.{
  ℕ, ◌≡◌, sym, ap, ◌∙◌, inl, inr, Option, Option-cases, none, some, List, [], ◌∷◌, ◌++◌, arith,
  append_assoc, append-nil, ◌>>=◌,
}
use learn_for_cpp.Thread.Values.{
  Queue, push, wait_and_pop, pop_front, try_pop, Tasks, back, take_task,
}

pub data Call : Type 0 where
  pushes : ℕ → Call
  waits pops tries : Call

abbrev pub pushed : List Call → List ℕ
pushed [] = []
pushed (pushes x ∷ cs) = x ∷ pushed cs
pushed (_ ∷ cs) = pushed cs

-- A value returned before the others.
abbrev before : ℕ → Option (List ℕ × Queue) → Option (List ℕ × Queue)
before x none = none
before x (some (xs, r)) = some (x ∷ xs, r)

-- The values that the calls returned, and what they leave.
unfoldable pub run : List Call → Queue → Option (List ℕ × Queue)
run [] q = some ([], q)
run (pushes x ∷ cs) q = run cs (push q x)
run (waits ∷ cs) q = do (x, q') ← wait_and_pop q; before x (run cs q')
run (pops ∷ cs) q = do (x, q') ← pop_front q; before x (run cs q')
run (tries ∷ cs) q =
    let (o, q') = try_pop q in
    let rest = run cs q' in elim o [ none ↦ rest | some x ↦ before x rest ]

-- A call that returned a value, with the calls behind it.
returned :
    (cs : List Call) (q r : Queue) (x : ℕ) (xs : List ℕ)
    → ((ys : List ℕ) → run cs q ≡ some (ys, r) → ys ++ r ≡ q ++ pushed cs)
    → before x (run cs q) ≡ some (xs, r)
    → xs ++ r ≡ x ∷ (q ++ pushed cs)
returned cs q r x xs rest e = elim (Option-cases (run cs q)) [
  | inl stuck ↦ ground (arith, e, stuck)
  | inr ((ys, r'), done) ↦
      let same : some (x ∷ ys, r') ≡ some (xs, r) = sym (ap (before x) done) ∙ e in
      let left : r' ≡ r = ground (arith, same) in
      let all : x ∷ ys ≡ xs = ground (arith, same) in
      ap (λ zs. zs ++ r) (sym all) ∙ ap (λ l. x ∷ l) (rest ys (done ∙ ap (λ l. some (ys, l)) left))
]

-- In any order of calls that does not fault, the values returned, with those that are left behind them,
-- are the values that were there with those pushed, in order.
pub values-run :
    (cs : List Call) (q r : Queue) (xs : List ℕ)
    → run cs q ≡ some (xs, r)
    → xs ++ r ≡ q ++ pushed cs
unfolding run
values-run [] q r xs e = ground (arith, e, append-nil q)
values-run (pushes x ∷ cs) q r xs e =
    values-run cs (push q x) r xs e ∙ (unfold push in append_assoc q (x ∷ []) (pushed cs))
values-run (waits ∷ cs) [] r xs e = unfold wait_and_pop in ground (arith, e)
values-run (waits ∷ cs) (x ∷ q) r xs e =
    returned cs q r x xs (λ ys. values-run cs q r ys) (unfold wait_and_pop in e)
values-run (pops ∷ cs) [] r xs e = unfold pop_front in ground (arith, e)
values-run (pops ∷ cs) (x ∷ q) r xs e =
    returned cs q r x xs (λ ys. values-run cs q r ys) (unfold pop_front in e)
values-run (tries ∷ cs) [] r xs e = values-run cs [] r xs (unfold try_pop in ground (arith, e))
values-run (tries ∷ cs) (x ∷ q) r xs e =
    returned cs q r x xs (λ ys. values-run cs q r ys) (unfold try_pop in e)

-- `take` gives the same function again and again: the vector never gets shorter.
pub take_task-same :
    (ts ts' : Tasks) (t : ℕ) → take_task ts ≡ some (t, ts') → take_task ts' ≡ some (t, ts')
unfolding take_task
take_task-same ts ts' t e = elim (Option-cases (back ts)) [
  | inl nothing ↦ ground (arith, e, nothing)
  | inr (u, last) ↦ ground (arith, e, last)
]
