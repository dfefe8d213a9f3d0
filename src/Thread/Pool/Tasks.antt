-- ===== src/Thread/Pool/Tasks.antt =====
-- What becomes of the tasks of a pool.
use learn_for_cpp.Base.{
  ℕ, ◌<◌, ◌≡◌, ◌⊎◌, inl, inr, refl, sym, ap, ◌∙◌, subst, Bool, true, false, none, some, List, [],
  ◌∷◌, ◌++◌, put, ◌==◌, if◌then◌else◌, arith, Bool-cases, Option-cases, append_assoc, append-nil,
}
use learn_for_cpp.Thread.Pool.{
  Worker, Pool, checking, taking, waiting, ended, holding, new_pool, set_threads_num, start, wake,
  push, stop, take, work_at, work, Move, pushes, stops, works, wakes, move, moves, is_waiting,
}

-- The tasks that a program pushes.
abbrev pub pushed : List Move → List ℕ
pushed [] = []
pushed (pushes task i ∷ ms) = task ∷ pushed ms
pushed (stops ∷ ms) = pushed ms
pushed (works i ∷ ms) = pushed ms
pushed (wakes i ∷ ms) = pushed ms

-- A thread has no empty task while the pool is running.
abbrev holds_none : Worker → Bool
holds_none (holding none) = true
holds_none _ = false

record Inv (p : Pool) : Type 0 where
  staffed : 0 < p.threads
  idle : p.ran ≡ []
  quiet : (i : ℕ) → (holds_none (p.workers i) ≡ false) ⊎ (p.running ≡ false)
  thrown : (p.thrown ≡ false) ⊎ (p.running ≡ false)

worker-Inv :
    (p : Pool) (i : ℕ) (w : Worker) (ts : List ℕ)
    → (holds_none w ≡ false) ⊎ (p.running ≡ false)
    → Inv p
    → Inv (record p { tasks = ts; workers = put p.workers i w })
worker-Inv p i w ts ok v = record {
  staffed = v.staffed;
  idle = v.idle;
  quiet =
      λ j. elim (Bool-cases (j == i)) [ inl same ↦ rw same ok | inr other ↦ rw other (v.quiet j) ];
  thrown = v.thrown;
}

wake-Inv : (p : Pool) (i : ℕ) → Inv p → Inv (wake p i)
unfolding wake
wake-Inv p i v = elim (Bool-cases (is_waiting (p.workers i))) [
  | inl w ↦ rw w (worker-Inv p i taking p.tasks (inl refl) v)
  | inr b ↦ rw b v
]

-- The tasks that leave the queue, one step at a time.
abbrev Leaves : Pool → Pool → List ℕ → Type 0
Leaves p p' new = Inv p' × (gone : List ℕ) × (p.tasks ++ new ≡ gone ++ p'.tasks)

take-Leaves : (p : Pool) (ts : List ℕ) (i : ℕ) → p.tasks ≡ ts → Inv p → Leaves p (take p ts i) []
take-Leaves p [] i e v =
    let w : Worker = if p.running then waiting else holding none in
    let ok : (holds_none w ≡ false) ⊎ (p.running ≡ false) = elim (Bool-cases p.running) [
      | inl on ↦ inl (rw on refl)
      | inr off ↦ inr off
    ] in
    (worker-Inv p i w p.tasks ok v, [], append-nil p.tasks)
take-Leaves p (t ∷ ts) i e v =
    (worker-Inv p i (holding (some t)) ts (inl refl) v, t ∷ [], append-nil p.tasks ∙ e)

wake-tasks : (p : Pool) (i : ℕ) → (wake p i).tasks ≡ p.tasks
unfolding wake
wake-tasks p i = ground arith

work_at-Leaves :
    (w : Worker) (p p' : Pool) (i : ℕ)
    → p.workers i ≡ w
    → Inv p
    → work_at w p i ≡ some p'
    → Leaves p p' []
unfolding work_at
work_at-Leaves checking p p' i e v r =
    let w : Worker = if p.running then taking else ended in
    let ok : holds_none w ≡ false = ground arith in
    let same : record p { workers = put p.workers i w } ≡ p' = ground (arith, r) in
    subst (λ q. Leaves p q []) same (worker-Inv p i w p.tasks (inl ok) v, [], append-nil p.tasks)
work_at-Leaves taking p p' i e v r =
    subst (λ q. Leaves p q []) (ground (arith, r)) (take-Leaves p p.tasks i refl v)
work_at-Leaves waiting p p' i e v r = cc
work_at-Leaves ended p p' i e v r = cc
work_at-Leaves (holding (some t)) p p' i e v r =
    let same : record p { workers = put p.workers i checking } ≡ p' = ground (arith, r) in
    subst (λ q. Leaves p q []) same
      (worker-Inv p i checking p.tasks (inl refl) v, [], append-nil p.tasks)
work_at-Leaves (holding none) p p' i e v r =
    let stopped : p.running ≡ false = ground (arith, v.quiet i, e) in
    let same : record p { thrown = true } ≡ p' = ground (arith, r) in
    let inv : Inv (record p { thrown = true }) = record {
      staffed = v.staffed;
      idle = v.idle;
      quiet = v.quiet;
      thrown = inr stopped;
    } in
    subst (λ q. Leaves p q []) same (inv, [], append-nil p.tasks)

move-Leaves : (m : Move) (p p' : Pool) → Inv p → move p m ≡ some p' → Leaves p p' (pushed (m ∷ []))
unfolding move push stop work
move-Leaves (pushes task i) p p' v r =
    let q : Pool = record p { tasks = p.tasks ++ (task ∷ []) } in
    let vq : Inv q = record {
      staffed = v.staffed;
      idle = v.idle;
      quiet = v.quiet;
      thrown = v.thrown;
    } in
    let same : wake q i ≡ p' = ground (arith, r, v.staffed) in
    subst (λ x. Leaves p x (task ∷ [])) same (wake-Inv q i vq, [], sym (wake-tasks q i))
move-Leaves stops p p' v r =
    let inv : Inv (record p { running = false }) = record {
      staffed = v.staffed;
      idle = v.idle;
      quiet = λ j. inr refl;
      thrown = inr refl;
    } in
    let same : record p { running = false } ≡ p' = ground (arith, r) in
    subst (λ x. Leaves p x []) same (inv, [], append-nil p.tasks)
move-Leaves (works i) p p' v r = work_at-Leaves (p.workers i) p p' i refl v (ground (arith, r))
move-Leaves (wakes i) p p' v r =
    let same : wake p i ≡ p' = ground (arith, r) in
    subst (λ x. Leaves p x []) same (wake-Inv p i v, [], append-nil p.tasks ∙ sym (wake-tasks p i))

pushed-cons : (m : Move) (ms : List Move) → pushed (m ∷ ms) ≡ pushed (m ∷ []) ++ pushed ms
pushed-cons (pushes task i) ms = refl
pushed-cons stops ms = refl
pushed-cons (works i) ms = refl
pushed-cons (wakes i) ms = refl

moves-Leaves :
    (ms : List Move) (p p' : Pool) → Inv p → moves p ms ≡ some p' → Leaves p p' (pushed ms)
unfolding moves
moves-Leaves [] p p' v r =
    let same : p ≡ p' = ground (arith, r) in
    subst (λ x. Leaves p x []) same (v, [], append-nil p.tasks)
moves-Leaves (m ∷ ms) p p' v r = elim (Option-cases (move p m)) [
  | inl stuck ↦ absurd (ground (arith, stuck, r))
  | inr (q, e) ↦
      let (vq, gone, l) = move-Leaves m p q v e in
      let (v', gone', l') = moves-Leaves ms q p' vq (ground (arith, e, r)) in
      (
        v',
        gone ++ gone',
        ap (λ x. p.tasks ++ x) (pushed-cons m ms)
            ∙ sym (append_assoc p.tasks (pushed (m ∷ [])) (pushed ms))
            ∙ ap (λ x. x ++ pushed ms) l
            ∙ append_assoc gone q.tasks (pushed ms)
            ∙ ap (λ x. gone ++ x) l'
            ∙ sym (append_assoc gone gone' p'.tasks),
      )
]

-- The defect: a pool with threads runs no task. Whatever is pushed and however its threads, the
-- wakeups and `stop` follow each other, the tasks leave the queue in their order, and none of them has
-- run; and no thread calls an empty function before `stop`.
pub moves-start :
    (n : ℕ) (ms : List Move) (p p' : Pool)
    → 0 < n
    → start (set_threads_num new_pool n) ≡ some p
    → moves p ms ≡ some p'
    → (p'.ran ≡ [])
      × ((gone : List ℕ) × (pushed ms ≡ gone ++ p'.tasks))
      × ((p'.thrown ≡ false) ⊎ (p'.running ≡ false))
unfolding start set_threads_num new_pool
moves-start n ms p p' some_threads up r =
    let first : Pool = record new_pool { threads_num = n; running = true; threads = n } in
    let same : first ≡ p = ground (arith, up) in
    let v : Inv first = record {
      staffed = some_threads;
      idle = refl;
      quiet = λ i. inl refl;
      thrown = inl refl;
    } in
    let (v', gone, l) = moves-Leaves ms p p' (subst Inv same v) r in
    (v'.idle, (gone, ap (λ x. x.tasks ++ pushed ms) same ∙ l), v'.thrown)
