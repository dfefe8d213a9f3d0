-- ===== src/Thread/Pool/Stopped.antt =====
-- What `stop` does to a thread that waits.
use learn_for_cpp.Base.{
  ℕ, ◌≡◌, inl, inr, refl, ◌∙◌, subst, false, none, some, List, [], ◌∷◌, ◌==◌, arith, Bool-cases,
  Option-cases,
}
use learn_for_cpp.Thread.Pool.{
  Worker, Pool, checking, taking, waiting, ended, holding, stop, take, work_at, work, works, move,
  moves, Move,
}

-- The threads go on, in any order; nothing is pushed and nobody is woken out of nothing.
abbrev pub works_only : List ℕ → List Move
works_only [] = []
works_only (i ∷ is) = works i ∷ works_only is

take-waiting :
    (p : Pool) (ts : List ℕ) (i j : ℕ) → (i == j) ≡ false → (take p ts j).workers i ≡ p.workers i
take-waiting p [] i j other = rw other refl
take-waiting p (t ∷ ts) i j other = rw other refl

-- A step of a thread changes no other one.
work_at-other :
    (w : Worker) (p p' : Pool) (i j : ℕ)
    → (i == j) ≡ false
    → work_at w p j ≡ some p'
    → p'.workers i ≡ p.workers i
unfolding work_at
work_at-other checking p p' i j other r = ground (arith, r, other)
work_at-other taking p p' i j other r =
    let same : take p p.tasks j ≡ p' = ground (arith, r) in
    subst (λ q. q.workers i ≡ p.workers i) same (take-waiting p p.tasks i j other)
work_at-other waiting p p' i j other r = cc
work_at-other ended p p' i j other r = cc
work_at-other (holding (some t)) p p' i j other r = ground (arith, r, other)
work_at-other (holding none) p p' i j other r = ground (arith, r)

work-waiting :
    (p p' : Pool) (i j : ℕ) → p.workers i ≡ waiting → work p j ≡ some p' → p'.workers i ≡ waiting
unfolding work
work-waiting p p' i j w r = elim (Bool-cases (i == j)) [
  | inl same ↦
      let e : i ≡ j = ground (arith, same) in
      let at : p.workers j ≡ waiting = subst (λ k. p.workers k ≡ waiting) e w in
      let stuck : work_at (p.workers j) p j ≡ none = unfold work_at in rw at refl in
      ground (arith, r, stuck)
  | inr other ↦
      let step : work_at (p.workers j) p j ≡ some p' = ground (arith, r) in
      work_at-other (p.workers j) p p' i j other step ∙ w
]

works-waiting :
    (is : List ℕ) (i : ℕ) (p p' : Pool)
    → p.workers i ≡ waiting
    → moves p (works_only is) ≡ some p'
    → p'.workers i ≡ waiting
unfolding moves move
works-waiting [] i p p' w r =
    let same : p ≡ p' = ground (arith, r) in subst (λ q. q.workers i ≡ waiting) same w
works-waiting (j ∷ is) i p p' w r = elim (Option-cases (work p j)) [
  | inl stuck ↦ absurd (ground (arith, stuck, r))
  | inr (q, e) ↦ works-waiting is i q p' (work-waiting p q i j w e) (ground (arith, e, r))
]

-- The defect: `stop` wakes no thread. One that waits for a task when the pool is stopped still waits
-- after any further steps of the threads, unless a task is pushed or it wakes out of nothing; so the
-- join of it does not return.
pub moves-stop :
    (p p' p'' : Pool) (i : ℕ) (is : List ℕ)
    → p.workers i ≡ waiting
    → stop p ≡ some p'
    → moves p' (works_only is) ≡ some p''
    → p''.workers i ≡ waiting
unfolding stop
moves-stop p p' p'' i is w s r =
    let same : record p { running = false } ≡ p' = ground (arith, s) in
    works-waiting is i p' p'' (subst (λ q. q.workers i ≡ waiting) same w) r
