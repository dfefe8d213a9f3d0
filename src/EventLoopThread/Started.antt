-- ===== src/EventLoopThread/Started.antt =====
-- `startLoop` returns, with the loop of the thread.
use learn_for_cpp.Base.{
  ℕ, ◌+◌, ◌≤◌, ◌<◌, Bool, true, false, Option, none, some, List, [], ◌∷◌, length, ◌≡◌, ◌⊎◌, inl,
  inr, refl, ap, sym, ◌∙◌, subst, arith, Option-cases,
}
use learn_for_cpp.EventLoopThread.{
  Party, owner, runner, Owner, Runner, World, owner_at, runner_at, step, Reaches, later, moves,
  idle, locking, testing, waiting, reading, returned, joining, quitting, destroyed, dangling,
  absent, starting, acquiring, publishing, notifying, releasing, entering, running, ended,
}
use learn_for_cpp.EventLoopThread.Inv.{Inv, Reaches-Inv, step-Inv}

abbrev pub other : Party → Party
other owner = runner
other runner = owner

-- One turn: the party that is next moves if it can, and else the other one.
unfoldable pub turn : ℕ → Party → World → World
turn here p w = elim (step here p w) [
  | some w' ↦ w'
  | none ↦ elim (step here (other p) w) [ some w' ↦ w' | none ↦ w ]
]

-- The turns in the order of a schedule, which is any list.
unfoldable pub run : ℕ → List Party → World → World
run here [] w = w
run here (p ∷ ps) w = run here ps (turn here p w)

-- The owner is inside `startLoop`.
abbrev pub in_start : Owner → Bool
in_start locking = true
in_start testing = true
in_start waiting = true
in_start reading = true
in_start _ = false

-- Steps that are left at most until it returns.
abbrev pub owner_left : Owner → ℕ
owner_left locking = 5
owner_left testing = 4
owner_left waiting = 3
owner_left reading = 1
owner_left _ = 0

abbrev pub runner_left : Runner → ℕ
runner_left starting = 9
runner_left acquiring = 8
runner_left publishing = 7
runner_left notifying = 6
runner_left releasing = 3
runner_left entering = 2
runner_left running = 1
runner_left _ = 0

abbrev pub left : World → ℕ
left w = owner_left w.owner + runner_left w.runner

-- The owner is in `startLoop`, or has just come out of it.
abbrev pub IsAnswered : ℕ → Owner → Type 0
IsAnswered here (returned p) = p ≡ some here
IsAnswered here o = in_start o ≡ true

module _ (here : ℕ) (others : Bool) where
  starting_out : (o : Owner) → in_start o ≡ true → IsAnswered here o
  starting_out locking a = a
  starting_out testing a = a
  starting_out waiting a = a
  starting_out reading a = a
  starting_out (returned p) a = cc
  starting_out idle a = a
  starting_out joining a = a
  starting_out quitting a = a
  starting_out destroyed a = a
  starting_out dangling a = a

  -- A step of either party brings the return nearer.
  owner_nearer :
      (o : Owner) (w w' : World)
      → w.owner ≡ o
      → in_start o ≡ true
      → Inv here others w
      → owner_at o w ≡ some w'
      → (left w' < left w) × IsAnswered here w'.owner
  unfolding owner_at
  owner_nearer idle w w' e i v r = cc
  owner_nearer locking w w' e i v r = ground arith
  owner_nearer testing w w' e i v r = ground arith
  owner_nearer waiting w w' e i v r = ground arith
  owner_nearer reading w w' e i v r = ground arith
  owner_nearer (returned p) w w' e i v r = cc
  owner_nearer joining w w' e i v r = cc
  owner_nearer quitting w w' e i v r = cc
  owner_nearer destroyed w w' e i v r = cc
  owner_nearer dangling w w' e i v r = cc

  runner_nearer :
      (x : Runner) (w w' : World)
      → w.runner ≡ x
      → in_start w.owner ≡ true
      → Inv here others w
      → runner_at here x w ≡ some w'
      → (left w' < left w) × (in_start w'.owner ≡ true)
  unfolding runner_at
  runner_nearer absent w w' e i v r = ground arith
  runner_nearer starting w w' e i v r = ground arith
  runner_nearer acquiring w w' e i v r = ground arith
  runner_nearer publishing w w' e i v r = ground arith
  runner_nearer notifying w w' e i v r = ground arith
  runner_nearer releasing w w' e i v r = ground arith
  runner_nearer entering w w' e i v r = ground arith
  runner_nearer running w w' e i v r = ground arith
  runner_nearer ended w w' e i v r = ground arith

  runner_blocked :
      (o : Owner) (x : Runner) (w : World)
      → w.owner ≡ o
      → w.runner ≡ x
      → in_start o ≡ true
      → Inv here others w
      → owner_at o w ≡ none
      → ¬ (runner_at here x w ≡ none)
  unfolding owner_at runner_at
  runner_blocked idle x w e f i v stuck blocked = cc
  runner_blocked locking x w e f i v stuck blocked = ground arith
  runner_blocked testing x w e f i v stuck blocked = cc
  runner_blocked waiting x w e f i v stuck blocked = ground arith
  runner_blocked reading x w e f i v stuck blocked = cc
  runner_blocked (returned p) x w e f i v stuck blocked = cc
  runner_blocked joining x w e f i v stuck blocked = cc
  runner_blocked quitting x w e f i v stuck blocked = cc
  runner_blocked destroyed x w e f i v stuck blocked = cc
  runner_blocked dangling x w e f i v stuck blocked = cc

  step_nearer :
      (p : Party) (w w' : World)
      → in_start w.owner ≡ true
      → Inv here others w
      → step here p w ≡ some w'
      → (left w' < left w) × IsAnswered here w'.owner × Inv here others w'
  unfolding step
  step_nearer owner w w' i v r =
      let (lt, a) = owner_nearer w.owner w w' refl i v r in
      (lt, a, step-Inv here others owner w w' v r)
  step_nearer runner w w' i v r =
      let (lt, a) = runner_nearer w.runner w w' refl i v r in
      (lt, starting_out w'.owner a, step-Inv here others runner w w' v r)

  -- In `startLoop` every turn moves somebody.
  turn_nearer :
      (p : Party) (w : World)
      → in_start w.owner ≡ true
      → Inv here others w
      → (w' : World) × (turn here p w ≡ w')
        × (left w' < left w)
        × IsAnswered here w'.owner
        × Inv here others w'
  unfolding turn
  turn_nearer p w i v = elim (Option-cases (step here p w)) [
    | inr (w', r) ↦
        (let (lt, a, v') = step_nearer p w w' i v r in (w', ground (arith, r), lt, a, v'))
    | inl stuck ↦ (elim (Option-cases (step here (other p) w)) [
      | inr (w', r) ↦
          let (lt, a, v') = step_nearer (other p) w w' i v r in
          (w', ground (arith, stuck, r), lt, a, v')
      | inl blocked ↦ absurd (both p w i v stuck blocked)
    ])
  ]
    where
      both :
          (p : Party) (w : World)
          → in_start w.owner ≡ true
          → Inv here others w
          → step here p w ≡ none
          → ¬ (step here (other p) w ≡ none)
      both owner w i v s b =
          runner_blocked w.owner w.runner w refl refl i v (unfold step in s) (unfold step in b)
      both runner w i v s b =
          runner_blocked w.owner w.runner w refl refl i v (unfold step in b) (unfold step in s)

  runner_stays :
      (x : Runner) (w w' : World) (q : Option ℕ)
      → w.owner ≡ returned q
      → runner_at here x w ≡ some w'
      → w'.owner ≡ returned q
  unfolding runner_at
  runner_stays absent w w' q e r = ground arith
  runner_stays starting w w' q e r = ground arith
  runner_stays acquiring w w' q e r = ground arith
  runner_stays publishing w w' q e r = ground arith
  runner_stays notifying w w' q e r = ground arith
  runner_stays releasing w w' q e r = ground arith
  runner_stays entering w w' q e r = ground arith
  runner_stays running w w' q e r = ground arith
  runner_stays ended w w' q e r = ground arith

  step_stays :
      (p : Party) (w w' : World) (q : Option ℕ)
      → w.owner ≡ returned q
      → step here p w ≡ some w'
      → w'.owner ≡ returned q
  unfolding step owner_at
  step_stays owner w w' q e r = ground arith
  step_stays runner w w' q e r = runner_stays w.runner w w' q e r

  turn_stays :
      (p : Party) (w : World) (q : Option ℕ)
      → w.owner ≡ returned q
      → (turn here p w).owner ≡ returned q
  unfolding turn
  turn_stays p w q e = elim (Option-cases (step here p w)) [
    | inr (w', r) ↦ ground (arith, r, step_stays p w w' q e r)
    | inl stuck ↦ (elim (Option-cases (step here (other p) w)) [
      | inr (w', r) ↦ ground (arith, stuck, r, step_stays (other p) w w' q e r)
      | inl blocked ↦ ground (arith, stuck, blocked)
    ])
  ]

  run_stays :
      (ps : List Party) (w : World) (q : Option ℕ)
      → w.owner ≡ returned q
      → (run here ps w).owner ≡ returned q
  unfolding run
  run_stays [] w q e = e
  run_stays (p ∷ ps) w q e = run_stays ps (turn here p w) q (turn_stays p w q e)

  answered_cases :
      (o : Owner) → IsAnswered here o → (in_start o ≡ true) ⊎ (o ≡ returned (some here))
  answered_cases locking a = inl a
  answered_cases testing a = inl a
  answered_cases waiting a = inl a
  answered_cases reading a = inl a
  answered_cases (returned p) a = inr (ap returned a)
  answered_cases idle a = inl a
  answered_cases joining a = inl a
  answered_cases quitting a = inl a
  answered_cases destroyed a = inl a
  answered_cases dangling a = inl a

  run_returns :
      (ps : List Party) (w : World)
      → IsAnswered here w.owner
      → Inv here others w
      → left w ≤ length ps
      → (run here ps w).owner ≡ returned (some here)
  unfolding run
  run_returns [] w a v enough = elim (answered_cases w.owner a) [
    | inr back ↦ back
    | inl i ↦ absurd (some_left w.owner w i enough)
  ]
    where
      some_left :
          (o : Owner) (w : World) → in_start o ≡ true → owner_left o + runner_left w.runner ≤ 0 → ⊥
      some_left locking w i h = omega arith
      some_left testing w i h = omega arith
      some_left waiting w i h = omega arith
      some_left reading w i h = omega arith
      some_left (returned p) w i h = cc
      some_left idle w i h = cc
      some_left joining w i h = cc
      some_left quitting w i h = cc
      some_left destroyed w i h = cc
      some_left dangling w i h = cc
  run_returns (p ∷ ps) w a v enough = elim (answered_cases w.owner a) [
    | inr back ↦ run_stays (p ∷ ps) w (some here) back
    | inl i ↦
        let (w', same, lt, a', v') = turn_nearer p w i v in
        ap (λ x. (run here ps x).owner) same ∙ run_returns ps w' a' v' (omega (arith, lt, enough))
  ]

-- What a schedule makes of a reachable world is reachable.
turn-Reaches :
    (here : ℕ) (others : Bool) (p : Party) (w : World)
    → Reaches here others w
    → Reaches here others (turn here p w)
unfolding turn
turn-Reaches here others p w reached = elim (Option-cases (step here p w)) [
  | inr (w', r) ↦
      let same : turn here p w ≡ w' = ground (arith, r) in
      subst (Reaches here others) (sym same) (later reached (moves p r))
  | inl stuck ↦ (elim (Option-cases (step here (other p) w)) [
    | inr (w', r) ↦
        let same : turn here p w ≡ w' = ground (arith, stuck, r) in
        subst (Reaches here others) (sym same) (later reached (moves (other p) r))
    | inl blocked ↦
        let same : turn here p w ≡ w = ground (arith, stuck, blocked) in
        subst (Reaches here others) (sym same) reached
  ])
]

pub run-Reaches :
    (here : ℕ) (others : Bool) (ps : List Party) (w : World)
    → Reaches here others w
    → Reaches here others (run here ps w)
unfolding run
run-Reaches here others [] w reached = reached
run-Reaches here others (p ∷ ps) w reached =
    run-Reaches here others ps (turn here p w) (turn-Reaches here others p w reached)

-- `startLoop` returns: wherever it stands, after whatever wakeups and calls, and whichever of the
-- two threads is scheduled when, if a turn of a thread that cannot move goes to the other one, the
-- owner has after fourteen turns come back with the address of the thread's loop.
pub run-start_loop :
    (here : ℕ) (others : Bool) (w : World) (ps : List Party)
    → Reaches here others w
    → in_start w.owner ≡ true
    → 14 ≤ length ps
    → (run here ps w).owner ≡ returned (some here)
run-start_loop here others w ps reached i enough =
    run_returns here others ps w (starting_out here others w.owner i)
      (Reaches-Inv here others w reached) (omega (arith, enough, most_left w.owner w.runner))
  where
    most_left : (o : Owner) (r : Runner) → owner_left o + runner_left r ≤ 14
    most_left o r = ground arith
