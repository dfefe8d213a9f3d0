-- ===== src/EventLoopThread/Inv.antt =====
-- How the two parties stand to each other.
use learn_for_cpp.Base.{
  ℕ, Bool, true, false, not, ◌&&◌, ◌||◌, Option, none, some, ◌≡◌, refl, arith, if◌then◌else◌,
}
use learn_for_cpp.Thread.Start.{start, join}
use learn_for_cpp.EventLoopThread.{
  Party, owner, runner, Owner, Runner, World, new_world, start_loop, destroy, owner_at, runner_at,
  step, Step, Reaches, begins, later, moves, wakes, quits, calls_start, calls_destroy, is_ended,
  idle, locking, testing, waiting, reading, returned, joining, quitting, destroyed, dangling,
  absent, starting, acquiring, publishing, notifying, releasing, entering, running, ended,
}

-- `loop_` is set.
abbrev pub published : Runner → Bool
published notifying = true
published releasing = true
published entering = true
published running = true
published ended = true
published _ = false

-- The thread has the mutex.
abbrev pub inside : Runner → Bool
inside publishing = true
inside notifying = true
inside releasing = true
inside _ = false

-- `notify_one` has been called.
abbrev pub notified : Runner → Bool
notified releasing = true
notified entering = true
notified running = true
notified ended = true
notified _ = false

abbrev pub is_absent : Runner → Bool
is_absent absent = true
is_absent _ = false

abbrev pub is_idle : Owner → Bool
is_idle idle = true
is_idle _ = false

-- The owner is in the destructor, or behind it.
abbrev pub is_leaving : Owner → Bool
is_leaving joining = true
is_leaving quitting = true
is_leaving destroyed = true
is_leaving dangling = true
is_leaving _ = false

-- The loop exists.
abbrev pub has_loop : Runner → Bool
has_loop absent = false
has_loop starting = false
has_loop ended = false
has_loop _ = true

-- Which places go together.
abbrev pub fits : Owner → Runner → Bool
fits idle r = is_absent r
fits locking r = not (is_absent r)
fits testing r = not (is_absent r) && not (inside r)
fits waiting r = not (is_absent r) && not (notified r)
fits reading r = published r
fits (returned p) r = published r
fits joining r = published r
fits quitting r = is_ended r
fits destroyed r = false
fits dangling r = is_ended r

abbrev pub holder : Owner → Runner → Option Party
holder testing r = some owner
holder o r = if inside r then some runner else none

abbrev pub Answers : ℕ → Owner → Type 0
Answers here (returned p) = p ≡ some here
Answers here _ = Unit {0}

pub record Inv (here : ℕ) (others : Bool) (w : World) : Type 0 where
  pub places : fits w.owner w.runner ≡ true
  pub pointer : w.loop ≡ (if published w.runner then some here else none)
  pub mutex : w.mutex ≡ holder w.owner w.runner
  pub answer : Answers here w.owner
  pub alive : w.loop_alive ≡ has_loop w.runner
  pub started : w.thread.started ≡ not (is_idle w.owner)
  pub joined : w.thread.joined ≡ is_leaving w.owner
  pub quiet : (others || not (w.quit)) ≡ true
  pub lasting : (others || not (is_ended w.runner)) ≡ true

module _ (here : ℕ) (others : Bool) where
  owner_at-Inv :
      (o : Owner) (w w' : World)
      → w.owner ≡ o
      → Inv here others w
      → owner_at o w ≡ some w'
      → Inv here others w'
  unfolding owner_at
  owner_at-Inv idle w w' e v r = ground arith
  owner_at-Inv locking w w' e v r = ground arith
  owner_at-Inv testing w w' e v r = ground arith
  owner_at-Inv waiting w w' e v r = ground arith
  owner_at-Inv reading w w' e v r = ground arith
  owner_at-Inv (returned p) w w' e v r = ground arith
  owner_at-Inv joining w w' e v r = ground arith
  owner_at-Inv quitting w w' e v r = ground arith
  owner_at-Inv destroyed w w' e v r = ground arith
  owner_at-Inv dangling w w' e v r = ground arith

  runner_at-Inv :
      (x : Runner) (w w' : World)
      → w.runner ≡ x
      → Inv here others w
      → runner_at here x w ≡ some w'
      → Inv here others w'
  unfolding runner_at
  runner_at-Inv absent w w' e v r = ground arith
  runner_at-Inv starting w w' e v r = ground arith
  runner_at-Inv acquiring w w' e v r = ground arith
  runner_at-Inv publishing w w' e v r = ground arith
  runner_at-Inv notifying w w' e v r = ground arith
  runner_at-Inv releasing w w' e v r = ground arith
  runner_at-Inv entering w w' e v r = ground arith
  runner_at-Inv running w w' e v r = ground arith
  runner_at-Inv ended w w' e v r = ground arith

  pub step-Inv :
      (p : Party) (w w' : World) → Inv here others w → step here p w ≡ some w' → Inv here others w'
  unfolding step
  step-Inv owner w w' v r = owner_at-Inv w.owner w w' refl v r
  step-Inv runner w w' v r = runner_at-Inv w.runner w w' refl v r

  start_loop-Inv :
      (w w' : World)
      → w.owner ≡ idle
      → Inv here others w
      → start_loop w true ≡ some w'
      → Inv here others w'
  unfolding start_loop start
  start_loop-Inv w w' e v r = ground arith

  destroy-Inv :
      (w w' : World) (p : Option ℕ)
      → w.owner ≡ returned p
      → Inv here others w
      → destroy w ≡ some w'
      → Inv here others w'
  unfolding destroy join
  destroy-Inv w w' p e v r = ground arith

  Step-Inv : (w w' : World) → Inv here others w → Step here others w w' → Inv here others w'
  Step-Inv w w' v (moves p r) = step-Inv p w w' v r
  Step-Inv w w' v (wakes e) = ground arith
  Step-Inv w w' v (quits o alive) = ground arith
  Step-Inv w w' v (calls_start e r) = start_loop-Inv w w' e v r
  Step-Inv w w' v (calls_destroy p e r) = destroy-Inv w w' p e v r

  -- The places, the pointer and the mutex stay consistent, whatever happens in whatever order.
  pub Reaches-Inv : (w : World) → Reaches here others w → Inv here others w
  unfolding new_world
  Reaches-Inv w begins = ground arith
  Reaches-Inv w (later {w = u} run s) = Step-Inv u w (Reaches-Inv u run) s
