-- ===== src/EventLoop/Pending.antt =====
-- What the loop thread runs, and when.
use learn_for_cpp.Base.{
  ℕ, ◌+◌, ◌≡◌, refl, sym, ap, ◌∙◌, Bool, true, false, ◌||◌, List, [], ◌∷◌, ◌++◌, arith,
  append_assoc, append-nil, if◌then◌else◌, length, length-append,
}
use learn_for_cpp.EventLoop.{
  Task, task, Calls, done, runs, queues, quits, Loop, queue_in_loop, quit_loop, exec, exec_calls,
  exec_all, do_pending_functions, loop_rounds,
}

-- The functions that run when a task runs, in order: itself, and those that it hands to `runInLoop`.
abbrev mutual
  pub trace : Task → List ℕ
  trace (task n cs) = n ∷ trace_calls cs

  pub trace_calls : Calls → List ℕ
  trace_calls done = []
  trace_calls (runs t cs) = trace t ++ trace_calls cs
  trace_calls (queues t cs) = trace_calls cs
  trace_calls (quits cs) = trace_calls cs

-- The functions that it hands to `queueInLoop`, in order.
abbrev mutual
  pub queued : Task → List Task
  queued (task n cs) = queued_calls cs

  pub queued_calls : Calls → List Task
  queued_calls done = []
  queued_calls (runs t cs) = queued t ++ queued_calls cs
  queued_calls (queues t cs) = t ∷ queued_calls cs
  queued_calls (quits cs) = queued_calls cs

-- Whether it calls `quit`.
abbrev mutual
  pub asks_quit : Task → Bool
  asks_quit (task n cs) = asks_quit_calls cs

  pub asks_quit_calls : Calls → Bool
  asks_quit_calls done = false
  asks_quit_calls (runs t cs) = asks_quit t || asks_quit_calls cs
  asks_quit_calls (queues t cs) = asks_quit_calls cs
  asks_quit_calls (quits cs) = true

abbrev pub traces : List Task → List ℕ
traces [] = []
traces (t ∷ ts) = trace t ++ traces ts

abbrev pub all_queued : List Task → List Task
all_queued [] = []
all_queued (t ∷ ts) = queued t ++ all_queued ts

abbrev pub any_quit : List Task → Bool
any_quit [] = false
any_quit (t ∷ ts) = asks_quit t || any_quit ts

-- From `l` to `l'` the loop thread ran `ns`, queued `ts`, and asked to quit if `q`.
pub record Ran (l l' : Loop) (ns : List ℕ) (ts : List Task) (q : Bool) : Type 0 where
  pub ran : l'.ran ≡ l.ran ++ ns
  pub pending : l'.pending ≡ l.pending ++ ts
  pub wakeups : l'.wakeups ≡ l.wakeups + length ts
  pub quit : l'.quit ≡ (l.quit || q)
  pub same_looping : l'.looping ≡ l.looping
  pub same_calling : l'.calling_pending ≡ l.calling_pending

or_false : (b : Bool) → (b || false) ≡ b
or_false b = ground arith

or_assoc : (a b c : Bool) → ((a || b) || c) ≡ (a || (b || c))
or_assoc a b c = ground arith

Ran-refl : (l : Loop) → Ran l l [] [] false
Ran-refl l = record {
  ran = sym (append-nil l.ran);
  pending = sym (append-nil l.pending);
  wakeups = omega arith;
  quit = sym (or_false l.quit);
  same_looping = refl;
  same_calling = refl;
}

Ran-trans :
    (l m n : Loop) (ns ns' : List ℕ) (ts ts' : List Task) (q q' : Bool)
    → Ran l m ns ts q
    → Ran m n ns' ts' q'
    → Ran l n (ns ++ ns') (ts ++ ts') (q || q')
Ran-trans l m n ns ns' ts ts' q q' r s = record {
  ran = s.ran ∙ ap (λ x. x ++ ns') r.ran ∙ append_assoc l.ran ns ns';
  pending = s.pending ∙ ap (λ x. x ++ ts') r.pending ∙ append_assoc l.pending ts ts';
  wakeups = omega (arith, r.wakeups, s.wakeups, length-append ts ts');
  quit = s.quit ∙ ap (λ b. b || q') r.quit ∙ or_assoc l.quit q q';
  same_looping = s.same_looping ∙ r.same_looping;
  same_calling = s.same_calling ∙ r.same_calling;
}

mutual
  unfolding exec exec_calls queue_in_loop quit_loop

  exec-Ran : (t : Task) (l : Loop) → Ran l (exec t l) (trace t) (queued t) (asks_quit t)
  exec-Ran (task n cs) l =
      Ran-trans l (record l { ran = l.ran ++ (n ∷ []) }) _ (n ∷ []) (trace_calls cs) []
        (queued_calls cs) false (asks_quit_calls cs)
        (record {
          ran = refl;
          pending = sym (append-nil l.pending);
          wakeups = omega arith;
          quit = sym (or_false l.quit);
          same_looping = refl;
          same_calling = refl;
        })
        (exec_calls-Ran cs (record l { ran = l.ran ++ (n ∷ []) }))

  exec_calls-Ran :
      (cs : Calls) (l : Loop)
      → Ran l (exec_calls cs l) (trace_calls cs) (queued_calls cs) (asks_quit_calls cs)
  exec_calls-Ran done l = Ran-refl l
  exec_calls-Ran (runs t cs) l =
      Ran-trans l (exec t l) _ (trace t) (trace_calls cs) (queued t) (queued_calls cs) (asks_quit t)
        (asks_quit_calls cs) (exec-Ran t l) (exec_calls-Ran cs (exec t l))
  exec_calls-Ran (queues t cs) l =
      Ran-trans l (queue_in_loop true l t) _ [] (trace_calls cs) (t ∷ []) (queued_calls cs) false
        (asks_quit_calls cs)
        (record {
          ran = sym (append-nil l.ran);
          pending = refl;
          wakeups = omega arith;
          quit = sym (or_false l.quit);
          same_looping = refl;
          same_calling = refl;
        })
        (exec_calls-Ran cs (queue_in_loop true l t))
  exec_calls-Ran (quits cs) l =
      let r = exec_calls-Ran cs (quit_loop true l) in
      record {
        ran = r.ran;
        pending = r.pending;
        wakeups = r.wakeups;
        quit = ground (arith, r.quit);
        same_looping = r.same_looping;
        same_calling = r.same_calling;
      }

exec_all-Ran :
    (ts : List Task) (l : Loop) → Ran l (exec_all ts l) (traces ts) (all_queued ts) (any_quit ts)
unfolding exec_all
exec_all-Ran [] l = Ran-refl l
exec_all-Ran (t ∷ ts) l =
    Ran-trans l (exec t l) _ (trace t) (traces ts) (queued t) (all_queued ts) (asks_quit t)
      (any_quit ts) (exec-Ran t l) (exec_all-Ran ts (exec t l))

-- `doPendingFunctions` runs every queued function once, in the order of the queue, with what they hand
-- to `runInLoop`; what they queue stays in the queue, in order, for the next round, and each of them
-- wakes the next `epoll` up.
pub do_pending_functions_lem :
    (l : Loop)
    → let l' = do_pending_functions l in
      (l'.ran ≡ l.ran ++ traces l.pending)
      × (l'.pending ≡ all_queued l.pending)
      × (l'.wakeups ≡ l.wakeups + length (all_queued l.pending))
      × (l'.quit ≡ (l.quit || any_quit l.pending))
      × (l'.calling_pending ≡ false)
      × (l'.looping ≡ l.looping)
unfolding do_pending_functions
do_pending_functions_lem l =
    let r = exec_all-Ran l.pending (record l { calling_pending = true; pending = [] }) in
    (r.ran, r.pending, r.wakeups, r.quit, refl, r.same_looping)

-- One round of a loop that was not asked to quit: the handlers, then the functions queued before the
-- round or by the handlers. The loop leaves after the round exactly if one of them called `quit`; in
-- either case what the functions queued is in the queue, and none of it ran in this round.
pub loop_round :
    (l : Loop) (handlers : List Task)
    → l.quit ≡ false
    → let l' = loop_rounds (handlers ∷ []) l in
      let waiting = l.pending ++ all_queued handlers in
      (l'.ran ≡ l.ran ++ (traces handlers ++ traces waiting))
      × (l'.pending ≡ all_queued waiting)
      × (l'.quit ≡ (any_quit handlers || any_quit waiting))
      × (l'.looping ≡ (if any_quit handlers || any_quit waiting then false else l.looping))
unfolding loop_rounds
loop_round l handlers running =
    let m : Loop = exec_all handlers l in
    let h : Ran l m (traces handlers) (all_queued handlers) (any_quit handlers) =
      exec_all-Ran handlers l in
    let (ran, pending, wakeups, quit, calling, looping) = do_pending_functions_lem m in
    let n : Loop = do_pending_functions m in
    let waiting : List Task = l.pending ++ all_queued handlers in
    let all_ran : n.ran ≡ l.ran ++ (traces handlers ++ traces waiting) =
      ran
      ∙ ap (λ x. x ++ traces m.pending) h.ran
      ∙ append_assoc l.ran (traces handlers) (traces m.pending)
      ∙ ap (λ x. l.ran ++ (traces handlers ++ traces x)) h.pending in
    let left : n.pending ≡ all_queued waiting = pending ∙ ap all_queued h.pending in
    let asked : n.quit ≡ (any_quit handlers || any_quit waiting) =
      quit
      ∙ ap (λ b. b || any_quit m.pending) h.quit
      ∙ ap (λ x. (l.quit || any_quit handlers) || any_quit x) h.pending
      ∙ ap (λ b. (b || any_quit handlers) || any_quit waiting) running in
    let still : n.looping ≡ l.looping = looping ∙ h.same_looping in
    ground (arith, all_ran, left, asked, still)
