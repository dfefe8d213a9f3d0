-- ===== src/EventLoop/Wakeup.antt =====
-- Calls from other threads, and what wakes a loop that waits in `epoll`.
use learn_for_cpp.Base.{
  ℕ, suc, ◌+◌, ◌≡◌, refl, sym, ◌∙◌, false, List, [], ◌∷◌, ◌++◌, arith, append_assoc, append-nil,
}
use learn_for_cpp.EventLoop.{Task, Loop, queue_in_loop, quit_loop, run_in_loop}

-- A call from another thread: `runInLoop`, `queueInLoop` or `quit`.
pub data Foreign : Type 0 where
  runs queues : Task → Foreign
  quits : Foreign

abbrev pub call : Loop → Foreign → Loop
call l (runs t) = run_in_loop false l t
call l (queues t) = queue_in_loop false l t
call l quits = quit_loop false l

abbrev pub calls : Loop → List Foreign → Loop
calls l [] = l
calls l (f ∷ fs) = calls (call l f) fs

abbrev pub handed_over : List Foreign → List Task
handed_over [] = []
handed_over (runs t ∷ fs) = t ∷ handed_over fs
handed_over (queues t ∷ fs) = t ∷ handed_over fs
handed_over (quits ∷ fs) = handed_over fs

abbrev pub quit_calls : List Foreign → ℕ
quit_calls [] = 0
quit_calls (runs t ∷ fs) = quit_calls fs
quit_calls (queues t ∷ fs) = quit_calls fs
quit_calls (quits ∷ fs) = suc (quit_calls fs)

-- The defect: while the loop is not running its queue, so also while it waits in `epoll`, the calls
-- of other threads queue their functions in order and run none, and only the calls of `quit` among
-- them wake the loop: a function that another thread hands over does not.
pub wakeups-calls :
    (l : Loop) (fs : List Foreign)
    → l.calling_pending ≡ false
    → ((calls l fs).pending ≡ l.pending ++ handed_over fs)
      × ((calls l fs).ran ≡ l.ran)
      × ((calls l fs).wakeups ≡ l.wakeups + quit_calls fs)
unfolding queue_in_loop quit_loop run_in_loop
wakeups-calls l [] idle = (sym (append-nil l.pending), refl, omega arith)
wakeups-calls l (runs t ∷ fs) idle =
    let (p, r, w) = wakeups-calls (queue_in_loop false l t) fs (ground arith) in
    (
      p ∙ ground (arith, append_assoc l.pending (t ∷ []) (handed_over fs)),
      r ∙ ground arith,
      ground arith,
    )
wakeups-calls l (queues t ∷ fs) idle =
    let (p, r, w) = wakeups-calls (queue_in_loop false l t) fs (ground arith) in
    (
      p ∙ ground (arith, append_assoc l.pending (t ∷ []) (handed_over fs)),
      r ∙ ground arith,
      ground arith,
    )
wakeups-calls l (quits ∷ fs) idle =
    let (p, r, w) = wakeups-calls (quit_loop false l) fs idle in (p, r, ground arith)
