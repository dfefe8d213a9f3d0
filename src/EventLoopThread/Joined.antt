-- ===== src/EventLoopThread/Joined.antt =====
-- What the destructor comes to.
use learn_for_cpp.Base.{ℕ, Bool, true, false, ◌≡◌, ◌≢◌, ◌⊎◌, inl, inr, arith, Bool-cases}
use learn_for_cpp.EventLoopThread.{Owner, World, Reaches, quitting, destroyed, dangling}
use learn_for_cpp.EventLoopThread.Inv.{Reaches-Inv}

-- Behind `pthread_join`.
abbrev pub is_joined : Owner → Bool
is_joined quitting = true
is_joined destroyed = true
is_joined dangling = true
is_joined _ = false

-- The destructor joins the thread before it tells the loop to quit. So it never ends as meant: if
-- nobody else calls `quit`, it waits for ever; and if somebody did, the thread has ended and its loop is
-- gone when the destructor calls `quit` of it.
pub destroy-not-destroyed :
    (here : ℕ) (others : Bool) (w : World)
    → Reaches here others w
    → (w.owner ≢ destroyed)
      × ((is_joined w.owner ≡ false) ⊎ ((others ≡ true) × (w.loop_alive ≡ false)))
destroy-not-destroyed here others w reached =
    let v = Reaches-Inv here others w reached in
    (
      λ e. ground arith,
      elim (Bool-cases (is_joined w.owner)) [
        | inl behind ↦ inr (ground arith, ground arith)
        | inr before ↦ inl before
      ],
    )
