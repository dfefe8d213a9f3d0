-- ===== src/Thread/Holder/Examples.antt =====
-- Two threads, of which the second waits for the first.
use learn_for_cpp.Base.{◌≡◌, ◌↔◌, refl, true, none, some, [], ◌∷◌, put, arith}
use learn_for_cpp.Thread.Holder.{
  MutexLock, outside, taking, inside, leaving, new_mutex, is_locked_by_this_thread, take_mutex,
  set_holder, clear_holder, release_mutex, move, moves,
}
use learn_for_cpp.Thread.Holder.Exact.{is_locked-moves}

abbrev second : MutexLock
second = record {
  owner = some 8;
  holder = 8;
  places =
      put
        (put (put (put (put (put (λ t. outside) 7 taking) 7 inside) 7 leaving) 7 outside) 8 taking)
        8 inside;
}

second_runs : moves new_mutex (7 ∷ 7 ∷ 7 ∷ 7 ∷ 8 ∷ 8 ∷ []) ≡ some second
unfolding moves move new_mutex take_mutex set_holder clear_holder release_mutex
second_runs = refl

-- The second cannot take the mutex before the first has released it.
waits : moves new_mutex (7 ∷ 7 ∷ 7 ∷ 8 ∷ []) ≡ none
unfolding moves move new_mutex take_mutex set_holder clear_holder release_mutex
waits = refl

is_locked-moves_example : (is_locked_by_this_thread second 8 ≡ true) ↔ (second.places 8 ≡ inside)
is_locked-moves_example =
    is_locked-moves (7 ∷ 7 ∷ 7 ∷ 7 ∷ 8 ∷ 8 ∷ []) second 8 second_runs (omega arith)
