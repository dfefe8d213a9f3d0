-- ===== src/Thread/Start/Examples.antt =====
-- A thread that is started and joined.
use learn_for_cpp.Base.{◌≤◌, ◌≡◌, ◌⊎◌, refl, true, false, none, some, [], ◌∷◌}
use learn_for_cpp.Thread.Start.{Thread, Effect, created, joined, new_thread, start, join, destroy}
use learn_for_cpp.Thread.Start.Released.{
  begins, starts, joins, creations, releases, releases-destroy,
}

abbrev running : Thread
running = record { started = true; joined = false; tid = 0; name = []; effects = created ∷ [] }

abbrev ended : Thread
ended = record running { joined = true; effects = joined ∷ created ∷ [] }

running_runs : start ((new_thread [] 0).0) true ≡ some running
unfolding start new_thread
running_runs = refl

ended_runs : join running ≡ some ended
unfolding join
ended_runs = refl

detaches : (destroy running).effects ≡ Effect.detached ∷ created ∷ []
unfolding destroy
detaches = refl

releases-destroy_example :
    (creations (destroy ended).effects ≤ 1)
    × (releases (destroy ended).effects ≡ creations (destroy ended).effects)
    × ((start ended true ≡ none) ⊎ (ended.started ≡ false))
    × ((join ended ≡ none) ⊎ ((ended.started ≡ true) × (ended.joined ≡ false)))
releases-destroy_example =
    releases-destroy ended (joins (starts (begins [] 0) running_runs) ended_runs)
