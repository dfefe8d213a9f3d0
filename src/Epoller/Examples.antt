-- ===== src/Epoller/Examples.antt =====
-- The epoller's theorems at two channels, and a poll.
use learn_for_cpp.Base.{
  ℕ, suc, ◌≡◌, Bool, true, false, none, some, List, [], ◌∷◌, map, ◌==◌, if◌then◌else◌, arith,
}
use learn_for_cpp.Channel.{Channel, Events, is_none, none_event}
use learn_for_cpp.Epoller.{Epoller, Ready, ready, update_channel_map, epoll}
use learn_for_cpp.Epoller.Registry.{IsRegistry, update_channel_map-IsRegistry}
use learn_for_cpp.Epoller.Active.{revents_of, epoll-Kept}

-- Channel `a` has the descriptor `a + 3`.
abbrev channel : Bool → Events → ℕ → Channel
channel registered events a = record {
  fd = suc (suc (suc a));
  enable_et = false;
  registered = registered;
  event_handling = false;
  events = events;
  revents = none_event;
  callbacks = record { read = true; write = true; error = true; close = true };
}

abbrev reading : Events
reading = record (none_event) { readable = true }

abbrev empty : Epoller
empty = record {
  channels = λ fd. none;
  events_size = 16;
  objects = channel false reading;
  errors = 0;
}

-- Channel 1 is registered, and asks for no event any more.
abbrev one : Epoller
one = record {
  channels = λ fd. if fd == 4 then some 1 else none;
  events_size = 1;
  objects = λ a. channel (a == 1) none_event a;
  errors = 0;
}

empty-IsRegistry : IsRegistry empty
empty-IsRegistry = record {
  found = λ fd a e. ground (arith, e);
  listed = λ fd a e. ground (arith, e);
  known = λ a e. ground (arith, e);
}

one-IsRegistry : IsRegistry one
one-IsRegistry = record {
  found = λ fd a e. ground (arith, e);
  listed = λ fd a e. ground (arith, e);
  known = λ a e. ground (arith, e);
}

update_channel_map_example :
    (p' : Epoller) × (update_channel_map empty 2 true ≡ some p')
    × IsRegistry p'
    × (true ≡ true → is_none (empty.objects 2).events ≡ false → (p'.objects 2).registered ≡ true)
update_channel_map_example =
    update_channel_map-IsRegistry empty 2 true empty-IsRegistry (λ b e. ground (arith, e))

abbrev event : Ready
event = record { fd = 4; events = reading }

epoll_example :
    (active : List ℕ) × (p' : Epoller) × (epoll one (ready (event ∷ [])) ≡ some (active, p'))
    × (some 1 ∷ [] ≡ map some active)
    × (revents_of p' active ≡ reading ∷ [])
    × IsRegistry p'
    × (p'.events_size ≡ 2)
epoll_example =
    epoll-Kept one (event ∷ []) one-IsRegistry ((λ e. ground (arith, e)), tt) (tt, tt) (omega arith)
