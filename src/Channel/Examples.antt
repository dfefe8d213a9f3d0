-- ===== src/Channel/Examples.antt =====
-- The order of the callbacks at an event that runs two of them.
use learn_for_cpp.Base.{◌≡◌, refl, true, false, [], ◌∷◌}
use learn_for_cpp.Channel.{
  Channel, close_call, read_call, handle_event, none_event, new_channel, set_revents,
  enable_reading,
}

-- The peer closed and nothing is left to read.
abbrev hung_up : Channel
hung_up = record {
  fd = 4;
  enable_et = false;
  registered = true;
  event_handling = true;
  events = record (none_event) { readable = true };
  revents = record (none_event) { peer_closed = true };
  callbacks = record { read = true; write = true; error = true; close = true };
}

hung_up_calls : (handle_event hung_up).0 ≡ close_call ∷ read_call ∷ []
unfolding handle_event
hung_up_calls = refl

edge_asked : (enable_reading (set_revents (new_channel 3 true) none_event)).events.edge ≡ true
unfolding enable_reading set_revents new_channel
edge_asked = refl
