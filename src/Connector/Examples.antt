-- ===== src/Connector/Examples.antt =====
-- The connector's theorems at a run, and the run itself.
use learn_for_cpp.Base.{◌≡◌, refl, true, false, none, some, [], ◌∷◌}
use learn_for_cpp.Channel.{Channel, new_channel, enable_writing, disable_all}
use learn_for_cpp.Connector.{
  Connector, disconnected, connecting, connected, einprogress, econnrefused, opened, closed,
  new_connection, run_after, queue_reset, update_channel, remove_channel, new_connector, start,
  start_in_loop, do_connect, after_connect, begin_connecting, retry, handle_write,
  remove_and_reset_channel, connecting_channel,
}
use learn_for_cpp.Connector.Sockets.{Inv}
use learn_for_cpp.Connector.Run.{created, starts, timer_starts, writes, Inv-Reaches}

-- The first attempt is refused, the second one succeeds.
abbrev refused : Connector
refused = record {
  connect = true;
  state = disconnected;
  channel = none;
  retry_delay_ms = 1000;
  effects = run_after 500 ∷ closed 7 ∷ opened 7 ∷ [];
}

abbrev attempt : Channel
attempt = record {
  fd = 7;
  enable_et = true;
  registered = false;
  event_handling = false;
  events = record {
    readable = false;
    priority = false;
    writable = true;
    error = false;
    peer_closed = false;
    edge = false;
  };
  revents = record {
    readable = false;
    priority = false;
    writable = false;
    error = false;
    peer_closed = false;
    edge = false;
  };
  callbacks = record { read = false; write = true; error = true; close = false };
}

abbrev pending : Connector
pending = record {
  connect = true;
  state = connecting;
  channel = some attempt;
  retry_delay_ms = 1000;
  effects = update_channel ∷ opened 7 ∷ run_after 500 ∷ closed 7 ∷ opened 7 ∷ [];
}

abbrev up : Connector
up = record {
  connect = true;
  state = connected;
  channel = some (record attempt { events = record (attempt.events) { writable = false } });
  retry_delay_ms = 1000;
  effects =
      new_connection 7
      ∷ queue_reset
      ∷ remove_channel
      ∷ update_channel
      ∷ update_channel
      ∷ opened 7
      ∷ run_after 500
      ∷ closed 7
      ∷ opened 7
      ∷ [];
}

first_try : start new_connector true 7 econnrefused ≡ some refused
unfolding start start_in_loop do_connect after_connect retry new_connector
first_try = refl

second_try : start_in_loop refused 7 einprogress ≡ some pending
unfolding start_in_loop do_connect after_connect begin_connecting connecting_channel new_channel
    enable_writing
second_try = refl

succeeds : handle_write pending 0 false ≡ some up
unfolding handle_write remove_and_reset_channel disable_all
succeeds = refl

Inv-Reaches_example : Inv up
Inv-Reaches_example = Inv-Reaches up (
    writes 0 false
      (timer_starts 7 einprogress (starts true 7 econnrefused created first_try) second_try)
      succeeds)
