-- ===== src/TcpConnection/Examples.antt =====
-- The connection's theorems at small connections, and a run.
use learn_for_cpp.Base.{
  ◌≡◌, refl, inl, inr, true, false, some, [], ◌∷◌, arith, read_range, write_range,
}
use learn_for_cpp.Buffer.{
  Buffer, append, ensure_writable_bytes, make_space, compact, readable_bytes, writable_bytes,
  prependable_bytes, has_written, retrieve,
}
use learn_for_cpp.Buffer.Parts.{content}
use learn_for_cpp.Channel.{Channel, none_event, disable_all, enable_writing, disable_writing}
use learn_for_cpp.TcpConnection.{
  Connection, connected, disconnecting, wrote, would_block, send_in_loop, send, handle_write,
  handle_close, emit, shutdown, shutdown_in_loop, buffer_rest, written, after_write,
  write_completed, update_channel, close_callback, sent, shut_write,
}
use learn_for_cpp.TcpConnection.Flow.{IsFlowing, stream, sent_bytes, shut_count}
use learn_for_cpp.TcpConnection.Output.{handle_write_lem}
use learn_for_cpp.TcpConnection.Drain.{write_each, IsDrained, write_each-IsDrained}
use learn_for_cpp.TcpConnection.Session.{Inv, here, sends, shuts, stream-Reaches}
use learn_for_cpp.TcpConnection.Lifecycle.{send_overtakes}

abbrev quiet_buffer : Buffer
quiet_buffer = record {
  buffer = 0 ∷ 0 ∷ 0 ∷ 0 ∷ 0 ∷ 0 ∷ 0 ∷ 0 ∷ 0 ∷ 0 ∷ 0 ∷ 0 ∷ [];
  reader_index = 8;
  writer_index = 8;
}

abbrev two_bytes : Buffer
two_bytes = record {
  buffer = 0 ∷ 0 ∷ 0 ∷ 0 ∷ 0 ∷ 0 ∷ 0 ∷ 0 ∷ 65 ∷ 66 ∷ 0 ∷ 0 ∷ [];
  reader_index = 8;
  writer_index = 10;
}

abbrev reading : Channel
reading = record {
  fd = 5;
  enable_et = false;
  registered = true;
  event_handling = false;
  events = record (none_event) { readable = true; priority = true; peer_closed = true };
  revents = none_event;
  callbacks = record { read = true; write = true; error = true; close = true };
}

-- Connected, with nothing to send.
abbrev quiet : Connection
quiet = record {
  state = connected;
  channel = reading;
  input_buffer = quiet_buffer;
  output_buffer = quiet_buffer;
  has_write_complete = false;
  effects = [];
}

-- Disconnecting, with two bytes to send.
abbrev draining : Connection
draining = record quiet {
  state = disconnecting;
  channel = record reading { events = record (none_event) { writable = true } };
  output_buffer = two_bytes;
}

quiet-IsFlowing : IsFlowing quiet
quiet-IsFlowing = record { valid = omega arith; waiting = λ w. cc; idle = λ w. refl }

draining-IsFlowing : IsFlowing draining
draining-IsFlowing = record { valid = omega arith; waiting = λ w. omega arith; idle = λ w. cc }

draining-Inv : Inv draining
draining-Inv = record { flowing = draining-IsFlowing; up = inr (refl, refl) }

quiet-Inv : Inv quiet
quiet-Inv = record { flowing = quiet-IsFlowing; up = inl (refl, refl) }

-- The kernel takes both bytes, and the write half is shut down behind them.
draining_runs :
    handle_write draining (wrote 2)
    ≡ some (record draining {
      channel = disable_writing (draining.channel);
      output_buffer = record two_bytes { reader_index = 10 };
      effects = sent (65 ∷ 66 ∷ []) ∷ update_channel ∷ shut_write ∷ [];
    })
unfolding handle_write written after_write write_completed shutdown_in_loop retrieve readable_bytes
    read_range disable_writing
draining_runs = refl

handle_write_example :
    (c : Connection) × (handle_write draining (wrote 2) ≡ some c)
    × IsFlowing c
    × (stream c ≡ 65 ∷ 66 ∷ [])
    × (content c.output_buffer ≡ [])
    × (c.state ≡ disconnecting)
    × (shut_count c.effects ≡ 1)
handle_write_example = handle_write_lem draining (wrote 2) draining-IsFlowing (omega arith)

-- A message is sent, and the connection is shut down while it waits.
abbrev sending : Connection
sending = record quiet {
  channel = enable_writing reading;
  output_buffer = record {
    buffer = 0 ∷ 0 ∷ 0 ∷ 0 ∷ 0 ∷ 0 ∷ 0 ∷ 0 ∷ 65 ∷ 0 ∷ 0 ∷ 0 ∷ [];
    reader_index = 8;
    writer_index = 9;
  };
  effects = update_channel ∷ [];
}

sending_runs : send quiet true (65 ∷ []) would_block ≡ some sending
unfolding send send_in_loop buffer_rest append ensure_writable_bytes make_space compact
    readable_bytes writable_bytes prependable_bytes has_written write_range read_range
    enable_writing
sending_runs = refl

stream-Reaches_example : Inv (shutdown sending true) × (stream (shutdown sending true) ≡ 65 ∷ [])
stream-Reaches_example =
    stream-Reaches quiet (shutdown sending true) (65 ∷ []) quiet-Inv
      (shuts (sends (65 ∷ []) would_block here (omega arith) sending_runs))

-- Two bytes wait when the peer closes.
abbrev waiting : Connection
waiting = record draining { state = connected }

abbrev closed : Connection
closed =
    emit (emit (record waiting { channel = disable_all (waiting.channel) }) update_channel)
      close_callback

send_overtakes_example :
    (c : Connection) × (closed.state ≡ connected)
    × (send closed true (67 ∷ []) (wrote 1) ≡ some c)
    × (sent_bytes c.effects ≡ 67 ∷ [])
    × (content c.output_buffer ≡ 65 ∷ 66 ∷ [])
unfolding handle_close
send_overtakes_example =
    send_overtakes waiting closed (67 ∷ []) (omega arith) (omega arith) refl refl

drains_example :
    (c : Connection) × (write_each (wrote 1 ∷ would_block ∷ wrote 1 ∷ []) draining ≡ some c)
    × IsDrained draining c
drains_example =
    write_each-IsDrained draining (wrote 1 ∷ would_block ∷ wrote 1 ∷ []) draining-Inv (omega arith)
