-- ===== src/Echo/Examples.antt =====
-- An echo of one byte that waits in the output buffer, and the counters of a session.
use learn_for_cpp.Base.{
  ◌≡◌, refl, none, some, [], ◌∷◌, ◌++◌, length, arith, read_range, write_range,
}
use learn_for_cpp.Buffer.{
  got, new_buffer, read_fd, append, ensure_writable_bytes, make_space, compact, readable_bytes,
  writable_bytes, prependable_bytes, has_written, retrieve_as_string, retrieve_all, retrieve,
}
use learn_for_cpp.Buffer.Parts.{content}
use learn_for_cpp.Channel.{new_channel, enable_reading, enable_writing}
use learn_for_cpp.TcpConnection.{
  Connection, wrote, would_block, connected, new_connection, connect_established, handle_read,
  after_read, send, send_in_loop, direct_write, buffer_rest, update_channel, connection_callback,
}
use learn_for_cpp.TcpConnection.Flow.{sent_bytes, stream}
use learn_for_cpp.TcpConnection.Drain.{write_each}
use learn_for_cpp.Echo.{
  Session, new_session, on_message, read_event, session_read_event, session_on_message,
}
use learn_for_cpp.Echo.Served.{IsEchoing, HasRoom, Runs, begins, reads, Runs-IsEchoing, echo-Runs}
use learn_for_cpp.Echo.Counted.{Plays, counts, counts-Plays}
use learn_for_cpp.Echo.Counted

abbrev opened : Connection
opened = record (new_connection 5) {
  state = connected;
  channel = enable_reading (new_connection 5).channel;
  effects = update_channel ∷ connection_callback ∷ [];
}

opened_runs : connect_established (new_connection 5) ≡ some opened
unfolding connect_established new_connection enable_reading new_channel new_buffer
opened_runs = refl

opened-IsEchoing : IsEchoing opened
opened-IsEchoing = (Runs-IsEchoing opened [] (begins 5 opened_runs)).0

opened-HasRoom : HasRoom opened (65 ∷ [])
unfolding new_buffer new_connection
opened-HasRoom = record { input = omega arith; output = omega arith }

abbrev echoed : Connection
echoed = elim (read_event opened (got (65 ∷ [])) would_block) [ some c ↦ c | none ↦ opened ]

echoed_runs : read_event opened (got (65 ∷ [])) would_block ≡ some echoed
unfolding read_event on_message handle_read after_read send send_in_loop direct_write buffer_rest
    connect_established new_connection enable_reading enable_writing new_channel new_buffer read_fd
    append ensure_writable_bytes make_space compact readable_bytes writable_bytes prependable_bytes
    has_written retrieve_as_string retrieve_all retrieve read_range write_range
echoed_runs = refl

echoed_waits : length (content echoed.output_buffer) ≡ 1
unfolding read_event on_message handle_read after_read send send_in_loop direct_write buffer_rest
    connect_established new_connection enable_reading enable_writing new_channel new_buffer read_fd
    append ensure_writable_bytes make_space compact readable_bytes writable_bytes prependable_bytes
    has_written retrieve_as_string retrieve_all retrieve read_range write_range
echoed_waits = refl

echoed-HasRoom : HasRoom echoed (66 ∷ [])
unfolding read_event on_message handle_read after_read send send_in_loop direct_write buffer_rest
    connect_established new_connection enable_reading enable_writing new_channel new_buffer read_fd
    append ensure_writable_bytes make_space compact readable_bytes writable_bytes prependable_bytes
    has_written retrieve_as_string retrieve_all retrieve read_range write_range
echoed-HasRoom = record { input = omega arith; output = omega arith }

echoed-Runs : Runs echoed (65 ∷ [])
echoed-Runs = reads 65 [] would_block (begins 5 opened_runs) opened-HasRoom echoed_runs

echo-Runs_example :
    ((d : Connection) × (read_event echoed (got (66 ∷ [])) (wrote 0) ≡ some d))
    × ((d : Connection) × (write_each (would_block ∷ wrote 1 ∷ []) echoed ≡ some d)
        × (sent_bytes d.effects ≡ 65 ∷ []))
echo-Runs_example =
    echo-Runs echoed (65 ∷ []) (would_block ∷ wrote 1 ∷ []) 66 [] (wrote 0) echoed-Runs
      (rw echoed_waits (omega arith)) echoed-HasRoom

abbrev played : Session × Connection
played = elim (session_read_event new_session opened (got (65 ∷ [])) would_block) [
  | some p ↦ p
  | none ↦ (new_session, opened)
]

played_runs :
    session_read_event new_session opened (got (65 ∷ [])) would_block ≡ some (played.0, played.1)
unfolding session_read_event session_on_message new_session on_message handle_read after_read send
    send_in_loop direct_write buffer_rest connect_established new_connection enable_reading
    enable_writing new_channel new_buffer read_fd append ensure_writable_bytes make_space compact
    readable_bytes writable_bytes prependable_bytes has_written retrieve_as_string retrieve_all
    retrieve read_range write_range
played_runs = refl

counts-Plays_example :
    (played.0 ≡ counts 1 1) × IsEchoing played.1 × (stream played.1 ≡ stream opened ++ (65 ∷ []))
counts-Plays_example =
    counts-Plays opened played.1 played.0 (65 ∷ []) 1 opened-IsEchoing
      (Counted.plays 65 [] would_block Counted.begins opened-HasRoom played_runs)
