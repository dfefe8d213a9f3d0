-- ===== src/Echo/Clients/Examples.antt =====
-- Two sessions that end at the same time.
use learn_for_cpp.Base.{
  ℕ, zero, suc, ◌<◌, ◌≡◌, refl, inl, some, List, [], ◌∷◌, put, arith, write_range, read_range,
}
use learn_for_cpp.Buffer.{
  new_buffer, readable_bytes, append, ensure_writable_bytes, writable_bytes, has_written,
  retrieve_as_string, retrieve_all, retrieve, make_space, compact, prependable_bytes,
}
use learn_for_cpp.Channel.{new_channel, enable_reading}
use learn_for_cpp.Thread.Counter.{
  new_counter, get, get_and_add, add_and_get, increment_and_get, decrement,
}
use learn_for_cpp.TcpConnection.{
  Connection, wrote, connected, new_connection, send, send_in_loop, direct_write, buffer_rest,
}
use learn_for_cpp.Echo.{new_session, session_on_message, on_message}
use learn_for_cpp.Echo.Clients.{
  World, awaited, playing, leaving, left, new_world, Place, Totals, no_totals, summing, sums,
  sum_next, on_connect, on_connected, leave, check_empty, message, Event, starts_session,
  pushes_session, connects, reads, drops, checks, move, moves,
}
use learn_for_cpp.Echo.Clients.Inv.{sum_totals}
use learn_for_cpp.Echo.Clients.Report.{report-moves}
use mathlib.Core.List.{Mem}

abbrev opened : Connection
opened = record (new_connection 5) {
  state = connected;
  channel = enable_reading (new_connection 5).channel;
}

-- Two bytes have come.
abbrev filled : Connection
filled = record opened { input_buffer = record (opened.input_buffer) { writer_index = 10 } }

-- Both sessions are started and pushed, and the first is connected.
abbrev building : List Event
building =
    starts_session
    ∷ connects 0 opened (wrote 1)
    ∷ pushes_session
    ∷ reads 0 filled (wrote 2)
    ∷ starts_session
    ∷ pushes_session
    ∷ []

abbrev built : World
built = record {
  started = 2;
  pushed = 2;
  num_connected = 1;
  places = put (λ i. awaited) 0 playing;
  sessions =
      put (λ i. new_session) 0 (record { bytes_read = 2; bytes_written = 2; messages_read = 1 });
  all_connected = 0;
  reports = [];
  quits = 0;
}

-- Both decrement the counter before either reads it, and both print the sums.
abbrev ending : List Event
ending =
    connects 1 opened (wrote 1)
    ∷ reads 1 filled (wrote 2)
    ∷ drops 1
    ∷ drops 0
    ∷ checks 0
    ∷ checks 1
    ∷ sums 1
    ∷ sums 0
    ∷ sums 0
    ∷ sums 1
    ∷ sums 1
    ∷ sums 0
    ∷ []

abbrev first_totals : Totals
first_totals = record { bytes_read = 2; messages_read = 1 }

abbrev all_totals : Totals
all_totals = record { bytes_read = 4; messages_read = 2 }

-- The two sessions on their way out.
abbrev out : ℕ → Place
out = put (put (put (put (λ i. awaited) 0 playing) 1 playing) 1 leaving) 0 leaving

abbrev summed : ℕ → Place
summed =
    put
      (put
        (put
          (put (put (put out 0 (summing 0 no_totals)) 1 (summing 0 no_totals)) 1
            (summing 1 first_totals))
          0 (summing 1 first_totals))
        0 (summing 2 all_totals))
      1 (summing 2 all_totals)

abbrev over : World
over = record {
  started = 2;
  pushed = 2;
  num_connected = 0;
  places = put (put summed 1 left) 0 left;
  sessions =
      put
        (put (λ i. new_session) 0 (record { bytes_read = 2; bytes_written = 2; messages_read = 1 }))
        1 (record { bytes_read = 2; bytes_written = 2; messages_read = 1 });
  all_connected = 1;
  reports = all_totals ∷ all_totals ∷ [];
  quits = 2;
}

built_runs : moves 2 1 building new_world ≡ some built
unfolding moves move on_connect on_connected leave check_empty sum_next message new_world
    new_counter get get_and_add add_and_get increment_and_get decrement send send_in_loop
    direct_write new_connection enable_reading new_channel new_buffer new_session readable_bytes
    buffer_rest append ensure_writable_bytes writable_bytes has_written retrieve_as_string
    retrieve_all retrieve make_space compact prependable_bytes write_range read_range
    session_on_message on_message
built_runs = refl

over_runs : moves 2 1 ending built ≡ some over
unfolding moves move on_connect on_connected leave check_empty sum_next message new_world
    new_counter get get_and_add add_and_get increment_and_get decrement send send_in_loop
    direct_write new_connection enable_reading new_channel new_buffer new_session readable_bytes
    buffer_rest append ensure_writable_bytes writable_bytes has_written retrieve_as_string
    retrieve_all retrieve make_space compact prependable_bytes write_range read_range
    session_on_message on_message
over_runs = refl

-- A session that comes and goes before it is pushed makes the client print sums without it and quit.
early :
    moves 2 1
      (starts_session
        ∷ connects 0 opened (wrote 1)
        ∷ reads 0 filled (wrote 2)
        ∷ drops 0
        ∷ checks 0
        ∷ sums 0
        ∷ [])
      new_world
    ≡ some (record {
      started = 1;
      pushed = 0;
      num_connected = 0;
      places =
          put (put (put (put (λ i. awaited) 0 playing) 0 leaving) 0 (summing 0 no_totals)) 0 left;
      sessions =
          put
            (λ i. new_session)
            0
            (record { bytes_read = 2; bytes_written = 2; messages_read = 1 });
      all_connected = 0;
      reports = no_totals ∷ [];
      quits = 1;
    })
unfolding moves move on_connect on_connected leave check_empty sum_next message new_world
    new_counter get get_and_add add_and_get increment_and_get decrement send send_in_loop
    direct_write new_connection enable_reading new_channel new_buffer new_session readable_bytes
    buffer_rest append ensure_writable_bytes writable_bytes has_written retrieve_as_string
    retrieve_all retrieve make_space compact prependable_bytes write_range read_range
    session_on_message on_message
early = refl

all_left : (i : ℕ) → i < 2 → over.places i ≡ left
all_left zero h = refl
all_left (suc zero) h = refl
all_left (suc (suc i)) h = absurd (omega (arith, h))

report-moves_example :
    (over.num_connected ≡ 0) × Mem (sum_totals over.sessions 2) over.reports × (0 < over.quits)
report-moves_example =
    report-moves 2 1 1 building ending built over (omega arith) built_runs refl (omega arith)
      (inl refl) over_runs all_left
