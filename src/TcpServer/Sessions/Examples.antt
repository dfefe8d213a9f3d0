-- ===== src/TcpServer/Sessions/Examples.antt =====
-- A server whose only connection is closed by the peer.
use learn_for_cpp.Base.{ℕ, ◌+◌, ◌≡◌, ◌≢◌, ◌↔◌, refl, true, none, some, [], ◌∷◌, put}
use learn_for_cpp.Buffer.{got, new_buffer}
use learn_for_cpp.Channel.{new_channel, enable_reading, disable_all}
use learn_for_cpp.Acceptor.{accepted, new_acceptor, handle_read}
use learn_for_cpp.TcpConnection
use learn_for_cpp.TcpConnection.{
  Connection, connected, connect_established, update_channel, connection_callback, close_callback,
  handle_close,
}
use learn_for_cpp.TcpServer.{
  Server, Effect, new_server, new_pool, set_thread_num, start, start_pool, run_listen, accept_event,
  hand, new_connection, get_next_loop, ThreadPool, remove_connection_in_loop,
}
use learn_for_cpp.TcpServer.Connections
use learn_for_cpp.TcpServer.Sessions.{
  World, new_world, accept, close_event, do_pending, remove_connection, read_event,
}
use learn_for_cpp.TcpServer.Sessions.Ends.{begins, accepts, close-Runs, read_event-close_event}

abbrev pool : ThreadPool
pool = record { base_loop = 9; started = true; num_threads = 0; next = 0; loops = [] }

abbrev started : Server
started = record {
  started = true;
  next_conn = 1;
  pool = pool;
  connections = λ n. none;
  sockets = [];
  acceptor = record (new_acceptor 5) { has_callback = true };
  effects = run_listen ∷ [];
}

starts :
    start (λ i. 20 + i) (record (new_server 9 5) { pool = set_thread_num (new_pool 9) 0 })
    ≡ some started
unfolding start start_pool new_server new_pool set_thread_num new_acceptor
starts = refl

abbrev conn : Connection
conn = record (TcpConnection.new_connection 12) {
  state = connected;
  channel = enable_reading (TcpConnection.new_connection 12).channel;
  effects = update_channel ∷ connection_callback ∷ [];
}

abbrev serving : World
serving = record {
  server = record started {
    next_conn = 2;
    connections = put (λ n. none) 1 (some 9);
    sockets = 12 ∷ [];
    effects = Effect.establish 1 ∷ run_listen ∷ [];
  };
  conns = put (λ n. none) 1 (some conn);
  queue = [];
}

accepts_one : accept (new_world started) (accepted 12) ≡ some serving
unfolding accept accept_event handle_read hand new_connection get_next_loop new_acceptor new_world
    connect_established TcpConnection.new_connection enable_reading new_channel new_buffer
accepts_one = refl

close-Runs_example :
    (w : World) × (close_event serving 1 ≡ some w)
    × (v : World) × (do_pending w ≡ some v)
    × (v.server.connections 1 ≡ none)
    × ((m : ℕ) → m ≢ 1 → serving.server.connections m ≢ none → v.conns m ≡ serving.conns m)
    × ((m : ℕ) → (v.conns m ≡ none) ↔ (v.server.connections m ≡ none))
close-Runs_example =
    close-Runs (λ i. 20 + i) 9 0 serving 1 9
      (accepts (accepted 12) (begins (Connections.begins 5 starts)) accepts_one) refl

abbrev closed : World
closed = record {
  server = record (serving.server) {
    connections = put serving.server.connections 1 none;
    effects = Effect.queue_destroy 9 1 ∷ serving.server.effects;
  };
  conns = put serving.conns 1 (
      some (record conn {
        channel = disable_all conn.channel;
        effects = update_channel ∷ connection_callback ∷ update_channel ∷ close_callback ∷ [];
      }));
  queue = 1 ∷ [];
}

closes_one : close_event serving 1 ≡ some closed
unfolding close_event remove_connection remove_connection_in_loop handle_close disable_all
    TcpConnection.new_connection enable_reading new_channel new_buffer
closes_one = refl

read_event-close_event_example : read_event closed 1 (got []) ≡ none
read_event-close_event_example =
    read_event-close_event (λ i. 20 + i) 9 0 serving closed 1 9
      (accepts (accepted 12) (begins (Connections.begins 5 starts)) accepts_one) refl closes_one
