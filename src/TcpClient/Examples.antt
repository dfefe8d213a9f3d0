-- ===== src/TcpClient/Examples.antt =====
-- A client that connects, and then loses its connection.
use learn_for_cpp.Base.{ℕ, true, false, ◌&&◌, ◌≡◌, ◌⊎◌, refl, none, some, [], ◌∷◌, put, ◌>>=◌}
use learn_for_cpp.Buffer.{got}
use learn_for_cpp.Connector
use learn_for_cpp.Connector.{Connector, einprogress, connected, connecting_channel}
use learn_for_cpp.Connector.Attempt.{is_tidy}
use learn_for_cpp.TcpConnection
use learn_for_cpp.TcpConnection.{Connection, connect_established}
use learn_for_cpp.Channel.{disable_all, enable_writing, new_channel}
use learn_for_cpp.TcpClient.{
  Client, new_client, connect_client, connector_write, do_pending, run_queue, close_event,
  read_event, new_connection, resets, is_connection,
}
use learn_for_cpp.TcpClient.Inv.{fits, lives_at}
use learn_for_cpp.TcpClient.Runs.{
  Runs, begins, connects, writes, pends, close_event-Runs, connection-Runs,
}

abbrev trying : Client
trying = record new_client {
  connector = record {
    connect = true;
    state = Connector.connecting;
    channel = some (connecting_channel 7);
    retry_delay_ms = 500;
    effects = Connector.update_channel ∷ Connector.opened 7 ∷ [];
  };
}

trying_runs : connect_client new_client true 7 einprogress ≡ some trying
unfolding connect_client new_client Connector.start Connector.start_in_loop Connector.do_connect
    Connector.after_connect Connector.begin_connecting Connector.new_connector
trying_runs = refl

abbrev established : Connection
established = elim (connect_established (TcpConnection.new_connection 7)) [
  | some c ↦ c
  | none ↦ TcpConnection.new_connection 7
]

abbrev made : Client
made = record new_client {
  next_conn_id = 2;
  connection = some 1;
  connector = record {
    connect = true;
    state = connected;
    channel = some (disable_all (connecting_channel 7));
    retry_delay_ms = 500;
    effects =
        Connector.new_connection 7
        ∷ Connector.queue_reset
        ∷ Connector.remove_channel
        ∷ Connector.update_channel
        ∷ Connector.update_channel
        ∷ Connector.opened 7
        ∷ [];
  };
  conns = put (λ n. none) 1 (some established);
  queue = resets ∷ [];
}

made_runs : connector_write trying 0 false ≡ some made
unfolding connector_write new_client new_connection Connector.handle_write
    Connector.remove_and_reset_channel Connector.retry connect_established
    TcpConnection.new_connection connecting_channel new_channel enable_writing
made_runs = refl

abbrev serving : Client
serving = record made { connector = record (made.connector) { channel = none }; queue = [] }

serving_runs : do_pending made ≡ some serving
unfolding do_pending run_queue Connector.reset_channel
serving_runs = refl

serving-Runs : Runs serving
unfolding new_client
serving-Runs =
    pends (writes 0 false (connects 7 einprogress begins trying_runs) refl refl made_runs)
      serving_runs

close_event_example :
    (c : Client) × (close_event serving 1 8 einprogress ≡ some c)
    × (((serving.retry && serving.connect) ≡ true) ⊎ (c.connector ≡ serving.connector))
    × (read_event c 1 (got []) 8 einprogress ≡ none)
    × (c'' : Client) × (do_pending c ≡ some c'')
    × (c''.connection ≡ none)
    × (is_tidy c''.connector ≡ true)
    × ((k : ℕ) → c''.conns k ≡ none)
close_event_example = close_event-Runs serving 1 8 einprogress serving-Runs refl refl

connection-Runs_example :
    ((k : ℕ) → (serving.conns k ≡ none) ⊎ (is_connection (some 1) k ≡ true))
    × (lives_at (some 1) serving.conns ≡ true)
    × (fits (some 1) [] serving.connector ≡ true)
    × ((c : Client) × (do_pending serving ≡ some c))
connection-Runs_example = connection-Runs serving serving-Runs

-- The defect: `connect` from another thread only queues `startInLoop`; when the loop runs it, after a
-- `connect` of its own, the connector is no longer disconnected and the assertion fails.
started_twice :
    (do
      c ← connect_client new_client false 8 einprogress
      c' ← connect_client c true 7 einprogress
      do_pending c')
    ≡ none
unfolding connect_client new_client do_pending run_queue Connector.start Connector.start_in_loop
    Connector.do_connect Connector.after_connect Connector.begin_connecting Connector.new_connector
started_twice = refl
