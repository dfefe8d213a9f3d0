-- ===== src/TcpClient.antt =====
-- reactor/TcpClient.h and TcpClient.cc: a Connector and the connection that it made. All but
-- `connect` and `disconnect` runs in the loop thread. Connections are known by their number; `conns`
-- holds the objects that live, and `queue` what was handed to the loop and has not run. A descriptor
-- and an errno value for a new attempt are arguments. A failed assertion of the client, its
-- connector or its connection is `none`.
pub mod Inv
mod Steps
mod Ends
mod Traffic
pub mod Runs
mod Examples
use learn_for_cpp.Base.{
  ℕ, ◌+◌, Bool, true, false, not, ◌&&◌, Option, none, some, List, [], ◌∷◌, ◌++◌, ◌==◌, put,
  if◌then◌else◌, ◌>>=◌, ◌>>◌, assert,
}
use learn_for_cpp.Buffer.{Readv, got}
use learn_for_cpp.Connector
use learn_for_cpp.Connector.{
  Connector, Errno, new_connector, is_connecting, start, start_in_loop, restart, reset_channel,
}
use learn_for_cpp.TcpConnection
use learn_for_cpp.TcpConnection.{
  Connection, Write, connect_established, connect_destroyed, handle_close, shutdown,
  shutdown_in_loop, is_connected, send, handle_read,
}

-- `Connector::resetChannel`, `TcpConnection::connectDestoryed` of a connection, and, from other threads,
-- `Connector::startInLoop` and `TcpConnection::shutdownInLoop` of a connection.
pub data Queued : Type 0 where
  resets : Queued
  destroys : ℕ → Queued
  starts : ℕ → Errno → Queued
  shuts : ℕ → Queued

pub record Client : Type 0 where
  pub retry : Bool
  pub connect : Bool
  -- Whether `writeCompleteCallback_` is set.
  pub has_write_complete : Bool
  pub next_conn_id : ℕ
  pub connection : Option ℕ
  pub connector : Connector
  pub conns : ℕ → Option Connection
  pub queue : List Queued

unfoldable pub new_client : Client
new_client = record {
  retry = false;
  connect = true;
  has_write_complete = false;
  next_conn_id = 1;
  connection = none;
  connector = new_connector;
  conns = λ n. none;
  queue = [];
}

pub enable_retry : Client → Client
enable_retry c = record c { retry = true }

-- `setWriteCompleteCallback`.
pub set_write_complete : Client → Client
set_write_complete c = record c { has_write_complete = true }

-- `TcpClient::connect`, called in the loop thread or in another one; `startInLoop` makes its attempt
-- with the descriptor and the errno value.
unfoldable pub connect_client : Client → Bool → ℕ → Errno → Option Client
connect_client c in_loop sockfd errno = do
  k ← start c.connector in_loop sockfd errno
  let c' : Client = record c { connect = true; connector = k }
  some (if in_loop then c' else record c' { queue = c'.queue ++ (starts sockfd errno ∷ []) })

-- The connection `connection_`, if there is one, is shut down.
abbrev pub shut_down : Client → Option ℕ → Bool → Option Client
shut_down c none in_loop = some c
shut_down c (some n) in_loop = do
  conn ← c.conns n
  let c' : Client = record c { conns = put c.conns n (some (shutdown conn in_loop)) }
  some (
      if is_connected conn.state && not in_loop
      then record c' { queue = c'.queue ++ (shuts n ∷ []) }
      else c')

pub disconnect : Client → Bool → Option Client
disconnect c in_loop = shut_down (record c { connect = false }) c.connection in_loop

pub stop : Client → Client
stop c = record c { connect = false; connector = Connector.stop c.connector }

-- `newConnection`; the object is established before it returns.
unfoldable pub new_connection : Client → ℕ → Option Client
new_connection c sockfd = do
  let made : Connection = record (TcpConnection.new_connection sockfd) {
    has_write_complete = c.has_write_complete;
  }
  conn ← connect_established made
  some (record c {
    next_conn_id = c.next_conn_id + 1;
    connection = some c.next_conn_id;
    conns = put c.conns c.next_conn_id (some conn);
  })

abbrev pub is_connection : Option ℕ → ℕ → Bool
is_connection none n = false
is_connection (some m) n = m == n

-- `removeConnection`, with the descriptor and the result of the attempt that `restart` makes.
pub remove_connection : Client → ℕ → ℕ → Errno → Option Client
remove_connection c n sockfd errno = do
  assert (is_connection c.connection n)
  let c' : Client = record c { connection = none; queue = c.queue ++ (destroys n ∷ []) }
  if c.retry && c.connect
      then (do k ← restart c.connector sockfd errno; some (record c' { connector = k }))
      else some c'

-- Whether a read finds the end.
abbrev pub is_end : Readv → Bool
is_end (got []) = true
is_end _ = false

-- The connector's last effect is its callback, where it called it.
abbrev pub called_back : Client → List Connector.Effect → Option Client
called_back c (Connector.new_connection sockfd ∷ es) = new_connection c sockfd
called_back c es = some c

-- The socket of the connector's attempt is writable: `Connector::handleWrite` with its callback.
unfoldable pub connector_write : Client → ℕ → Bool → Option Client
connector_write c err self_connect = do
  k ← Connector.handle_write c.connector err self_connect
  let c' : Client = record c { connector = k }
  if is_connecting c.connector.state
      then called_back (record c' { queue = c.queue ++ (resets ∷ []) }) k.effects
      else some c'

pub connector_error : Client → Option Client
connector_error c = do
  k ← Connector.handle_error c.connector
  some (record c { connector = k; queue = c.queue ++ (resets ∷ []) })

-- The timer of `Connector::retry`.
pub timer : Client → ℕ → Errno → Option Client
timer c sockfd errno = do
  k ← start_in_loop c.connector sockfd errno
  some (record c { connector = k })

-- The peer closed: `TcpConnection::handleClose` with its callback `removeConnection`.
pub close_event : Client → ℕ → ℕ → Errno → Option Client
close_event c n sockfd errno = do
  conn ← c.conns n
  conn' ← handle_close conn
  remove_connection (record c { conns = put c.conns n (some conn') }) n sockfd errno

-- `send` of a connection, in the loop thread.
pub send_to : Client → ℕ → List ℕ → Write → Option Client
send_to c n message w = do
  conn ← c.conns n
  conn' ← send conn true message w
  some (record c { conns = put c.conns n (some conn') })

-- The socket of a connection is writable: `TcpConnection::handleWrite`.
pub write_event : Client → ℕ → Write → Option Client
write_event c n w = do
  conn ← c.conns n
  conn' ← TcpConnection.handle_write conn w
  some (record c { conns = put c.conns n (some conn') })

-- `TcpConnection::handleRead`, which calls `handleClose` when it reads no byte.
pub read_event : Client → ℕ → Readv → ℕ → Errno → Option Client
read_event c n r sockfd errno = do
  conn ← c.conns n
  conn' ← handle_read conn r
  let c' : Client = record c { conns = put c.conns n (some conn') }
  if is_end r then remove_connection c' n sockfd errno else some c'

-- A function that the loop was given; with `connectDestoryed` the object ends.
abbrev pub run_queued : Client → Queued → Option Client
run_queued c resets = some (record c { connector = reset_channel c.connector })
run_queued c (destroys n) = do
  conn ← c.conns n
  conn' ← connect_destroyed conn
  some (record c { conns = put c.conns n none })
run_queued c (starts sockfd errno) = do
  k ← start_in_loop c.connector sockfd errno
  some (record c { connector = k })
run_queued c (shuts n) = do
  conn ← c.conns n
  some (record c { conns = put c.conns n (some (shutdown_in_loop conn)) })

unfoldable pub run_queue : List Queued → Client → Option Client
run_queue [] c = some c
run_queue (q ∷ qs) c = do c' ← run_queued c q; run_queue qs c'

-- `doPendingFunctions` of the loop, as far as it is about the client.
unfoldable pub do_pending : Client → Option Client
do_pending c = run_queue c.queue (record c { queue = [] })
