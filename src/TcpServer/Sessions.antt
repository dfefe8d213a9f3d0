-- ===== src/TcpServer/Sessions.antt =====
-- A server with the objects of its connections, in the thread of its loop: `TcpServer` together with the
-- handlers of `TcpConnection` and the functions that both hand to the loop. `removeConnection` runs
-- `removeConnectionInLoop` at once there, and `connectDestoryed` waits in the queue.
pub mod Inv
mod Steps
pub mod Ends
mod Examples
use learn_for_cpp.Base.{ℕ, Bool, true, false, Option, none, some, List, [], ◌∷◌, ◌++◌, put, ◌>>=◌}
use learn_for_cpp.Buffer.{Readv, failed, got}
use learn_for_cpp.Acceptor
use learn_for_cpp.Acceptor.{Accept}
use learn_for_cpp.TcpConnection
use learn_for_cpp.TcpConnection.{
  Connection, Write, connect_established, connect_destroyed, handle_read, handle_write,
  handle_close, send,
}
use learn_for_cpp.TcpServer.{Server, accept_event, remove_connection_in_loop}

pub record World : Type 0 where
  pub server : Server
  -- The objects that the map or the queue keeps.
  pub conns : ℕ → Option Connection
  -- The connections whose `connectDestoryed` is queued.
  pub queue : List ℕ

unfoldable pub new_world : Server → World
new_world s = record { server = s; conns = λ n. none; queue = [] }

-- `newConnection` makes the object and establishes it.
abbrev pub establish : World → Server → Option ℕ → Option World
establish w s none = some (record w { server = s })
establish w s (some sockfd) = do
  conn ← connect_established (TcpConnection.new_connection sockfd)
  some (record w { server = s; conns = put w.conns w.server.next_conn (some conn) })

-- The listening socket is readable.
unfoldable pub accept : World → Accept → Option World
accept w r = do
  (sockfd, a) ← Acceptor.handle_read true w.server.acceptor r
  s ← accept_event w.server r
  establish w s sockfd

-- The close callback of connection `n`, whose object is now `conn`.
pub remove_connection : World → ℕ → Connection → Option World
remove_connection w n conn = do
  s ← remove_connection_in_loop w.server n
  some (record w { server = s; conns = put w.conns n (some conn); queue = w.queue ++ (n ∷ []) })

-- The peer closed: `handleClose`.
pub close_event : World → ℕ → Option World
close_event w n = do conn ← w.conns n; conn' ← handle_close conn; remove_connection w n conn'

-- `handleRead`, which calls `handleClose` where no byte came.
abbrev pub after_read : World → ℕ → Connection → Readv → Option World
after_read w n conn (got []) = remove_connection w n conn
after_read w n conn r = some (record w { conns = put w.conns n (some conn) })

unfoldable pub read_event : World → ℕ → Readv → Option World
read_event w n r = do conn ← w.conns n; conn' ← handle_read conn r; after_read w n conn' r

unfoldable pub write_event : World → ℕ → Write → Option World
write_event w n wr = do
  conn ← w.conns n
  conn' ← handle_write conn wr
  some (record w { conns = put w.conns n (some conn') })

-- The user's calls.
unfoldable pub send_to : World → ℕ → List ℕ → Write → Option World
send_to w n message wr = do
  conn ← w.conns n
  conn' ← send conn true message wr
  some (record w { conns = put w.conns n (some conn') })

unfoldable pub shut_down : World → ℕ → Option World
shut_down w n = do
  conn ← w.conns n
  some (record w { conns = put w.conns n (some (TcpConnection.shutdown conn true)) })

-- `doPendingFunctions`: each object ends with the function that is bound to it.
pub run_queue : List ℕ → World → Option World
run_queue [] w = some w
run_queue (n ∷ ns) w = do
  conn ← w.conns n
  conn' ← connect_destroyed conn
  run_queue ns (record w { conns = put w.conns n none })

pub do_pending : World → Option World
do_pending w = run_queue w.queue (record w { queue = [] })
