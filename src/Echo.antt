-- ===== src/Echo.antt =====
-- example/echo.cc and pingpong_server.cc: a server whose message callback sends back what it takes
-- from the input buffer, and the session of example/pingpong_client.cc, which also counts. The callback
-- runs inside `TcpConnection::handleRead`, which has no step behind it.
pub mod Served
pub mod Counted
pub mod Clients
mod Examples
use learn_for_cpp.Base.{ℕ, ◌+◌, Bool, true, false, Option, none, some, List, [], ◌∷◌, length, ◌>>=◌}
use learn_for_cpp.Buffer.{Buffer, Readv, failed, got, retrieve_as_string, readable_bytes}
use learn_for_cpp.TcpConnection.{Connection, Write, handle_read, send}

-- `EchoServer::onMessage`, with what a direct `::write` would return.
pub on_message : Connection → Write → Option Connection
on_message c w = do
  (msg, buf) ← retrieve_as_string c.input_buffer
  send (record c { input_buffer = buf }) true msg w

-- The message callback runs where bytes came.
abbrev pub answer : Connection → Readv → Write → Option Connection
answer c (failed errno) w = some c
answer c (got []) w = some c
answer c (got (x ∷ xs)) w = on_message c w

-- `handleRead` of an echoing connection.
pub read_event : Connection → Readv → Write → Option Connection
read_event c r w = do c' ← handle_read c r; answer c' r w

-- The counters of a `Session` of the client (no int64_t overflow).
pub record Session : Type 0 where
  pub bytes_read : ℕ
  pub bytes_written : ℕ
  pub messages_read : ℕ

unfoldable pub new_session : Session
new_session = record { bytes_read = 0; bytes_written = 0; messages_read = 0 }

-- `Session::onMessage`.
pub session_on_message : Session → Connection → Write → Option (Session × Connection)
session_on_message s c w = do
  let n = readable_bytes c.input_buffer
  c' ← on_message c w
  some (
    record {
      bytes_read = s.bytes_read + n;
      bytes_written = s.bytes_written + n;
      messages_read = s.messages_read + 1;
    },
    c',
  )

abbrev pub session_answer : Session → Connection → Readv → Write → Option (Session × Connection)
session_answer s c (failed errno) w = some (s, c)
session_answer s c (got []) w = some (s, c)
session_answer s c (got (x ∷ xs)) w = session_on_message s c w

pub session_read_event : Session → Connection → Readv → Write → Option (Session × Connection)
session_read_event s c r w = do c' ← handle_read c r; session_answer s c' r w
