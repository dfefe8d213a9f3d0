-- ===== src/Connector.antt =====
-- reactor/Connector.h and Connector.cc: opening a connection, and trying again after growing delays.
-- The descriptor that `createNonblockingOrDie` made and the results of system calls are arguments. What
-- a handler does to the outside is put at the front of `effects`. A failed assertion, or a use of the
-- channel that is not there, is `none`.
pub mod Sockets
pub mod Run
pub mod Backoff
pub mod Attempt
mod Examples
use learn_for_cpp.Base.{
  ℕ, ◌+◌, ◌*◌, ◌≤◌, Bool, true, false, not, Option, none, some, List, [], ◌∷◌, min, ◌==◌,
  if◌then◌else◌, ◌>>=◌, ◌>>◌, assert,
}
use learn_for_cpp.Channel.{Channel, Callbacks, new_channel, enable_writing, disable_all}

-- `States`.
pub data State : Type 0 where
  disconnected connecting connected : State

abbrev pub is_disconnected : State → Bool
is_disconnected disconnected = true
is_disconnected _ = false

abbrev pub is_connecting : State → Bool
is_connecting connecting = true
is_connecting _ = false

-- `savedErrno`, by the names of errno.h.
pub data Errno : Type 0 where
  no_error einprogress eintr eisconn : Errno
  eagain eaddrinuse eaddrnotavail econnrefused enetunreach : Errno
  eacces eperm eafnosupport ealready ebadf efault enotsock : Errno
  other_error : Errno

pub data Effect : Type 0 where
  -- `createNonblockingOrDie` and `closefd`.
  opened closed : ℕ → Effect
  -- `newConnectionCallBack_`.
  new_connection : ℕ → Effect
  -- `runAfter` of `startInLoop`, in milliseconds, and `queueInLoop` of `resetChannel`.
  run_after : ℕ → Effect
  queue_start queue_reset : Effect
  update_channel remove_channel : Effect
  log_error : Effect

abbrev pub max_retry_delay_ms : ℕ
max_retry_delay_ms = 30 * 1000

abbrev pub init_retry_delay_ms : ℕ
init_retry_delay_ms = 500

pub record Connector : Type 0 where
  pub connect : Bool
  pub state : State
  pub channel : Option Channel
  pub retry_delay_ms : ℕ
  pub effects : List Effect

abbrev pub emit : Connector → Effect → Connector
emit c e = record c { effects = e ∷ c.effects }

unfoldable pub new_connector : Connector
new_connector = record {
  connect = false;
  state = disconnected;
  channel = none;
  retry_delay_ms = init_retry_delay_ms;
  effects = [];
}

abbrev pub is_null : Option Channel → Bool
is_null none = true
is_null (some c) = false

-- The channel of a new socket, with the two callbacks set, asking for writing.
unfoldable pub connecting_channel : ℕ → Channel
connecting_channel sockfd = enable_writing (record (new_channel sockfd true) {
  callbacks = record { read = false; write = true; error = true; close = false };
})

-- `Connector::connecting`.
unfoldable pub begin_connecting : Connector → ℕ → Option Connector
begin_connecting c sockfd = do
  assert (is_null c.channel)
  let c' : Connector = record c { state = connecting; channel = some (connecting_channel sockfd) }
  some (emit c' update_channel)

unfoldable pub retry : Connector → ℕ → Connector
retry c sockfd =
    let c' : Connector = record (emit c (closed sockfd)) { state = disconnected } in
    if c.connect
    then record (emit c' (run_after c.retry_delay_ms)) {
      retry_delay_ms = min (c.retry_delay_ms * 2) max_retry_delay_ms;
    }
    else c'

-- The cases of the `switch` that fail for good.
abbrev pub give_up : Connector → ℕ → Connector
give_up c sockfd = emit (emit c log_error) (closed sockfd)

-- The `switch` of `connect`.
unfoldable pub after_connect : Connector → ℕ → Errno → Option Connector
after_connect c sockfd no_error = begin_connecting c sockfd
after_connect c sockfd einprogress = begin_connecting c sockfd
after_connect c sockfd eintr = begin_connecting c sockfd
after_connect c sockfd eisconn = begin_connecting c sockfd
after_connect c sockfd eagain = some (retry c sockfd)
after_connect c sockfd eaddrinuse = some (retry c sockfd)
after_connect c sockfd eaddrnotavail = some (retry c sockfd)
after_connect c sockfd econnrefused = some (retry c sockfd)
after_connect c sockfd enetunreach = some (retry c sockfd)
after_connect c sockfd eacces = some (give_up c sockfd)
after_connect c sockfd eperm = some (give_up c sockfd)
after_connect c sockfd eafnosupport = some (give_up c sockfd)
after_connect c sockfd ealready = some (give_up c sockfd)
after_connect c sockfd ebadf = some (give_up c sockfd)
after_connect c sockfd efault = some (give_up c sockfd)
after_connect c sockfd enotsock = some (give_up c sockfd)
after_connect c sockfd other_error = some (give_up c sockfd)

-- `Connector::connect`, with the socket and what `::connect` left in `errno`.
unfoldable pub do_connect : Connector → ℕ → Errno → Option Connector
do_connect c sockfd errno = after_connect (emit c (opened sockfd)) sockfd errno

unfoldable pub start_in_loop : Connector → ℕ → Errno → Option Connector
start_in_loop c sockfd errno = do
  assert (is_disconnected c.state)
  if c.connect then do_connect c sockfd errno else some c

-- `start`, called in the loop thread or in another one.
unfoldable pub start : Connector → Bool → ℕ → Errno → Option Connector
start c in_loop sockfd errno =
    let c' : Connector = record c { connect = true } in
    if in_loop then start_in_loop c' sockfd errno else some (emit c' queue_start)

unfoldable pub restart : Connector → ℕ → Errno → Option Connector
restart c sockfd errno =
    start_in_loop
      (record c { state = disconnected; retry_delay_ms = init_retry_delay_ms; connect = true })
      sockfd errno

unfoldable pub stop : Connector → Connector
stop c = record c { connect = false }

-- `removeAndResetChannel`: the descriptor, and the channel with no events, until `resetChannel` runs.
unfoldable pub remove_and_reset_channel : Connector → Option (ℕ × Connector)
remove_and_reset_channel c = do
  channel ← c.channel
  let c' : Connector = record c { channel = some (disable_all channel) }
  some (channel.fd, emit (emit (emit c' update_channel) remove_channel) queue_reset)

unfoldable pub reset_channel : Connector → Connector
reset_channel c = record c { channel = none }

-- `handleWrite`, with the socket's error number and whether it is connected to itself.
unfoldable pub handle_write : Connector → ℕ → Bool → Option Connector
handle_write c err self_connect =
    if is_connecting c.state
    then (do
      (sockfd, c') ← remove_and_reset_channel c
      let up : Connector = record c' { state = connected }
      some (
          if not (err == 0)
          then retry c' sockfd
          else if self_connect
          then retry c' sockfd
          else if c'.connect
          then emit up (new_connection sockfd)
          else emit up (closed sockfd)))
    else (do assert (is_disconnected c.state); some c)

unfoldable pub handle_error : Connector → Option Connector
handle_error c = do
  assert (is_connecting c.state)
  (sockfd, c') ← remove_and_reset_channel (emit c log_error)
  some (retry c' sockfd)
