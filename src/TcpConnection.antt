-- ===== src/TcpConnection.antt =====
-- reactor/TcpConnection.h and TcpConnection.cc. The handlers run in the connection's loop thread. What
-- a system call returns is an argument; what a handler does to the outside (bytes given to the kernel,
-- callbacks, functions handed to the loop) is appended to `effects`. A failed assertion is `none`.
pub mod Flow
pub mod Output
pub mod Session
pub mod Lifecycle
pub mod Lives
pub mod Drain
pub mod Input
mod Examples
use learn_for_cpp.Base.{
  ℕ, Bool, true, false, not, ◌&&◌, ◌||◌, Option, none, some, List, [], ◌∷◌, ◌++◌, length, take,
  drop, ltb, ◌==◌, if◌then◌else◌, ◌>>=◌, ◌>>◌, assert, read_range,
}
use learn_for_cpp.Buffer
use learn_for_cpp.Buffer.{Buffer, Readv, failed, got, readable_bytes, read_fd, retrieve, new_buffer}
use learn_for_cpp.Channel.{
  Channel, Callbacks, new_channel, is_writing, enable_reading, enable_writing, disable_writing,
  disable_all,
}

-- `stateE`.
pub data State : Type 0 where
  connecting connected disconnecting disconnected : State

abbrev pub is_connecting : State → Bool
is_connecting connecting = true
is_connecting _ = false

abbrev pub is_connected : State → Bool
is_connected connected = true
is_connected _ = false

abbrev pub is_disconnecting : State → Bool
is_disconnecting disconnecting = true
is_disconnecting _ = false

pub data Effect : Type 0 where
  -- `::write` took these bytes.
  sent : List ℕ → Effect
  -- `socket_->shutdownWrite()`.
  shut_write : Effect
  -- `channel_->update()` and `loop_->removeChannel`.
  update_channel remove_channel : Effect
  -- The callbacks, run at once.
  connection_callback message_callback close_callback : Effect
  -- Functions handed to the loop.
  queue_write_complete queue_shutdown : Effect
  queue_send : List ℕ → Effect
  -- A line of the log at level ERROR.
  log_error : Effect

-- What `::write` returned: a number of bytes, or -1 with EWOULDBLOCK or another error number.
pub data Write : Type 0 where
  wrote : ℕ → Write
  would_block write_error : Write

pub record Connection : Type 0 where
  pub state : State
  pub channel : Channel
  pub input_buffer : Buffer
  pub output_buffer : Buffer
  pub has_write_complete : Bool
  pub effects : List Effect

abbrev pub emit : Connection → Effect → Connection
emit c e = record c { effects = c.effects ++ (e ∷ []) }

-- The constructor sets all four callbacks of the channel.
unfoldable pub new_connection : ℕ → Connection
unfolding new_channel new_buffer
new_connection sockfd = record {
  state = connecting;
  channel = record (new_channel sockfd false) {
    callbacks = record { read = true; write = true; error = true; close = true };
  };
  input_buffer = new_buffer;
  output_buffer = new_buffer;
  has_write_complete = false;
  effects = [];
}

-- The `::write` of `sendInLoop`, with the number of bytes that it counts as written.
unfoldable pub direct_write : Connection → List ℕ → Write → Connection × ℕ
direct_write c message (wrote n) =
    let c' = emit c (sent (take n message)) in
    (
      if ltb n (length message)
          then c'
          else if c.has_write_complete
          then emit c' queue_write_complete
          else c',
      n,
    )
direct_write c message would_block = (c, 0)
direct_write c message write_error = (emit c log_error, 0)

-- What follows in `sendInLoop`: the rest goes to the output buffer, and the channel asks for writing.
unfoldable pub buffer_rest : Connection → List ℕ → ℕ → Option Connection
buffer_rest c message nwrote =
    if ltb nwrote (length message)
    then (do
      out ← Buffer.append c.output_buffer (drop nwrote message)
      let c' : Connection = record c { output_buffer = out }
      some (
          if is_writing c.channel
          then c'
          else emit (record c' { channel = enable_writing c.channel }) update_channel))
    else some c

-- The condition is the source's: not writing, and bytes in the output buffer.
unfoldable pub send_in_loop : Connection → List ℕ → Write → Option Connection
send_in_loop c message w =
    if not (is_writing c.channel) && not (readable_bytes c.output_buffer == 0)
    then (let (c', n) = direct_write c message w in buffer_rest c' message n)
    else buffer_rest c message 0

-- `send`, called in the loop thread or in another one.
unfoldable pub send : Connection → Bool → List ℕ → Write → Option Connection
send c in_loop message w =
    if is_connected c.state
    then (if in_loop then send_in_loop c message w else some (emit c (queue_send message)))
    else some c

pub shutdown_in_loop : Connection → Connection
shutdown_in_loop c = if is_writing c.channel then c else emit c shut_write

pub shutdown : Connection → Bool → Connection
shutdown c in_loop =
    if is_connected c.state
    then (let c' : Connection = record c { state = disconnecting } in
        if in_loop then shutdown_in_loop c' else emit c' queue_shutdown)
    else c

unfoldable pub connect_established : Connection → Option Connection
connect_established c = do
  assert (is_connecting c.state)
  let c' = emit (record c { channel = enable_reading c.channel }) update_channel
  some (emit (record c' { state = connected }) connection_callback)

unfoldable pub handle_error : Connection → Connection
handle_error c = emit c log_error

unfoldable pub handle_close : Connection → Option Connection
handle_close c = do
  assert (is_connected c.state || is_disconnecting c.state)
  some (emit (emit (record c { channel = disable_all c.channel }) update_channel) close_callback)

-- `readFd` returned an error, no byte (the peer closed), or some bytes.
unfoldable pub after_read : Connection → Readv → Option Connection
after_read c (failed errno) = some (handle_error (emit c log_error))
after_read c (got []) = handle_close c
after_read c (got (x ∷ xs)) = some (emit c message_callback)

unfoldable pub handle_read : Connection → Readv → Option Connection
handle_read c r = do
  (buf, errno) ← read_fd c.input_buffer r
  after_read (record c { input_buffer = buf }) r

-- What `handleWrite` does when the output buffer is empty after a write.
pub write_completed : Connection → Connection
write_completed c =
    let c1 = emit (record c { channel = disable_writing c.channel }) update_channel in
    let c2 = (if c.has_write_complete then emit c1 queue_write_complete else c1) in
    if is_disconnecting c.state then shutdown_in_loop c2 else c2

-- `n > 0` in the source: a write of no byte is logged as an error, too.
pub after_write : Connection → ℕ → Option Connection
after_write c n = do
  out ← retrieve c.output_buffer n
  let c' : Connection = record c { output_buffer = out }
  some (if readable_bytes out == 0 then write_completed c' else c')

pub written : Connection → List ℕ → Write → Option Connection
written c bytes (wrote n) =
    if n == 0 then some (emit c log_error) else after_write (emit c (sent (take n bytes))) n
written c bytes would_block = some (emit c log_error)
written c bytes write_error = some (emit c log_error)

-- All readable bytes are offered to `::write`.
unfoldable pub handle_write : Connection → Write → Option Connection
handle_write c w =
    if is_writing c.channel
    then (do
      bytes ←
          read_range c.output_buffer.buffer c.output_buffer.reader_index
            (readable_bytes c.output_buffer)
      written c bytes w)
    else some c

pub connect_destroyed : Connection → Option Connection
connect_destroyed c = do
  assert (is_connected c.state || is_disconnecting c.state)
  let c' : Connection = record c { state = disconnected; channel = disable_all c.channel }
  some (emit (emit (emit c' update_channel) connection_callback) remove_channel)
