-- ===== src/Acceptor.antt =====
-- reactor/Acceptor.h and Acceptor.cc: the channel of the listening socket. What `accept4` returns is an
-- argument; `socketops::accept` passes it on as it is, whatever the error number. The system calls that
-- set the socket up are left out. `in_thread` is `isInLoopThread()`; elsewhere the program ends.
use learn_for_cpp.Base.{ℕ, Bool, true, false, Option, none, some, List, [], ◌∷◌, ◌>>◌, assert}
use learn_for_cpp.Channel.{Channel, new_channel, enable_reading}

pub record Acceptor : Type 0 where
  pub channel : Channel
  pub listenning : Bool
  -- Whether `newConnectionCallback_` is set.
  pub has_callback : Bool
  -- The descriptors that `socketops::closefd` closed.
  pub closed : List ℕ

unfoldable pub new_acceptor : ℕ → Acceptor
new_acceptor fd =
    let c = new_channel fd false in
    record {
      channel = record c { callbacks = record (c.callbacks) { read = true } };
      listenning = false;
      has_callback = false;
      closed = [];
    }

abbrev pub set_new_connection_callback : Acceptor → Acceptor
set_new_connection_callback a = record a { has_callback = true }

unfoldable pub listen : Bool → Acceptor → Option Acceptor
listen in_thread a = do
  assert in_thread
  some (record a { channel = enable_reading a.channel; listenning = true })

-- A descriptor, or a negative result with its `errno`.
pub data Accept : Type 0 where
  accepted : ℕ → Accept
  accept_error : ℕ → Accept

-- The descriptor handed to the callback, if any.
unfoldable pub handle_read : Bool → Acceptor → Accept → Option (Option ℕ × Acceptor)
handle_read in_thread a (accepted fd) = do
  assert in_thread
  some (elim a.has_callback [
    | true ↦ (some fd, a)
    | false ↦ (none, record a { closed = fd ∷ a.closed })
  ])
handle_read in_thread a (accept_error errno) = do assert in_thread; some (none, a)
