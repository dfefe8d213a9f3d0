-- ===== src/Channel.antt =====
-- reactor/Channel.h and Channel.cc: one file descriptor, the events that it asks for, and the
-- callbacks that an event runs. The constants of sys/epoll.h are single bits, so a mask is a record
-- with a field for each bit that the code uses. `update` goes through the loop to the `Epoller`: an
-- operation that calls it returns the channel, and its caller passes it on.
pub mod Dispatch
mod Examples
use learn_for_cpp.Base.{ℕ, Bool, true, false, not, ◌&&◌, ◌||◌, List, [], ◌∷◌, ◌++◌, if◌then◌else◌}

-- EPOLLIN, EPOLLPRI, EPOLLOUT, EPOLLERR, EPOLLRDHUP, EPOLLET.
pub record Events : Type 0 where
  pub readable : Bool
  pub priority : Bool
  pub writable : Bool
  pub error : Bool
  pub peer_closed : Bool
  pub edge : Bool

-- `kNoneEvent`.
abbrev pub none_event : Events
none_event = record {
  readable = false;
  priority = false;
  writable = false;
  error = false;
  peer_closed = false;
  edge = false;
}

-- `events_ == kNoneEvent`; its negation is `events_ > 0`.
abbrev pub is_none : Events → Bool
is_none e = not (e.readable || e.priority || e.writable || e.error || e.peer_closed || e.edge)

-- Which callbacks are set.
pub record Callbacks : Type 0 where
  pub read : Bool
  pub write : Bool
  pub error : Bool
  pub close : Bool

pub record Channel : Type 0 where
  pub fd : ℕ
  pub enable_et : Bool
  pub registered : Bool
  pub event_handling : Bool
  pub events : Events
  pub revents : Events
  pub callbacks : Callbacks

unfoldable pub new_channel : ℕ → Bool → Channel
new_channel fd enable_et = record {
  fd = fd;
  enable_et = enable_et;
  registered = false;
  event_handling = false;
  events = none_event;
  revents = none_event;
  callbacks = record { read = false; write = false; error = false; close = false };
}

-- `events_ |= kReadEvent`, and EPOLLET where the channel is edge-triggered.
unfoldable pub enable_reading : Channel → Channel
enable_reading c = record c {
  events = record (c.events) {
    readable = true;
    priority = true;
    peer_closed = true;
    edge = if c.enable_et then true else c.events.edge;
  };
}

unfoldable pub enable_writing : Channel → Channel
enable_writing c = record c { events = record (c.events) { writable = true } }

unfoldable pub disable_writing : Channel → Channel
disable_writing c = record c { events = record (c.events) { writable = false } }

unfoldable pub disable_all : Channel → Channel
disable_all c = record c { events = none_event }

abbrev pub is_writing : Channel → Bool
is_writing c = c.events.writable

unfoldable pub set_revents : Channel → Events → Channel
set_revents c e = record c { revents = e }

pub data Call : Type 0 where
  close_call error_call read_call write_call : Call

-- One of the four tests of `handleEvent`: the callback runs if the event is there and it is set.
abbrev pub fire : Bool → Bool → Call → List Call
fire happened is_set call = if happened then (if is_set then call ∷ [] else []) else []

-- The callbacks that `handleEvent` runs, in order. They see `event_handling` true.
unfoldable pub handle_event : Channel → List Call × Channel
handle_event c = (
  fire (r.peer_closed && not r.readable) c.callbacks.close close_call
      ++ (fire r.error c.callbacks.error error_call
          ++ (fire (r.readable || (r.priority || r.peer_closed)) c.callbacks.read read_call
              ++ fire r.writable c.callbacks.write write_call)),
  record c { event_handling = false },
)
  where
    open c use {revents as r}
