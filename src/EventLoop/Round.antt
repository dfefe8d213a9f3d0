-- ===== src/EventLoop/Round.antt =====
-- A round of `EventLoop::loop` with its `Epoller` and its channels. What a channel's callback does is an
-- argument, and may change the poller. The functions of the queue act on the loop alone.
pub mod Answers
pub mod Dispatched
mod Examples
use learn_for_cpp.Base.{
  ℕ, Bool, true, false, not, ◌&&◌, ◌||◌, Option, none, some, List, [], ◌∷◌, put, if◌then◌else◌,
  ◌>>=◌, ◌>>◌, assert,
}
use learn_for_cpp.Channel.{
  Channel, Call, close_call, error_call, read_call, write_call, new_channel, enable_reading,
}
use learn_for_cpp.Epoller.{
  Epoller, Wait, new_epoller, epoll, update_channel_map, remove_channel_map,
}
use learn_for_cpp.EventLoop.{Loop, new_loop, handle_read, do_pending_functions}

pub record World : Type 0 where
  pub loop : Loop
  pub poller : Epoller

-- What the callback of a channel does.
abbrev pub Handler : Type 0
Handler = ℕ → Call → World → Option World

-- `assertInLoopThread` ends the program in another thread; `is_owner` is the assertion before it.
pub update_channel : Bool → Bool → World → ℕ → Bool → Option World
update_channel is_owner in_thread w a ok = do
  assert is_owner
  assert in_thread
  p ← update_channel_map w.poller a ok
  some (record w { poller = p })

pub remove_channel : Bool → Bool → World → ℕ → Bool → Option World
remove_channel is_owner in_thread w a ok = do
  assert is_owner
  assert in_thread
  p ← remove_channel_map w.poller a ok
  some (record w { poller = p })

abbrev pub set_channel : World → ℕ → Channel → World
set_channel w a c = record w { poller = record (w.poller) { objects = put w.poller.objects a c } }

-- The constructor: `has_loop` is whether the thread has a loop already, which ends the program. The
-- channel of the eventfd `fd` is at address `a`, and its read callback is `EventLoop::handleRead`.
pub create : Bool → (ℕ → Channel) → ℕ → ℕ → Bool → Option World
create has_loop objects a fd ok = do
  assert (not has_loop)
  let c = new_channel fd false
  let c' : Channel = record c { callbacks = record (c.callbacks) { read = true } }
  let w : World = record { loop = new_loop; poller = new_epoller objects }
  update_channel true true (set_channel w a (enable_reading c')) a ok

-- The test of `handleEvent` before a callback, and whether the callback is set.
abbrev pub happened : Channel → Call → Bool
happened c close_call = c.revents.peer_closed && not c.revents.readable
happened c error_call = c.revents.error
happened c read_call = c.revents.readable || (c.revents.priority || c.revents.peer_closed)
happened c write_call = c.revents.writable

abbrev pub is_set : Channel → Call → Bool
is_set c close_call = c.callbacks.close
is_set c error_call = c.callbacks.error
is_set c read_call = c.callbacks.read
is_set c write_call = c.callbacks.write

-- One of the four tests of `handleEvent`, on the channel as the callbacks before it left it.
pub run_call : Handler → ℕ → Call → World → Option World
run_call handler a call w =
    if happened (w.poller.objects a) call
    then (if is_set (w.poller.objects a) call then handler a call w else some w)
    else some w

abbrev pub set_handling : World → ℕ → Bool → World
set_handling w a b = set_channel w a (record (w.poller.objects a) { event_handling = b })

-- `Channel::handleEvent`.
pub handle_channel : Handler → ℕ → World → Option World
handle_channel handler a w = do
  w1 ← run_call handler a close_call (set_handling w a true)
  w2 ← run_call handler a error_call w1
  w3 ← run_call handler a read_call w2
  w4 ← run_call handler a write_call w3
  some (set_handling w4 a false)

pub handle_channels : Handler → List ℕ → World → Option World
handle_channels handler [] w = some w
handle_channels handler (a ∷ active) w = do
  w' ← handle_channel handler a w
  handle_channels handler active w'

-- The body of the loop, with what `epoll_wait` returned.
pub round : Handler → Wait → World → Option World
round handler wait w = do
  (active, p) ← epoll w.poller wait
  w' ← handle_channels handler active (record w { poller = p })
  some (record w' { loop = do_pending_functions w'.loop })

-- `EventLoop::loop`; with no round left it waits in `epoll`.
pub rounds : Handler → List Wait → World → Option World
rounds handler [] w =
    some (if w.loop.quit then record w { loop = record (w.loop) { looping = false } } else w)
rounds handler (wait ∷ waits) w =
    let next = round handler wait w >>= rounds handler waits in
    if w.loop.quit then some (record w { loop = record (w.loop) { looping = false } }) else next
