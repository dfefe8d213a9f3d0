-- ===== src/Echo/Clients.antt =====
-- `Client` of example/pingpong_client.cc with its sessions, which run in the threads of several loops.
-- The constructor runs in the main thread meanwhile: it starts a session, and then pushes it. A move is
-- what one thread does up to its next access to what they share: `onDisconnect` decrements the counter
-- and reads it again in two moves, and then reads the sessions one by one. What a session reads and writes of its own is in `sessions`; the
-- sums are numbers without bound. `setTcpNoDelay` and the lines of the log but one are left out.
pub mod Inv
mod Sums
mod Moves
pub mod Report
pub mod Sessions
mod Examples
use learn_for_cpp.Base.{
  ℕ, zero, suc, ◌+◌, ◌%◌, Bool, true, false, Option, none, some, List, [], ◌∷◌, ◌++◌, ltb, put,
  ◌==◌, if◌then◌else◌, ◌>>=◌, ◌>>◌, assert,
}
use learn_for_cpp.Thread.Counter.{new_counter, get, increment_and_get, decrement}
use learn_for_cpp.TcpConnection.{Connection, Write, send}
use learn_for_cpp.TcpServer.{ThreadPool, get_next_loop}
use learn_for_cpp.TcpClient.{Client, disconnect}
use learn_for_cpp.Echo.{Session, new_session, session_on_message}

-- The sums of `onDisconnect`.
pub record Totals : Type 0 where
  pub bytes_read : ℕ
  pub messages_read : ℕ

abbrev pub no_totals : Totals
no_totals = record { bytes_read = 0; messages_read = 0 }

-- Where a session is: its connection is not there yet, it is up, it went down and is counted out,
-- `onDisconnect` found the count 0 and has summed that many sessions, and `onDisconnect` has returned.
pub data Place : Type 0 where
  awaited playing leaving left : Place
  summing : ℕ → Totals → Place

abbrev pub is_awaited : Place → Bool
is_awaited awaited = true
is_awaited _ = false

abbrev pub is_playing : Place → Bool
is_playing playing = true
is_playing _ = false

abbrev pub summing_at : Place → Option (ℕ × Totals)
summing_at (summing k t) = some (k, t)
summing_at _ = none

abbrev pub is_leaving : Place → Bool
is_leaving leaving = true
is_leaving _ = false

pub record World : Type 0 where
  -- The sessions that the constructor has started, and those of them that are in `sessions_`.
  pub started : ℕ
  pub pushed : ℕ
  pub num_connected : ℕ
  pub places : ℕ → Place
  pub sessions : ℕ → Session
  -- The lines "all connected" in the log.
  pub all_connected : ℕ
  -- The sums that were printed, the last ones first.
  pub reports : List Totals
  -- The calls of `loop_->quit()`.
  pub quits : ℕ

unfoldable pub new_world : World
new_world = record {
  started = 0;
  pushed = 0;
  num_connected = new_counter;
  places = λ i. awaited;
  sessions = λ i. new_session;
  all_connected = 0;
  reports = [];
  quits = 0;
}

-- `message_`, as the loop of the constructor leaves it.
pub message : ℕ → List ℕ
message zero = []
message (suc i) = message i ++ (i % 128 ∷ [])

-- The loops of the sessions, from the pool.
pub session_loops : ThreadPool → ℕ → Option (List ℕ × ThreadPool)
session_loops p zero = some ([], p)
session_loops p (suc i) = do
  (loop, p') ← get_next_loop p
  (loops, p'') ← session_loops p' i
  some (loop ∷ loops, p'')

-- `incrementAndGet` is one access; `count` is the number of sessions.
pub on_connect : ℕ → World → World
on_connect count w =
    let (n, value) = increment_and_get 32 w.num_connected in
    let w' : World = record w { num_connected = value } in
    if n == count then record w' { all_connected = w'.all_connected + 1 } else w'

-- `onDisconnect`, up to its `get`, and from there.
pub leave : World → World
leave w = record w { num_connected = decrement 32 w.num_connected }

pub check_empty : World → ℕ → World
check_empty w i = record w {
  places = put w.places i (if get w.num_connected == 0 then summing 0 no_totals else left);
}

-- The loop over `sessions_`, which holds the first sessions by their number: it reads one session, or
-- it is at its end, and the sums are printed.
abbrev pub add_session : Totals → Session → Totals
add_session t s = record {
  bytes_read = t.bytes_read + s.bytes_read;
  messages_read = t.messages_read + s.messages_read;
}

pub sum_next : World → ℕ → ℕ → Totals → World
sum_next w i k t =
    if ltb k w.pushed
    then record w { places = put w.places i (summing (k + 1) (add_session t (w.sessions k))) }
    else record w { reports = t ∷ w.reports; quits = w.quits + 1; places = put w.places i left }

-- `Session::onConnection` of a connection that is up: the first message, then `onConnect`.
pub on_connected : ℕ → ℕ → World → Connection → Write → Option (Connection × World)
on_connected count block_size w c wr = do
  c' ← send c true (message block_size) wr
  some (c', on_connect count w)

-- `handleTimeout`, in the thread of the main loop: `stop` of every session is `disconnect` of its client.
-- `shared` is whether the sessions run in the main loop, since the pool has no thread.
pub handle_timeout : Bool → List Client → Option (List Client)
handle_timeout shared [] = some []
handle_timeout shared (c ∷ cs) = do
  c' ← disconnect c shared
  cs' ← handle_timeout shared cs
  some (c' ∷ cs')

pub data Event : Type 0 where
  starts_session : Event
  pushes_session : Event
  connects : ℕ → Connection → Write → Event
  reads : ℕ → Connection → Write → Event
  drops : ℕ → Event
  checks : ℕ → Event
  sums : ℕ → Event

-- One move: of the constructor, which starts a session and then pushes it, or of a session that has
-- started and is at the place for it.
unfoldable pub move : ℕ → ℕ → Event → World → Option World
move count block_size starts_session w = do
  assert (w.started == w.pushed)
  assert (ltb w.started count)
  some (record w { started = w.started + 1 })
move count block_size pushes_session w = do
  assert (w.started == w.pushed + 1)
  some (record w { pushed = w.pushed + 1 })
move count block_size (connects i c wr) w = do
  assert (ltb i w.started)
  assert (is_awaited (w.places i))
  (c', w') ← on_connected count block_size w c wr
  some (record w' { places = put w'.places i playing })
move count block_size (reads i c wr) w = do
  assert (ltb i w.started)
  assert (is_playing (w.places i))
  (s, c') ← session_on_message (w.sessions i) c wr
  some (record w { sessions = put w.sessions i s })
move count block_size (drops i) w = do
  assert (ltb i w.started)
  assert (is_playing (w.places i))
  some (record (leave w) { places = put w.places i leaving })
move count block_size (checks i) w = do
  assert (ltb i w.started)
  assert (is_leaving (w.places i))
  some (check_empty w i)
move count block_size (sums i) w = do
  assert (ltb i w.started)
  (k, t) ← summing_at (w.places i)
  some (sum_next w i k t)

pub moves : ℕ → ℕ → List Event → World → Option World
moves count block_size [] w = some w
moves count block_size (e ∷ es) w = move count block_size e w >>= moves count block_size es
