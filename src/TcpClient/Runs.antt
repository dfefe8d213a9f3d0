-- ===== src/TcpClient/Runs.antt =====
-- The calls of a user and the events of a client, together.
use learn_for_cpp.Base.{
  ℕ, Bool, true, false, ◌&&◌, none, some, List, [], ◌≡◌, ◌⊎◌, inl, refl, ◌∙◌, subst, arith,
}
use learn_for_cpp.Connector.{Errno, is_null, new_connector}
use learn_for_cpp.Connector.Attempt.{is_tidy}
use learn_for_cpp.TcpClient.{
  Client, new_client, enable_retry, set_write_complete, connect_client, disconnect, stop,
  is_connection, connector_write, connector_error, timer, close_event, do_pending, send_to,
  write_event, read_event,
}
use learn_for_cpp.TcpClient.Inv.{Inv, fits, held, lives_at}
use learn_for_cpp.TcpClient.Traffic.{send-Inv, write_event-Inv, read_event-Inv, read_event-none}
use learn_for_cpp.Buffer.{Readv, got}
use learn_for_cpp.TcpConnection.{Write}
use learn_for_cpp.TcpClient.Steps.{
  connect-Inv, timer-Inv, stop-Inv, enable_retry-Inv, set_write_complete-Inv, disconnect-Inv,
  write-Inv, error-Inv,
}
use learn_for_cpp.TcpClient.Ends.{close-Inv, pend-Inv}

-- Calls of the user in the thread of the loop, and events of the loop, without a failed assertion. A
-- round's handlers run when nothing is queued; an event of the connector's socket needs its channel.
-- `handleClose` is called once for a connection, by the close callback or by a read that finds the
-- end.
pub data Runs : Client → Type 0 where
  begins : Runs new_client
  retries : {c : Client} → Runs c → Runs (enable_retry c)
  sets_callback : {c : Client} → Runs c → Runs (set_write_complete c)
  stops : {c : Client} → Runs c → Runs (stop c)
  connects :
      {c c' : Client} (fd : ℕ) (errno : Errno)
      → Runs c
      → connect_client c true fd errno ≡ some c'
      → Runs c'
  disconnects : {c c' : Client} → Runs c → disconnect c true ≡ some c' → Runs c'
  times : {c c' : Client} (fd : ℕ) (errno : Errno) → Runs c → timer c fd errno ≡ some c' → Runs c'
  writes :
      {c c' : Client} (err : ℕ) (self : Bool)
      → Runs c
      → c.queue ≡ []
      → is_null c.connector.channel ≡ false
      → connector_write c err self ≡ some c'
      → Runs c'
  errs :
      {c c' : Client}
      → Runs c
      → c.queue ≡ []
      → is_null c.connector.channel ≡ false
      → connector_error c ≡ some c'
      → Runs c'
  closes :
      {c c' : Client} (n fd : ℕ) (errno : Errno)
      → Runs c
      → c.queue ≡ []
      → c.connection ≡ some n
      → close_event c n fd errno ≡ some c'
      → Runs c'
  sends :
      {c c' : Client} (n : ℕ) (message : List ℕ) (w : Write)
      → Runs c
      → held c.connection c.queue ≡ some n
      → send_to c n message w ≡ some c'
      → Runs c'
  write_events :
      {c c' : Client} (n : ℕ) (w : Write)
      → Runs c
      → held c.connection c.queue ≡ some n
      → write_event c n w ≡ some c'
      → Runs c'
  read_events :
      {c c' : Client} (n fd : ℕ) (r : Readv) (errno : Errno)
      → Runs c
      → c.queue ≡ []
      → c.connection ≡ some n
      → read_event c n r fd errno ≡ some c'
      → Runs c'
  pends : {c c' : Client} → Runs c → do_pending c ≡ some c' → Runs c'

Runs-Inv : (c : Client) → Runs c → Inv c
Runs-Inv c begins = begins_lem
  where
    begins_lem : Inv new_client
    begins_lem =
        unfold new_client in
        unfold new_connector in
        record { fitting = refl; live = refl; numbered = refl; only = λ k. inl refl }
Runs-Inv c (retries {c = d} run) = enable_retry-Inv d (Runs-Inv d run)
Runs-Inv c (sets_callback {c = d} run) = set_write_complete-Inv d (Runs-Inv d run)
Runs-Inv c (stops {c = d} run) = stop-Inv d (Runs-Inv d run)
Runs-Inv c (connects {c = d} fd errno run r) = connect-Inv d c fd errno (Runs-Inv d run) r
Runs-Inv c (disconnects {c = d} run r) = disconnect-Inv d c (Runs-Inv d run) r
Runs-Inv c (times {c = d} fd errno run r) = timer-Inv d c fd errno (Runs-Inv d run) r
Runs-Inv c (writes {c = d} err self run q there r) =
    let (c', r', v') = write-Inv d err self q there (Runs-Inv d run) in
    let same : c' ≡ c = ground (arith, r, r') in subst Inv same v'
Runs-Inv c (errs {c = d} run q there r) =
    let (c', r', v') = error-Inv d q there (Runs-Inv d run) in
    let same : c' ≡ c = ground (arith, r, r') in subst Inv same v'
Runs-Inv c (closes {c = d} n fd errno run q e r) =
    let (c', r', _, _, _, v') = close-Inv d n fd errno q e (Runs-Inv d run) in
    let same : c' ≡ c = ground (arith, r, r') in subst Inv same v'
Runs-Inv c (sends {c = d} n message w run h r) = send-Inv d c n message w h r (Runs-Inv d run)
Runs-Inv c (write_events {c = d} n w run h r) = write_event-Inv d c n w h r (Runs-Inv d run)
Runs-Inv c (read_events {c = d} n fd rd errno run q e r) =
    read_event-Inv d c n fd rd errno q e r (Runs-Inv d run)
Runs-Inv c (pends {c = d} run r) =
    let v = Runs-Inv d run in
    let (c', r', _, _, _, v') = pend-Inv d.connection d.queue d refl refl v.fitting v in
    let same : c' ≡ c = ground (arith, r, r') in subst Inv same v'

-- A client whose user called it only in the thread of its loop, and whose connection sent, wrote and
-- read in any way without a failed assertion, is told by the close callback that its connection is
-- lost, when nothing is queued: no assertion fails, neither in `removeConnection` nor in the
-- connector's `restart`; the client has no connection then, and the connector has made a new attempt
-- only if the client is to retry and to connect. When the loop has run its queue, the lost
-- connection and all others are gone, and the connector is connecting with a channel or at rest
-- without one. But if the read callback follows in the same round and finds the end, then
-- `handleClose` removes the connection again, and an assertion fails.
pub close_event-Runs :
    (c : Client) (n fd : ℕ) (errno : Errno)
    → Runs c
    → c.queue ≡ []
    → c.connection ≡ some n
    → (c' : Client) × (close_event c n fd errno ≡ some c')
      × (((c.retry && c.connect) ≡ true) ⊎ (c'.connector ≡ c.connector))
      × (read_event c' n (got []) fd errno ≡ none)
      × (c'' : Client) × (do_pending c' ≡ some c'')
      × (c''.connection ≡ none)
      × (is_tidy c''.connector ≡ true)
      × ((k : ℕ) → c''.conns k ≡ none)
close_event-Runs c n fd errno run q e =
    let (c', r, gone, queued, tried, v) = close-Inv c n fd errno q e (Runs-Inv c run) in
    let (c'', r', empty, same, tidy, v') =
      pend-Inv c'.connection c'.queue c' refl refl v.fitting v in
    (
      c',
      r,
      tried,
      read_event-none c' n fd errno gone,
      c'',
      r',
      same ∙ gone,
      tidy,
      λ k. ground (arith, v'.only k, empty, same, gone),
    )

-- Whatever the user calls in the thread of the loop, with nothing queued from other threads, and
-- whatever the connector and the connection do, as long as `handleClose` is called once for a
-- connection and no assertion has failed, a client has at most one connection: all objects but one
-- are gone, and that one is the client's, connected or disconnecting, or is about to be destroyed.
-- The connector has no channel while the client has a connection and nothing is queued, so no second
-- connection can come from it; and what is queued never fails an assertion.
pub connection-Runs :
    (c : Client)
    → Runs c
    → ((k : ℕ) → (c.conns k ≡ none) ⊎ (is_connection (held c.connection c.queue) k ≡ true))
      × (lives_at (held c.connection c.queue) c.conns ≡ true)
      × (fits c.connection c.queue c.connector ≡ true)
      × ((c' : Client) × (do_pending c ≡ some c'))
connection-Runs c run =
    let v = Runs-Inv c run in
    let (c', r, _, _, _, _) = pend-Inv c.connection c.queue c refl refl v.fitting v in
    (v.only, v.live, v.fitting, (c', r))
