-- ===== src/TcpServer/Sessions/Ends.antt =====
-- How the connections of a server end.
use learn_for_cpp.Base.{
  ℕ, ◌≡◌, ◌≢◌, ◌↔◌, refl, sym, ap, ◌∙◌, subst, inl, inr, true, Option-cases, none, some, List, [],
  arith,
}
use learn_for_cpp.Buffer.{Readv, got}
use learn_for_cpp.Acceptor.{Accept}
use learn_for_cpp.TcpConnection
use learn_for_cpp.TcpConnection.{
  Connection, Write, connecting, connect_established, connect_destroyed, handle_read, handle_write,
  handle_close, send,
}
use learn_for_cpp.TcpConnection.Lifecycle.{shutdown-lives}
use learn_for_cpp.TcpConnection.Lives.{handle_write-lives, send-lives}
use learn_for_cpp.TcpServer.{Server, remove_connection_in_loop}
use learn_for_cpp.TcpServer.Connections
use learn_for_cpp.TcpServer.Connections.{Inv-Runs}
use learn_for_cpp.TcpServer.Sessions.{
  World, new_world, accept, remove_connection, close_event, read_event, write_event, send_to,
  shut_down, do_pending,
}
use learn_for_cpp.TcpServer.Sessions.Inv.{Inv, count, count-append}
use learn_for_cpp.TcpServer.Sessions.Steps.{
  accept-Inv, close_lem, read-Inv, on_object-Inv, pend_lem,
}

-- A server that was started, in its loop: it listens, and its connections have events while they are in
-- the map. The user sends and shuts down at any time that a connection is in the map.
pub data Runs (start_loop : ℕ → ℕ) (base threads : ℕ) : World → Type 0 where
  begins :
      {s : Server}
      → Connections.Runs start_loop base threads [] s
      → Runs start_loop base threads (new_world s)
  accepts :
      {w w' : World} (r : Accept)
      → Runs start_loop base threads w
      → accept w r ≡ some w'
      → Runs start_loop base threads w'
  closes :
      {w w' : World} (n loop : ℕ)
      → Runs start_loop base threads w
      → w.server.connections n ≡ some loop
      → close_event w n ≡ some w'
      → Runs start_loop base threads w'
  reads :
      {w w' : World} (n loop : ℕ) (r : Readv)
      → Runs start_loop base threads w
      → w.server.connections n ≡ some loop
      → read_event w n r ≡ some w'
      → Runs start_loop base threads w'
  writes :
      {w w' : World} (n : ℕ) (wr : Write)
      → Runs start_loop base threads w
      → write_event w n wr ≡ some w'
      → Runs start_loop base threads w'
  sends :
      {w w' : World} (n : ℕ) (message : List ℕ) (wr : Write)
      → Runs start_loop base threads w
      → send_to w n message wr ≡ some w'
      → Runs start_loop base threads w'
  shuts :
      {w w' : World} (n : ℕ)
      → Runs start_loop base threads w
      → shut_down w n ≡ some w'
      → Runs start_loop base threads w'
  pends :
      {w w' : World}
      → Runs start_loop base threads w
      → do_pending w ≡ some w'
      → Runs start_loop base threads w'

module _ (start_loop : ℕ → ℕ) (base threads : ℕ) where
  begins-Inv : (s : Server) → Connections.Runs start_loop base threads [] s → Inv (new_world s)
  unfolding new_world
  begins-Inv s run =
      let i = Inv-Runs start_loop base threads [] s run in
      record {
        each = λ n. elim (Option-cases (s.connections n)) [
          | inl absent ↦ ground (arith, absent)
          | inr (loop, there) ↦
              let (_, positive, below) = i.assigned n loop there in
              ground (arith, positive, below, i.numbered, i.handed)
        ];
        unused = λ n h. refl;
      }

  Runs-Inv : (w : World) → Runs start_loop base threads w → Inv w
  Runs-Inv w (begins {s} run) = begins-Inv s run
  Runs-Inv w (accepts {w = v} r run e) = accept-Inv v w r (Runs-Inv v run) e
  Runs-Inv w (closes {w = v} n loop run there e) =
      let (w', e', _, _, _, i) = close_lem v n loop (Runs-Inv v run) there in
      let same : w' ≡ w = ground (arith, e, e') in subst Inv same i
  Runs-Inv w (reads {w = v} n loop r run there e) = read-Inv v w n loop r (Runs-Inv v run) there e
  Runs-Inv w (writes {w = v} n wr run e) =
      on_object-Inv v w n (λ c. handle_write c wr) (λ c c'. handle_write-lives c c' wr)
        (Runs-Inv v run) (unfold write_event in e)
  Runs-Inv w (sends {w = v} n message wr run e) =
      on_object-Inv v w n (λ c. send c true message wr) (λ c c'. send-lives c c' message wr)
        (Runs-Inv v run) (unfold send_to in e)
  Runs-Inv w (shuts {w = v} n run e) =
      on_object-Inv v w n (λ c. some (TcpConnection.shutdown c true))
        (λ c c' live eq. let l = shutdown-lives c true live in ground (arith, l, eq))
        (Runs-Inv v run) (unfold shut_down in e)
  Runs-Inv w (pends {w = v} run e) =
      let (w', e', i, _, _, _) = pend_lem v (Runs-Inv v run) in
      let same : w' ≡ w = ground (arith, e, e') in subst Inv same i

-- Whatever happened to a server before: when the peer of a connection in the map closes, no assertion
-- fails, neither in `handleClose` nor in `removeConnectionInLoop`, nor in `connectDestoryed` when the
-- loop runs its queue. Then the connection has no object and is not in the map; the other connections
-- in the map keep their objects as they were; and no object is left but those in the map.
pub close-Runs :
    (start_loop : ℕ → ℕ) (base threads : ℕ) (w : World) (n loop : ℕ)
    → Runs start_loop base threads w
    → w.server.connections n ≡ some loop
    → (w' : World) × (close_event w n ≡ some w')
      × (v : World) × (do_pending w' ≡ some v)
      × (v.server.connections n ≡ none)
      × ((m : ℕ) → m ≢ n → w.server.connections m ≢ none → v.conns m ≡ w.conns m)
      × ((m : ℕ) → (v.conns m ≡ none) ↔ (v.server.connections m ≡ none))
close-Runs start_loop base threads w n loop run there =
    let i = Runs-Inv start_loop base threads w run in
    let (w', r, map, queue, others, i') = close_lem w n loop i there in
    let (v, r', j, server, empty, each) = pend_lem w' i' in
    let gone : v.server.connections n ≡ none =
      ap (λ s. s.connections n) server ∙ ap (λ f. f n) map ∙ ground arith in
    (
      w',
      r,
      v,
      r',
      gone,
      λ m other mapped.
          let before = i.each m in
          let more = ap (count m) queue ∙ count-append m n w.queue in
          let same = others m other in ground (arith, each m, before, more, same, other, mapped),
      λ m. let f = j.each m in let q = ap (count m) empty in ground (arith, f, q),
    )

-- The defect: `handleEvent` runs the close callback and then the read callback when the peer closed and
-- nothing is readable. After the first, a read that finds the end of the stream never goes through: it
-- closes a second time, and `removeConnectionInLoop` asserts that the connection is in the map.
pub read_event-close_event :
    (start_loop : ℕ → ℕ) (base threads : ℕ) (w w' : World) (n loop : ℕ)
    → Runs start_loop base threads w
    → w.server.connections n ≡ some loop
    → close_event w n ≡ some w'
    → read_event w' n (got []) ≡ none
unfolding read_event remove_connection remove_connection_in_loop
read_event-close_event start_loop base threads w w' n loop run there e =
    let (v, r, map, _, _, _) = close_lem w n loop (Runs-Inv start_loop base threads w run) there in
    let same : v ≡ w' = ground (arith, r, e) in
    let gone : w'.server.connections n ≡ none =
      ap (λ x. x.server.connections n) (sym same) ∙ ap (λ f. f n) map ∙ ground arith in
    elim (Option-cases (w'.conns n)) [
      | inl lost ↦ ground (arith, lost)
      | inr (c, here) ↦ elim (Option-cases (handle_read c (got []))) [
        | inl stuck ↦ ground (arith, here, stuck)
        | inr (c', done) ↦ ground (arith, here, done, gone)
      ]
    ]
