-- ===== src/TcpClient/Steps.antt =====
-- The calls of a user and the events of a client, one by one.
use learn_for_cpp.Base.{
  ℕ, ◌+◌, Bool, true, false, Option, none, some, List, [], ◌∷◌, ◌++◌, ◌==◌, put, ◌≡◌, ◌⊎◌, inl, inr,
  refl, subst, arith, Bool-cases, Option-cases, ==_refl,
}
use learn_for_cpp.Connector
use learn_for_cpp.Connector.{
  Connector, Errno, is_connecting, is_null, new_connector, start_in_loop, start, restart,
  reset_channel,
}
use learn_for_cpp.Connector.Attempt.{
  start_in_loop-HasTried, is_callback, handle_write_lem, handle_error_lem,
}
use learn_for_cpp.TcpConnection
use learn_for_cpp.TcpConnection.{
  Connection, connect_established, connect_destroyed, handle_close, shutdown,
}
use learn_for_cpp.TcpConnection.Lifecycle.{lives, shutdown-lives, connect_established-lives}
use learn_for_cpp.TcpClient.{
  Client, resets, enable_retry, set_write_complete, connect_client, shut_down, disconnect, stop,
  new_connection, called_back, connector_write, connector_error, timer,
}
use learn_for_cpp.TcpClient.Inv.{Inv, fits, held, is_up, connector-Inv, tried_fits}

pub connect-Inv :
    (c c' : Client) (fd : ℕ) (errno : Errno)
    → Inv c
    → connect_client c true fd errno ≡ some c'
    → Inv c'
unfolding connect_client start
connect-Inv c c' fd errno v r =
    let wanted : Connector = record (c.connector) { connect = true } in
    elim (Option-cases (start_in_loop wanted fd errno)) [
      | inl bad ↦ absurd (ground (arith, bad, r))
      | inr (k, e) ↦
          let (down, t) = start_in_loop-HasTried wanted k fd errno e in
          let fit = tried_fits c.connection c.queue wanted k v.fitting down t in
          let same : record c { connect = true; connector = k } ≡ c' = ground (arith, e, r) in
          subst Inv same (connector-Inv c k true fit v)
    ]

pub timer-Inv :
    (c c' : Client) (fd : ℕ) (errno : Errno) → Inv c → timer c fd errno ≡ some c' → Inv c'
unfolding timer
timer-Inv c c' fd errno v r = elim (Option-cases (start_in_loop c.connector fd errno)) [
  | inl bad ↦ absurd (ground (arith, bad, r))
  | inr (k, e) ↦
      let (down, t) = start_in_loop-HasTried c.connector k fd errno e in
      let fit = tried_fits c.connection c.queue c.connector k v.fitting down t in
      let same : record c { connector = k } ≡ c' = ground (arith, e, r) in
      subst Inv same (connector-Inv c k c.connect fit v)
]

pub stop-Inv : (c : Client) → Inv c → Inv (stop c)
unfolding stop Connector.stop
stop-Inv c v = connector-Inv c (Connector.stop c.connector) false v.fitting v

pub enable_retry-Inv : (c : Client) → Inv c → Inv (enable_retry c)
unfolding enable_retry
enable_retry-Inv c v = record {
  fitting = v.fitting;
  live = v.live;
  numbered = v.numbered;
  only = v.only;
}

pub set_write_complete-Inv : (c : Client) → Inv c → Inv (set_write_complete c)
unfolding set_write_complete
set_write_complete-Inv c v = record {
  fitting = v.fitting;
  live = v.live;
  numbered = v.numbered;
  only = v.only;
}

-- The connection object that lives is replaced by another one that lives.
pub put-Inv :
    (c : Client) (n : ℕ) (conn : Connection)
    → held c.connection c.queue ≡ some n
    → lives conn ≡ true
    → Inv c
    → Inv (record c { conns = put c.conns n (some conn) })
put-Inv c n conn h live v = record {
  fitting = v.fitting;
  live = rw h (rw (==_refl n) live);
  numbered = v.numbered;
  only = λ k. elim (Bool-cases (k == n)) [
    | inl same ↦ inr (ground (arith, h, same))
    | inr other ↦ rw other (v.only k)
  ];
}

shut_down-Inv :
    (o : Option ℕ) (c c' : Client)
    → c.connection ≡ o
    → Inv c
    → shut_down c o true ≡ some c'
    → Inv c'
shut_down-Inv none c c' e v r = subst Inv (ground (arith, r)) v
shut_down-Inv (some n) c c' e v r = elim (Option-cases (c.conns n)) [
  | inl bad ↦ absurd (ground (arith, bad, r))
  | inr (conn, at) ↦
      let h : held c.connection c.queue ≡ some n = ground (arith, e) in
      let live : lives conn ≡ true = ground (arith, v.live, h, at) in
      let same : record c { conns = put c.conns n (some (shutdown conn true)) } ≡ c' =
        ground (arith, at, r) in
      subst Inv same (put-Inv c n (shutdown conn true) h (shutdown-lives conn true live) v)
]

pub disconnect-Inv : (c c' : Client) → Inv c → disconnect c true ≡ some c' → Inv c'
unfolding disconnect
disconnect-Inv c c' v r =
    shut_down-Inv c.connection (record c { connect = false }) c' refl
      (connector-Inv c c.connector false v.fitting v) r

-- A connection is made where the client has none and nothing is queued but the reset.
new_connection-Inv :
    (c : Client) (fd : ℕ)
    → c.connection ≡ none
    → c.queue ≡ resets ∷ []
    → is_up c.connector ≡ true
    → Inv c
    → (c' : Client) × (new_connection c fd ≡ some c') × Inv c'
unfolding new_connection TcpConnection.new_connection
new_connection-Inv c fd e q up v =
    let made : Connection = record (TcpConnection.new_connection fd) {
      has_write_complete = c.has_write_complete;
    } in
    let (conn, r, live) = connect_established-lives made refl in
    let after : Client = record c {
      next_conn_id = c.next_conn_id + 1;
      connection = some c.next_conn_id;
      conns = put c.conns c.next_conn_id (some conn);
    } in
    (
      after,
      ground (arith, r),
      record {
        fitting = ground (arith, q, up);
        live = rw (==_refl c.next_conn_id) live;
        numbered = ground arith;
        only = λ k. elim (Bool-cases (k == c.next_conn_id)) [
          | inl same ↦ inr (ground (arith, same))
          | inr other ↦ rw other (inl (ground (arith, v.only k, e, q)))
        ];
      },
    )

-- The client's own invariant after the connector's event, before its callback.
woken-Inv :
    (c : Client) (k : Connector)
    → c.connection ≡ none
    → c.queue ≡ []
    → is_connecting k.state ≡ false
    → is_null k.channel ≡ false
    → Inv c
    → Inv (record c { connector = k; queue = c.queue ++ (resets ∷ []) })
woken-Inv c k e q off there v = record {
  fitting = ground (arith, e, q, off, there);
  live = ground (arith, e, q);
  numbered = ground (arith, e, q);
  only = λ n. inl (ground (arith, v.only n, e, q));
}

-- Only a connecting connector has a channel, and then the client has no connection.
awaiting :
    (o : Option ℕ) (k : Connector)
    → fits o [] k ≡ true
    → is_null k.channel ≡ false
    → (o ≡ none) × (is_connecting k.state ≡ true)
awaiting none k f there = (refl, ground arith)
awaiting (some n) k f there = ground arith

called_back-Inv :
    (es : List Connector.Effect) (c : Client)
    → c.connection ≡ none
    → c.queue ≡ resets ∷ []
    → (is_callback es ≡ false) ⊎ (is_up c.connector ≡ true)
    → Inv c
    → (c' : Client) × (called_back c es ≡ some c') × Inv c'
called_back-Inv [] c e q up v = (c, refl, v)
called_back-Inv (Connector.new_connection fd ∷ es) c e q up v = elim up [
  | inl bad ↦ cc
  | inr u ↦ new_connection-Inv c fd e q u v
]
called_back-Inv (Connector.opened n ∷ es) c e q up v = (c, refl, v)
called_back-Inv (Connector.closed n ∷ es) c e q up v = (c, refl, v)
called_back-Inv (Connector.run_after n ∷ es) c e q up v = (c, refl, v)
called_back-Inv (Connector.queue_start ∷ es) c e q up v = (c, refl, v)
called_back-Inv (Connector.queue_reset ∷ es) c e q up v = (c, refl, v)
called_back-Inv (Connector.update_channel ∷ es) c e q up v = (c, refl, v)
called_back-Inv (Connector.remove_channel ∷ es) c e q up v = (c, refl, v)
called_back-Inv (Connector.log_error ∷ es) c e q up v = (c, refl, v)

pub write-Inv :
    (c : Client) (err : ℕ) (self : Bool)
    → c.queue ≡ []
    → is_null c.connector.channel ≡ false
    → Inv c
    → (c' : Client) × (connector_write c err self ≡ some c') × Inv c'
unfolding connector_write
write-Inv c err self q there v =
    let (e, connecting) =
      awaiting c.connection c.connector
        (subst (λ x. fits c.connection x c.connector ≡ true) q v.fitting) there in
    let (k, r, off, there', last) = handle_write_lem c.connector err self connecting there in
    let up : (is_callback k.effects ≡ false) ⊎ (is_up k ≡ true) = elim last [
      | inl not_called ↦ inl not_called
      | inr now ↦ inr (ground (arith, now))
    ] in
    let (c', r', v') =
      called_back-Inv k.effects (record c { connector = k; queue = c.queue ++ (resets ∷ []) }) e
        (ground (arith, q)) up (woken-Inv c k e q off there' v) in
    (c', ground (arith, r, r', connecting), v')

pub error-Inv :
    (c : Client)
    → c.queue ≡ []
    → is_null c.connector.channel ≡ false
    → Inv c
    → (c' : Client) × (connector_error c ≡ some c') × Inv c'
unfolding connector_error
error-Inv c q there v =
    let (e, connecting) =
      awaiting c.connection c.connector
        (subst (λ x. fits c.connection x c.connector ≡ true) q v.fitting) there in
    let (k, r, down, there') = handle_error_lem c.connector connecting there in
    (
      record c { connector = k; queue = c.queue ++ (resets ∷ []) },
      ground (arith, r),
      woken-Inv c k e q (ground (arith, down)) there' v,
    )
