-- ===== src/Connector/Run.antt =====
-- The handlers that take the channel away, and the connectors that all handlers together reach.
use learn_for_cpp.Base.{
  ℕ, ◌≡◌, refl, inl, inr, Bool, true, false, some, arith, Bool-cases, Option-cases, ◌==◌, subst,
}
use learn_for_cpp.Connector.{
  Connector, disconnected, connecting, connected, Errno, Effect, closed, new_connection,
  new_connector, start, restart, stop, reset_channel, handle_write, handle_error, start_in_loop,
  retry, remove_and_reset_channel, is_connecting, emit, init_retry_delay_ms,
}
use learn_for_cpp.Connector.Sockets.{Inv, Open, retry-Inv, start_in_loop-Inv}

-- Taking the channel away leaves its socket loose.
remove-Open :
    (c c' : Connector) (sockfd : ℕ)
    → Inv c
    → c.state ≡ connecting
    → remove_and_reset_channel c ≡ some (sockfd, c')
    → Open c' sockfd × (c'.connect ≡ c.connect)
unfolding remove_and_reset_channel
remove-Open c c' sockfd i up r = (
  record {
    loose = λ fd. ground (arith, i.accounted fd, up, r);
    low = ground (arith, i.low, r);
    high = ground (arith, i.high, r);
    delays = ground (arith, i.delays, r);
  },
  ground (arith, r),
)

-- The socket that is loose goes to the callback.
deliver-Inv :
    (c : Connector) (sockfd : ℕ)
    → Open c sockfd
    → Inv (emit (record c { state = connected }) (new_connection sockfd))
deliver-Inv c sockfd o = record {
  accounted = λ fd. ground (arith, o.loose fd);
  pending = λ e. ground (arith, e);
  low = o.low;
  high = o.high;
  delays = o.delays;
}

close-Inv :
    (c : Connector) (sockfd : ℕ)
    → Open c sockfd
    → Inv (emit (record c { state = connected }) (closed sockfd))
close-Inv c sockfd o = record {
  accounted = λ fd. ground (arith, o.loose fd);
  pending = λ e. ground (arith, e);
  low = o.low;
  high = o.high;
  delays = o.delays;
}

removes :
    (c : Connector)
    → Inv c
    → c.state ≡ connecting
    → (sockfd : ℕ) × (c1 : Connector) × (remove_and_reset_channel c ≡ some (sockfd, c1))
      × Open c1 sockfd
removes c i up = elim (Option-cases (remove_and_reset_channel c)) [
  | inl bad ↦ absurd (i.pending up (unfold remove_and_reset_channel in ground (arith, bad)))
  | inr ((sockfd, c1), r) ↦ (sockfd, c1, r, (remove-Open c c1 sockfd i up r).0)
]

handle_write-Inv :
    (c c' : Connector) (err : ℕ) (self : Bool) → Inv c → handle_write c err self ≡ some c' → Inv c'
unfolding handle_write
handle_write-Inv c c' err self i r = elim (Bool-cases (is_connecting c.state)) [
  | inl up ↦
      let (sockfd, c1, r1, o) = removes c i (ground (arith, up)) in
      elim (Bool-cases (err == 0)) [
        | inr bad ↦
            let same : retry c1 sockfd ≡ c' = ground (arith, r, r1, up, bad) in
            subst Inv same (retry-Inv c1 sockfd o)
        | inl fine ↦ elim (Bool-cases self) [
          | inl loop ↦
              let same : retry c1 sockfd ≡ c' = ground (arith, r, r1, up, fine, loop) in
              subst Inv same (retry-Inv c1 sockfd o)
          | inr peer ↦ elim (Bool-cases c1.connect) [
            | inl wanted ↦
                let same : emit (record c1 { state = connected }) (new_connection sockfd) ≡ c' =
                  ground (arith, r, r1, up, fine, peer, wanted) in
                subst Inv same (deliver-Inv c1 sockfd o)
            | inr unwanted ↦
                let same : emit (record c1 { state = connected }) (closed sockfd) ≡ c' =
                  ground (arith, r, r1, up, fine, peer, unwanted) in
                subst Inv same (close-Inv c1 sockfd o)
          ]
        ]
      ]
  | inr down ↦ let same : c ≡ c' = ground (arith, r, down) in subst Inv same i
]

Inv-log_error : (c : Connector) → Inv c → Inv (emit c Effect.log_error)
Inv-log_error c i = record {
  accounted = i.accounted;
  pending = i.pending;
  low = i.low;
  high = i.high;
  delays = i.delays;
}

handle_error-Inv : (c c' : Connector) → Inv c → handle_error c ≡ some c' → Inv c'
unfolding handle_error
handle_error-Inv c c' i r =
    let up : c.state ≡ connecting = ground (arith, r) in
    let (sockfd, c1, r1, o) = removes (emit c Effect.log_error) (Inv-log_error c i) up in
    let same : retry c1 sockfd ≡ c' = ground (arith, r, r1, up) in
    subst Inv same (retry-Inv c1 sockfd o)

-- The connectors that the handlers lead to. `restart` is called when no attempt is pending, and a
-- queued `resetChannel` runs before the next attempt.
pub data Reaches : Connector → Type 0 where
  created : Reaches new_connector
  starts :
      {c d : Connector} (in_loop : Bool) (sockfd : ℕ) (errno : Errno)
      → Reaches c
      → start c in_loop sockfd errno ≡ some d
      → Reaches d
  timer_starts :
      {c d : Connector} (sockfd : ℕ) (errno : Errno)
      → Reaches c
      → start_in_loop c sockfd errno ≡ some d
      → Reaches d
  restarts :
      {c d : Connector} (sockfd : ℕ) (errno : Errno)
      → Reaches c
      → ¬ (c.state ≡ connecting)
      → restart c sockfd errno ≡ some d
      → Reaches d
  stops : {c : Connector} → Reaches c → Reaches (stop c)
  resets : {c : Connector} → Reaches c → ¬ (c.state ≡ connecting) → Reaches (reset_channel c)
  writes :
      {c d : Connector} (err : ℕ) (self_connect : Bool)
      → Reaches c
      → handle_write c err self_connect ≡ some d
      → Reaches d
  errors : {c d : Connector} → Reaches c → handle_error c ≡ some d → Reaches d

with_connect-Inv : (c : Connector) (b : Bool) → Inv c → Inv (record c { connect = b })
with_connect-Inv c b i = record {
  accounted = i.accounted;
  pending = i.pending;
  low = i.low;
  high = i.high;
  delays = i.delays;
}

start-Inv :
    (c d : Connector) (in_loop : Bool) (sockfd : ℕ) (errno : Errno)
    → Inv c
    → start c in_loop sockfd errno ≡ some d
    → Inv d
unfolding start
start-Inv c d true sockfd errno i r =
    start_in_loop-Inv (record c { connect = true }) d sockfd errno (with_connect-Inv c true i) r
start-Inv c d false sockfd errno i r =
    let e : Connector = emit (record c { connect = true }) Effect.queue_start in
    let same : e ≡ d = ground (arith, r) in
    let inv : Inv e = record {
      accounted = i.accounted;
      pending = i.pending;
      low = i.low;
      high = i.high;
      delays = i.delays;
    } in
    subst Inv same inv

restarted-Inv :
    (c : Connector)
    → Inv c
    → ¬ (c.state ≡ connecting)
    → Inv (record c { state = disconnected; retry_delay_ms = init_retry_delay_ms; connect = true })
restarted-Inv c i idle = record {
  accounted = λ fd. ground (arith, i.accounted fd, idle);
  pending = λ e. ground (arith, e);
  low = omega arith;
  high = omega arith;
  delays = i.delays;
}

reset-Inv : (c : Connector) → Inv c → ¬ (c.state ≡ connecting) → Inv (reset_channel c)
unfolding reset_channel
reset-Inv c i idle = record {
  accounted = λ fd. ground (arith, i.accounted fd, idle);
  pending = λ e. absurd (idle e);
  low = i.low;
  high = i.high;
  delays = i.delays;
}

-- At every connector that the handlers reach, where `restart` is not called during an attempt and a
-- queued `resetChannel` runs before the next one, each socket that was opened has been closed or handed to
-- the new-connection callback exactly once, or is held by the channel of the pending attempt; all retry
-- delays asked for lie between 500 and 30000 milliseconds.
pub Inv-Reaches : (c : Connector) → Reaches c → Inv c
unfolding restart stop
Inv-Reaches c created =
    unfold new_connector in
    record {
      accounted = λ fd. refl;
      pending = λ e. ground (arith, e);
      low = omega arith;
      high = omega arith;
      delays = tt;
    }
Inv-Reaches d (starts {c} in_loop sockfd errno h r) =
    start-Inv c d in_loop sockfd errno (Inv-Reaches c h) r
Inv-Reaches d (timer_starts {c} sockfd errno h r) =
    start_in_loop-Inv c d sockfd errno (Inv-Reaches c h) r
Inv-Reaches d (restarts {c} sockfd errno h idle r) =
    start_in_loop-Inv _ d sockfd errno (restarted-Inv c (Inv-Reaches c h) idle) r
Inv-Reaches d (stops {c} h) = with_connect-Inv c false (Inv-Reaches c h)
Inv-Reaches d (resets {c} h idle) = reset-Inv c (Inv-Reaches c h) idle
Inv-Reaches d (writes {c} err self_connect h r) =
    handle_write-Inv c d err self_connect (Inv-Reaches c h) r
Inv-Reaches d (errors {c} h r) = handle_error-Inv c d (Inv-Reaches c h) r
