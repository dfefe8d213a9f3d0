-- ===== src/Connector/Sockets.antt =====
-- Every socket that a connector opens is closed, handed over, or held by the channel.
use learn_for_cpp.Base.{
  ℕ, ◌+◌, ◌≤◌, ◌≡◌, ◌≢◌, ◌⊎◌, inl, inr, Option, none, some, List, [], ◌∷◌, arith, Bool-cases, ◌==◌,
  if◌then◌else◌, subst,
}
use learn_for_cpp.Channel.{Channel, new_channel, enable_writing}
use learn_for_cpp.Connector.{
  Connector, State, disconnected, connecting, Errno, no_error, einprogress, eintr, eisconn, eagain,
  eaddrinuse, eaddrnotavail, econnrefused, enetunreach, eacces, eperm, eafnosupport, ealready,
  ebadf, efault, enotsock, other_error, Effect, opened, closed, new_connection, run_after,
  start_in_loop, do_connect, after_connect, begin_connecting, retry, give_up, connecting_channel,
  emit, max_retry_delay_ms, init_retry_delay_ms,
}

-- How often a socket was opened, and how often it was closed or handed to the callback.
abbrev pub opened_count : ℕ → List Effect → ℕ
opened_count fd [] = 0
opened_count fd (opened n ∷ es) = (if fd == n then 1 else 0) + opened_count fd es
opened_count fd (_ ∷ es) = opened_count fd es

abbrev pub given_up_count : ℕ → List Effect → ℕ
given_up_count fd [] = 0
given_up_count fd (closed n ∷ es) = (if fd == n then 1 else 0) + given_up_count fd es
given_up_count fd (new_connection n ∷ es) = (if fd == n then 1 else 0) + given_up_count fd es
given_up_count fd (_ ∷ es) = given_up_count fd es

-- Whether the channel of a pending connection has the socket.
abbrev pub held_in : State → Option Channel → ℕ → ℕ
held_in connecting (some ch) fd = if fd == ch.fd then 1 else 0
held_in _ _ fd = 0

abbrev pub held_count : Connector → ℕ → ℕ
held_count c fd = held_in c.state c.channel fd

abbrev pub IsAccounted : Connector → Type 0
IsAccounted c = (fd : ℕ) → opened_count fd c.effects ≡ given_up_count fd c.effects + held_count c fd

-- All delays that were asked for lie in the range.
abbrev pub AreDelays : List Effect → Type 0
AreDelays [] = Unit {0}
AreDelays (run_after d ∷ es) = (init_retry_delay_ms ≤ d) × (d ≤ max_retry_delay_ms) × AreDelays es
AreDelays (_ ∷ es) = AreDelays es

pub record Inv (c : Connector) : Type 0 where
  pub accounted : IsAccounted c
  pub pending : c.state ≡ connecting → c.channel ≢ none
  pub low : init_retry_delay_ms ≤ c.retry_delay_ms
  pub high : c.retry_delay_ms ≤ max_retry_delay_ms
  pub delays : AreDelays c.effects

-- A socket was opened that is not yet accounted for.
pub record Open (c : Connector) (sockfd : ℕ) : Type 0 where
  pub loose :
      (fd : ℕ)
      → opened_count fd c.effects ≡ given_up_count fd c.effects + (if fd == sockfd then 1 else 0)
  pub low : init_retry_delay_ms ≤ c.retry_delay_ms
  pub high : c.retry_delay_ms ≤ max_retry_delay_ms
  pub delays : AreDelays c.effects

pub retry-Inv : (c : Connector) (sockfd : ℕ) → Open c sockfd → Inv (retry c sockfd)
unfolding retry
retry-Inv c sockfd o = elim (Bool-cases c.connect) [
  | inl wanted ↦ rw wanted (record {
    accounted = λ fd. ground (arith, o.loose fd);
    pending = λ e. ground arith;
    low = ground (arith, o.low);
    high = ground (arith, o.high);
    delays = (o.low, o.high, o.delays);
  })
  | inr unwanted ↦ rw unwanted (record {
    accounted = λ fd. ground (arith, o.loose fd);
    pending = λ e. ground arith;
    low = o.low;
    high = o.high;
    delays = o.delays;
  })
]

give_up-Inv :
    (c : Connector) (sockfd : ℕ) → Open c sockfd → ¬ (c.state ≡ connecting) → Inv (give_up c sockfd)
give_up-Inv c sockfd o idle = record {
  accounted = λ fd. not_held fd;
  pending = λ e. absurd (idle e);
  low = o.low;
  high = o.high;
  delays = o.delays;
}
  where
    not_held :
        (fd : ℕ)
        → opened_count fd c.effects
          ≡ (if fd == sockfd then 1 else 0) + given_up_count fd c.effects + held_count c fd
    not_held fd = ground (arith, o.loose fd, idle)

begin_connecting-Inv :
    (c c' : Connector) (sockfd : ℕ) → Open c sockfd → begin_connecting c sockfd ≡ some c' → Inv c'
unfolding begin_connecting connecting_channel enable_writing new_channel
begin_connecting-Inv c c' sockfd o r =
    let d : Connector = record c {
      state = connecting;
      channel = some (connecting_channel sockfd);
      effects = Effect.update_channel ∷ c.effects;
    } in
    let same : d ≡ c' = ground (arith, r) in
    let inv : Inv d = record {
      accounted = λ fd. ground (arith, o.loose fd);
      pending = λ e k. ground (arith, k);
      low = o.low;
      high = o.high;
      delays = o.delays;
    } in
    subst Inv same inv

-- What the `switch` does comes down to three cases.
abbrev AreCases : Connector → Connector → ℕ → Type 0
AreCases c c' sockfd =
    (begin_connecting c sockfd ≡ some c') ⊎ ((retry c sockfd ≡ c') ⊎ (give_up c sockfd ≡ c'))

after_connect-AreCases :
    (c c' : Connector) (sockfd : ℕ) (errno : Errno)
    → after_connect c sockfd errno ≡ some c'
    → AreCases c c' sockfd
unfolding after_connect
after_connect-AreCases c c' sockfd no_error r = inl r
after_connect-AreCases c c' sockfd einprogress r = inl r
after_connect-AreCases c c' sockfd eintr r = inl r
after_connect-AreCases c c' sockfd eisconn r = inl r
after_connect-AreCases c c' sockfd eagain r = inr (inl (cc r))
after_connect-AreCases c c' sockfd eaddrinuse r = inr (inl (cc r))
after_connect-AreCases c c' sockfd eaddrnotavail r = inr (inl (cc r))
after_connect-AreCases c c' sockfd econnrefused r = inr (inl (cc r))
after_connect-AreCases c c' sockfd enetunreach r = inr (inl (cc r))
after_connect-AreCases c c' sockfd eacces r = inr (inr (cc r))
after_connect-AreCases c c' sockfd eperm r = inr (inr (cc r))
after_connect-AreCases c c' sockfd eafnosupport r = inr (inr (cc r))
after_connect-AreCases c c' sockfd ealready r = inr (inr (cc r))
after_connect-AreCases c c' sockfd ebadf r = inr (inr (cc r))
after_connect-AreCases c c' sockfd efault r = inr (inr (cc r))
after_connect-AreCases c c' sockfd enotsock r = inr (inr (cc r))
after_connect-AreCases c c' sockfd other_error r = inr (inr (cc r))

pub start_in_loop-Inv :
    (c c' : Connector) (sockfd : ℕ) (errno : Errno)
    → Inv c
    → start_in_loop c sockfd errno ≡ some c'
    → Inv c'
unfolding start_in_loop do_connect
start_in_loop-Inv c c' sockfd errno i r = elim (Bool-cases c.connect) [
  | inl wanted ↦
      let down : c.state ≡ disconnected = ground (arith, r) in
      let c1 : Connector = emit c (opened sockfd) in
      let o : Open c1 sockfd = record {
        loose = λ fd. ground (arith, i.accounted fd, down);
        low = i.low;
        high = i.high;
        delays = i.delays;
      } in
      let r1 : after_connect c1 sockfd errno ≡ some c' = ground (arith, r, wanted) in
      elim (after_connect-AreCases c1 c' sockfd errno r1) [
        | inl b ↦ begin_connecting-Inv c1 c' sockfd o b
        | inr (inl b) ↦ subst Inv b (retry-Inv c1 sockfd o)
        | inr (inr b) ↦ subst Inv b (give_up-Inv c1 sockfd o (λ k. ground (arith, k, down)))
      ]
  | inr unwanted ↦ let same : c ≡ c' = ground (arith, r, unwanted) in subst Inv same i
]
