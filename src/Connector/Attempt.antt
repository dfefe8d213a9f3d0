-- ===== src/Connector/Attempt.antt =====
-- What one attempt of the connector, and one event of its channel, come to.
use learn_for_cpp.Base.{
  ℕ, Bool, true, false, not, none, some, List, ◌∷◌, ◌≡◌, ◌⊎◌, inl, inr, arith, Bool-cases,
  Option-cases, if◌then◌else◌,
}
use learn_for_cpp.Connector.{
  Connector, disconnected, connecting, connected, Errno, no_error, einprogress, eintr, eisconn,
  eagain, eaddrinuse, eaddrnotavail, econnrefused, enetunreach, eacces, eperm, eafnosupport,
  ealready, ebadf, efault, enotsock, other_error, Effect, opened, emit, init_retry_delay_ms,
  new_connection, retry, after_connect, begin_connecting, do_connect, start_in_loop, restart,
  handle_write, handle_error, remove_and_reset_channel, is_null, is_connecting,
}

-- A channel is there exactly during an attempt.
abbrev pub is_tidy : Connector → Bool
is_tidy c = if is_connecting c.state then not (is_null c.channel) else is_null c.channel

-- An attempt is under way, or the connector is as it was and disconnected.
abbrev pub HasTried : Connector → Connector → Type 0
HasTried c c' =
    ((c'.state ≡ connecting) × (is_null c.channel ≡ true) × (is_null c'.channel ≡ false))
    ⊎ ((c'.state ≡ disconnected) × (c'.channel ≡ c.channel))

after_connect-HasTried :
    (c c' : Connector) (fd : ℕ) (errno : Errno)
    → c.state ≡ disconnected
    → after_connect c fd errno ≡ some c'
    → HasTried c c'
unfolding after_connect begin_connecting retry
after_connect-HasTried c c' fd no_error down r = ground arith
after_connect-HasTried c c' fd einprogress down r = ground arith
after_connect-HasTried c c' fd eintr down r = ground arith
after_connect-HasTried c c' fd eisconn down r = ground arith
after_connect-HasTried c c' fd eagain down r = ground arith
after_connect-HasTried c c' fd eaddrinuse down r = ground arith
after_connect-HasTried c c' fd eaddrnotavail down r = ground arith
after_connect-HasTried c c' fd econnrefused down r = ground arith
after_connect-HasTried c c' fd enetunreach down r = ground arith
after_connect-HasTried c c' fd eacces down r = ground arith
after_connect-HasTried c c' fd eperm down r = ground arith
after_connect-HasTried c c' fd eafnosupport down r = ground arith
after_connect-HasTried c c' fd ealready down r = ground arith
after_connect-HasTried c c' fd ebadf down r = ground arith
after_connect-HasTried c c' fd efault down r = ground arith
after_connect-HasTried c c' fd enotsock down r = ground arith
after_connect-HasTried c c' fd other_error down r = ground arith

after_connect_total :
    (c : Connector) (fd : ℕ) (errno : Errno)
    → is_null c.channel ≡ true
    → ¬ (after_connect c fd errno ≡ none)
unfolding after_connect begin_connecting
after_connect_total c fd no_error free bad = ground arith
after_connect_total c fd einprogress free bad = ground arith
after_connect_total c fd eintr free bad = ground arith
after_connect_total c fd eisconn free bad = ground arith
after_connect_total c fd eagain free bad = ground arith
after_connect_total c fd eaddrinuse free bad = ground arith
after_connect_total c fd eaddrnotavail free bad = ground arith
after_connect_total c fd econnrefused free bad = ground arith
after_connect_total c fd enetunreach free bad = ground arith
after_connect_total c fd eacces free bad = ground arith
after_connect_total c fd eperm free bad = ground arith
after_connect_total c fd eafnosupport free bad = ground arith
after_connect_total c fd ealready free bad = ground arith
after_connect_total c fd ebadf free bad = ground arith
after_connect_total c fd efault free bad = ground arith
after_connect_total c fd enotsock free bad = ground arith
after_connect_total c fd other_error free bad = ground arith

pub start_in_loop-HasTried :
    (c c' : Connector) (fd : ℕ) (errno : Errno)
    → start_in_loop c fd errno ≡ some c'
    → (c.state ≡ disconnected) × HasTried c c'
unfolding start_in_loop do_connect
start_in_loop-HasTried c c' fd errno r =
    let down : c.state ≡ disconnected = ground (arith, r) in
    elim (Bool-cases c.connect) [
      | inl on ↦
          (down, after_connect-HasTried (emit c (opened fd)) c' fd errno down (ground (arith, r)))
      | inr off ↦ (down, inr (ground (arith, r), ground (arith, r)))
    ]

-- Where no channel is left over, `restart` fails no assertion; the connector is then connecting, or
-- disconnected as it was.
pub restart_total :
    (c : Connector) (fd : ℕ) (errno : Errno)
    → is_null c.channel ≡ true
    → (c' : Connector) × (restart c fd errno ≡ some c') × (is_tidy c' ≡ true)
unfolding restart
restart_total c fd errno free =
    let d : Connector = record c {
      state = disconnected;
      retry_delay_ms = init_retry_delay_ms;
      connect = true;
    } in
    elim (Option-cases (restart c fd errno)) [
      | inl bad ↦ absurd (
          after_connect_total (emit d (opened fd)) fd errno free
            (unfold start_in_loop in unfold do_connect in ground (arith, bad)))
      | inr (c', r) ↦ (c', r, ground (arith, start_in_loop-HasTried d c' fd errno r, free))
    ]

-- The socket's event, where its channel is there: the channel stays, and its removal is queued; the
-- callback is called last if it is, and the connector is then connected.
abbrev pub is_callback : List Effect → Bool
is_callback (new_connection fd ∷ es) = true
is_callback _ = false

pub handle_write_lem :
    (c : Connector) (err : ℕ) (self : Bool)
    → is_connecting c.state ≡ true
    → is_null c.channel ≡ false
    → (c' : Connector) × (handle_write c err self ≡ some c')
      × (is_connecting c'.state ≡ false)
      × (is_null c'.channel ≡ false)
      × ((is_callback c'.effects ≡ false) ⊎ (c'.state ≡ connected))
unfolding handle_write remove_and_reset_channel retry
handle_write_lem c err self up there = elim (Option-cases (handle_write c err self)) [
  | inl bad ↦ absurd (ground (arith, bad))
  | inr (c', r) ↦ (c', r, ground (arith, r), ground (arith, r), ground (arith, r))
]

pub handle_error_lem :
    (c : Connector)
    → is_connecting c.state ≡ true
    → is_null c.channel ≡ false
    → (c' : Connector) × (handle_error c ≡ some c')
      × (c'.state ≡ disconnected)
      × (is_null c'.channel ≡ false)
unfolding handle_error remove_and_reset_channel retry
handle_error_lem c up there = elim (Option-cases (handle_error c)) [
  | inl bad ↦ absurd (ground (arith, bad))
  | inr (c', r) ↦ (c', r, ground (arith, r), ground (arith, r))
]
