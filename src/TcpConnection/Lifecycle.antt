-- ===== src/TcpConnection/Lifecycle.antt =====
-- Establishing, reading, closing and destroying a connection.
use learn_for_cpp.Base.{
  ℕ, ◌+◌, ◌<◌, ◌^◌, ◌≡◌, ◌≢◌, ◌⊎◌, subst, refl, sym, ap, ◌∙◌, ◌||◌, Bool, Option-cases, true, false,
  none, some, List, [], ◌∷◌, ◌++◌, length, take, arith, inl, inr, append_assoc, append-nil,
  if◌then◌else◌, take_all,
}
use learn_for_cpp.Buffer.{Readv, failed, got, new_buffer}
use learn_for_cpp.Buffer.Parts.{IsValid, content}
use learn_for_cpp.Buffer.Content.{readable-content}
use learn_for_cpp.Buffer.ReadFd.{received, content-read_fd}
use learn_for_cpp.Channel.{
  Events, is_writing, is_none, none_event, new_channel, enable_reading, disable_all,
}
use learn_for_cpp.TcpConnection.{
  Connection, State, connecting, connected, disconnecting, disconnected, Effect, sent,
  update_channel, remove_channel, connection_callback, message_callback, close_callback, log_error,
  wrote, emit, direct_write, buffer_rest, send_in_loop, new_connection, connect_established,
  handle_error, handle_close, shutdown, shutdown_in_loop, is_connected, is_disconnecting,
  after_read, handle_read, connect_destroyed, queue_write_complete, send,
}
use learn_for_cpp.TcpConnection.Flow.{stream, sent_bytes, sent_bytes-append}
use learn_for_cpp.TcpConnection.Session.{Inv}

-- A new connection is established without a fault, and is then up, with an empty stream.
pub connect_established-Inv :
    (fd : ℕ)
    → (c : Connection) × (connect_established (new_connection fd) ≡ some c)
      × Inv c
      × (stream c ≡ [])
      × (c.effects ≡ update_channel ∷ connection_callback ∷ [])
unfolding connect_established new_connection new_channel new_buffer enable_reading
connect_established-Inv fd = (
  _,
  refl,
  record {
    flowing = record { valid = omega arith; waiting = λ w. cc; idle = λ w. refl };
    up = inl (refl, refl);
  },
  refl,
  refl,
)

close_stops :
    (c c' : Connection)
    → handle_close c ≡ some c'
    → (is_writing c'.channel ≡ false)
      × (c'.output_buffer ≡ c.output_buffer)
      × (sent_bytes c'.effects ≡ sent_bytes c.effects)
unfolding handle_close disable_all
close_stops c c' h = ground (
  arith,
  sent_bytes-append c.effects (update_channel ∷ []),
  sent_bytes-append (c.effects ++ (update_channel ∷ [])) (close_callback ∷ []),
  append-nil (sent_bytes c.effects),
)

-- The bytes of a message go to the kernel at once where the channel is not writing and others wait.
writes_through :
    (c : Connection) (message : List ℕ)
    → IsValid c.output_buffer
    → 0 < length (content c.output_buffer)
    → is_writing c.channel ≡ false
    → (c' : Connection) × (send_in_loop c message (wrote (length message)) ≡ some c')
      × (sent_bytes c'.effects ≡ sent_bytes c.effects ++ message)
      × (c'.output_buffer ≡ c.output_buffer)
unfolding send_in_loop direct_write buffer_rest
writes_through c message v waiting off = (
  if c.has_write_complete then emit c1 queue_write_complete else c1,
  ground (arith, readable-content c.output_buffer v, whole),
  ground (
    arith,
    told,
    sent_bytes-append c1.effects (queue_write_complete ∷ []),
    append-nil (sent_bytes c1.effects),
  ),
  ground arith,
)
  where
    c1 : Connection
    c1 = emit c (sent message)

    whole : take (length message) message ≡ message
    whole = take_all (length message) message (omega arith)

    told : sent_bytes c1.effects ≡ sent_bytes c.effects ++ message
    told =
        sent_bytes-append c.effects (sent message ∷ [])
        ∙ ap (λ x. sent_bytes c.effects ++ x) (append-nil message)

-- The defect: when a connected connection is closed while bytes wait in its valid output buffer, it is still
-- connected afterwards, and a message that `send` gets then, in the thread of the loop, goes to the
-- kernel whole, although the older bytes still wait.
pub send_overtakes :
    (c c' : Connection) (message : List ℕ)
    → IsValid c.output_buffer
    → 0 < length (content c.output_buffer)
    → c.state ≡ connected
    → handle_close c ≡ some c'
    → (c'' : Connection) × (c'.state ≡ connected)
      × (send c' true message (wrote (length message)) ≡ some c'')
      × (sent_bytes c''.effects ≡ sent_bytes c.effects ++ message)
      × (content c''.output_buffer ≡ content c.output_buffer)
unfolding send
send_overtakes c c' message v waiting up closed =
    let (off, same, told) = close_stops c c' closed in
    let up' : c'.state ≡ connected = unfold handle_close in ground (arith, closed, up) in
    let (c'', e, sends, out) =
      writes_through c' message (subst IsValid (sym same) v)
        (subst (λ b. 0 < length (content b)) (sym same) waiting) off in
    (c'', up', ground (arith, up', e), sends ∙ ap (λ x. x ++ message) told, ap content (out ∙ same))

-- What `handleRead` does to the outside.
abbrev pub read_effects : Readv → List Effect
read_effects (failed errno) = log_error ∷ log_error ∷ []
read_effects (got []) = update_channel ∷ close_callback ∷ []
read_effects (got (x ∷ xs)) = message_callback ∷ []

abbrev pub read_events : Connection → Readv → Events
read_events c (failed errno) = c.channel.events
read_events c (got []) = none_event
read_events c (got (x ∷ xs)) = c.channel.events

after_read_lem :
    (c : Connection) (r : Readv)
    → (c.state ≡ connected) ⊎ (c.state ≡ disconnecting)
    → (c' : Connection) × (after_read c r ≡ some c')
      × (c'.input_buffer ≡ c.input_buffer)
      × (c'.state ≡ c.state)
      × (c'.effects ≡ c.effects ++ read_effects r)
      × (c'.channel.events ≡ read_events c r)
unfolding after_read handle_error handle_close disable_all
after_read_lem c (failed errno) up = (
  emit (emit c log_error) log_error,
  refl,
  refl,
  refl,
  append_assoc c.effects (log_error ∷ []) (log_error ∷ []),
  refl,
)
after_read_lem c (got []) up = (
  emit (emit (record c { channel = disable_all c.channel }) update_channel) close_callback,
  ground arith,
  refl,
  refl,
  append_assoc c.effects (update_channel ∷ []) (close_callback ∷ []),
  refl,
)
after_read_lem c (got (x ∷ xs)) up = (emit c message_callback, refl, refl, refl, refl, refl)

-- `handleRead`, by what `readv` returned: bytes go to the input buffer and the message callback runs;
-- the end of the stream closes an established connection; an error is logged twice and changes nothing.
pub handle_read_lem :
    (c : Connection) (r : Readv)
    → IsValid c.input_buffer
    → length c.input_buffer.buffer + length (received r) + 8 < 2 ^ 63
    → (c.state ≡ connected) ⊎ (c.state ≡ disconnecting)
    → (c' : Connection) × (handle_read c r ≡ some c')
      × IsValid c'.input_buffer
      × (content c'.input_buffer ≡ content c.input_buffer ++ received r)
      × (c'.state ≡ c.state)
      × (c'.effects ≡ c.effects ++ read_effects r)
      × (c'.channel.events ≡ read_events c r)
unfolding handle_read
handle_read_lem c r v room up =
    let (b, e, v', eq) = content-read_fd c.input_buffer v r room in
    let (c', e', i, s, es, ev) = after_read_lem (record c { input_buffer = b }) r up in
    (c', ground (arith, e, e'), subst IsValid (sym i) v', ap content i ∙ eq, s, es, ev)

abbrev destroyed : Connection → Connection
destroyed c =
    let c' : Connection = record c { state = disconnected; channel = disable_all c.channel } in
    emit (emit (emit c' update_channel) connection_callback) remove_channel

tail :
    (c : Connection)
    → (destroyed c).effects
      ≡ c.effects ++ update_channel ∷ connection_callback ∷ remove_channel ∷ []
tail c =
    append_assoc (c.effects ++ (update_channel ∷ [])) (connection_callback ∷ [])
      (remove_channel ∷ [])
    ∙ append_assoc c.effects (update_channel ∷ []) (connection_callback ∷ remove_channel ∷ [])

destroy_lem :
    (s : State) (c : Connection)
    → c.state ≡ s
    → (((c.state ≡ connected) ⊎ (c.state ≡ disconnecting))
        × (c' : Connection) × (connect_destroyed c ≡ some c')
        × (c'.state ≡ disconnected)
        × (is_none c'.channel.events ≡ true)
        × (c'.effects ≡ c.effects ++ update_channel ∷ connection_callback ∷ remove_channel ∷ []))
      ⊎ ((c.state ≢ connected) × (c.state ≢ disconnecting) × (connect_destroyed c ≡ none))
unfolding connect_destroyed disable_all
destroy_lem connecting c e = inr (λ k. cc, λ k. cc, ground arith)
destroy_lem disconnected c e = inr (λ k. cc, λ k. cc, ground arith)
destroy_lem connected c e = inl (inl e, destroyed c, ground arith, refl, refl, tail c)
destroy_lem disconnecting c e = inl (inr e, destroyed c, ground arith, refl, refl, tail c)

-- Closing and destroying: the connection callback runs a last time and the channel, which asks for no
-- event, leaves the loop, exactly if the connection was established; from any other state it is a fault.
pub connect_destroyed_lem :
    (c : Connection)
    → (((c.state ≡ connected) ⊎ (c.state ≡ disconnecting))
        × (c' : Connection) × (connect_destroyed c ≡ some c')
        × (c'.state ≡ disconnected)
        × (is_none c'.channel.events ≡ true)
        × (c'.effects ≡ c.effects ++ update_channel ∷ connection_callback ∷ remove_channel ∷ []))
      ⊎ ((c.state ≢ connected) × (c.state ≢ disconnecting) × (connect_destroyed c ≡ none))
connect_destroyed_lem c = destroy_lem c.state c refl

pub connect_established-input :
    (fd : ℕ) (c : Connection)
    → connect_established (new_connection fd) ≡ some c
    → (c.state ≡ connected) × (c.input_buffer ≡ new_buffer)
unfolding connect_established new_connection
connect_established-input fd c e = ground (arith, e)

-- Connected or disconnecting, which is what the last steps of a connection assert.
abbrev pub lives : Connection → Bool
lives c = is_connected c.state || is_disconnecting c.state

pub connect_established-lives :
    (c : Connection)
    → c.state ≡ connecting
    → (c' : Connection) × (connect_established c ≡ some c') × (lives c' ≡ true)
unfolding connect_established
connect_established-lives c new = elim (Option-cases (connect_established c)) [
  | inl bad ↦ absurd (ground (arith, bad))
  | inr (c', r) ↦ (c', r, ground (arith, r))
]

pub handle_close-lives :
    (c : Connection)
    → lives c ≡ true
    → (c' : Connection) × (handle_close c ≡ some c') × (lives c' ≡ true)
unfolding handle_close
handle_close-lives c v = elim (Option-cases (handle_close c)) [
  | inl bad ↦ absurd (ground (arith, bad))
  | inr (c', r) ↦ (c', r, ground (arith, r))
]

pub shutdown-lives :
    (c : Connection) (in_loop : Bool) → lives c ≡ true → lives (shutdown c in_loop) ≡ true
unfolding shutdown shutdown_in_loop
shutdown-lives c in_loop v = ground arith

pub connect_destroyed-lives :
    (c : Connection) → lives c ≡ true → (c' : Connection) × (connect_destroyed c ≡ some c')
unfolding connect_destroyed
connect_destroyed-lives c v = elim (Option-cases (connect_destroyed c)) [
  | inl bad ↦ absurd (ground (arith, bad))
  | inr (c', r) ↦ (c', r)
]
