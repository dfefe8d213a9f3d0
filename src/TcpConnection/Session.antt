-- ===== src/TcpConnection/Session.antt =====
-- Sending, writing and shutting down in any order, from an established connection.
use learn_for_cpp.Base.{
  ℕ, ◌+◌, ◌-◌, ◌<◌, ◌^◌, ◌≡◌, ◌⊎◌, subst, refl, sym, ap, ◌∙◌, true, false, some, List, [], ◌∷◌,
  ◌++◌, length, drop, arith, inl, inr, Bool-cases, append_assoc, append-nil, if◌then◌else◌,
  length-drop,
}
use learn_for_cpp.Buffer.Parts.{content}
use learn_for_cpp.Channel.{is_writing}
use learn_for_cpp.TcpConnection.{
  Connection, connected, disconnecting, shut_write, Write, wrote, would_block, write_error, emit,
  send, shutdown_in_loop, shutdown, handle_write, is_connected,
}
use learn_for_cpp.TcpConnection.Flow.{
  IsFlowing, stream, sent_bytes, shut_count, shut_count-append, sent_bytes-emit,
  send_in_loop-Buffered,
}
use learn_for_cpp.TcpConnection.Output.{Took, taken, shuts_due, handle_write_lem}

-- What `send` takes for sending.
abbrev pub accepted : Connection → List ℕ → List ℕ
accepted c message = if is_connected c.state then message else []

-- The connections that calls in the loop thread lead to, with all bytes taken for sending on the way.
-- `::write` keeps to its contract, and a message leaves the output buffer below 2 ^ 63 bytes.
pub data Reaches (c : Connection) : Connection → List ℕ → Type 0 where
  here : Reaches c c []
  sends :
      {d e : Connection} {ms : List ℕ} (m : List ℕ) (w : Write)
      → Reaches c d ms
      → length d.output_buffer.buffer + length m + 8 < 2 ^ 63
      → send d true m w ≡ some e
      → Reaches c e (ms ++ accepted d m)
  writes :
      {d e : Connection} {ms : List ℕ} (w : Write)
      → Reaches c d ms
      → Took d w
      → handle_write d w ≡ some e
      → Reaches c e ms
  shuts : {d : Connection} {ms : List ℕ} → Reaches c d ms → Reaches c (shutdown d true) ms

-- The states of an established connection: connected and not shut down, or disconnecting and shut down
-- exactly when no byte waits.
abbrev pub IsUp : Connection → Type 0
IsUp d =
    ((d.state ≡ connected) × (shut_count d.effects ≡ 0))
    ⊎ ((d.state ≡ disconnecting) × (shut_count d.effects ≡ (if is_writing d.channel then 0 else 1)))

pub record Inv (d : Connection) : Type 0 where
  pub flowing : IsFlowing d
  pub up : IsUp d

pub send-Inv :
    (d e : Connection) (m : List ℕ) (w : Write)
    → Inv d
    → length d.output_buffer.buffer + length m + 8 < 2 ^ 63
    → send d true m w ≡ some e
    → Inv e × (stream e ≡ stream d ++ accepted d m)
unfolding send
send-Inv d e m w v room h = elim (v.up) [
  | inl (up, unshut) ↦
      let (d', r, b) = send_in_loop-Buffered d m w v.flowing room in
      let same : d' ≡ e = ground (arith, r) in
      subst (λ x. Inv x × (stream x ≡ stream d ++ accepted d m)) same
        (
          record { flowing = b.flowing; up = inl (b.same_state ∙ up, b.unshut ∙ unshut) },
          ap (λ x. x ++ content d'.output_buffer) b.unsent
              ∙ ap (λ x. sent_bytes d.effects ++ x) b.bytes
              ∙ sym (append_assoc (sent_bytes d.effects) (content d.output_buffer) m)
              ∙ ap (λ x. stream d ++ x) (ground arith),
        )
  | inr (down, shut) ↦
      let same : d ≡ e = ground arith in
      subst (λ x. Inv x × (stream x ≡ stream d ++ accepted d m)) same
        (v, sym (append-nil (stream d)) ∙ ap (λ x. stream d ++ x) (ground arith))
]

-- Where the channel writes, by what waits.
waits :
    (d : Connection)
    → IsFlowing d
    → (is_writing d.channel ≡ false) ⊎ (0 < length (content d.output_buffer))
waits d f = elim (Bool-cases (is_writing d.channel)) [
  | inl on ↦ inr (f.waiting on)
  | inr off ↦ inl off
]

empty :
    (d : Connection)
    → IsFlowing d
    → (is_writing d.channel ≡ true) ⊎ (length (content d.output_buffer) ≡ 0)
empty d f = elim (Bool-cases (is_writing d.channel)) [
  | inl on ↦ inl on
  | inr off ↦ inr (ap length (f.idle off))
]

still-IsUp :
    (d d' : Connection) (w : Write)
    → Inv d
    → Took d w
    → IsFlowing d'
    → content d'.output_buffer ≡ drop (taken w) (content d.output_buffer)
    → d'.state ≡ d.state
    → shut_count d'.effects ≡ shut_count d.effects + shuts_due d w
    → IsUp d'
still-IsUp d d' (wrote n) v t f rest same due =
    let size : length (content d'.output_buffer) ≡ length (content d.output_buffer) - n =
      ap length rest ∙ length-drop n (content d.output_buffer) in
    ground (arith, v.up, waits d v.flowing, empty d v.flowing, waits d' f, empty d' f)
still-IsUp d d' would_block v t f rest same due =
    let size : length (content d'.output_buffer) ≡ length (content d.output_buffer) =
      ap length rest in
    ground (arith, v.up, waits d v.flowing, empty d v.flowing, waits d' f, empty d' f)
still-IsUp d d' write_error v t f rest same due =
    let size : length (content d'.output_buffer) ≡ length (content d.output_buffer) =
      ap length rest in
    ground (arith, v.up, waits d v.flowing, empty d v.flowing, waits d' f, empty d' f)

pub handle_write-Inv :
    (d e : Connection) (w : Write)
    → Inv d
    → Took d w
    → handle_write d w ≡ some e
    → Inv e × (stream e ≡ stream d)
handle_write-Inv d e w v t h =
    let (d', r, flowing, same_stream, rest, same_state, due) = handle_write_lem d w v.flowing t in
    let same : d' ≡ e = ground (arith, r) in
    subst (λ x. Inv x × (stream x ≡ stream d)) same
      (
        record { flowing = flowing; up = still-IsUp d d' w v t flowing rest same_state due },
        same_stream,
      )

shut-Inv :
    (d : Connection)
    → Inv d
    → d.state ≡ connected
    → Inv (shutdown d true) × (stream (shutdown d true) ≡ stream d)
shut-Inv d v up = elim (Bool-cases (is_writing d.channel)) [
  | inl on ↦
      subst (λ x. Inv x × (stream x ≡ stream d)) (waits_first on)
        (
          record {
            flowing = record { valid = f.valid; waiting = f.waiting; idle = f.idle };
            up = inr (refl, ground (arith, v.up));
          },
          refl,
        )
  | inr off ↦
      subst (λ x. Inv x × (stream x ≡ stream d)) (at_once off)
        (
          record {
            flowing = record { valid = f.valid; waiting = f.waiting; idle = f.idle };
            up = inr (refl, ground (arith, v.up, shut_count-append d.effects (shut_write ∷ [])));
          },
          ap (λ x. x ++ content d.output_buffer)
              (sent_bytes-emit d shut_write ∙ append-nil (sent_bytes d.effects)),
        )
]
  where
    f : IsFlowing d
    f = v.flowing

    waits_first : is_writing d.channel ≡ true → record d { state = disconnecting } ≡ shutdown d true
    waits_first on = unfold shutdown shutdown_in_loop in ground arith

    at_once :
        is_writing d.channel ≡ false
        → emit (record d { state = disconnecting }) shut_write ≡ shutdown d true
    at_once off = unfold shutdown shutdown_in_loop in ground arith

shutdown-Inv :
    (d : Connection) → Inv d → Inv (shutdown d true) × (stream (shutdown d true) ≡ stream d)
shutdown-Inv d v = elim (v.up) [
  | inl (up, unshut) ↦ shut-Inv d v up
  | inr (down, shut) ↦
      let same : d ≡ shutdown d true = unfold shutdown in ground arith in
      subst (λ x. Inv x × (stream x ≡ stream d)) same (v, refl)
]

-- Whatever is called on an established connection in the thread of its loop, `send`, `shutdown` and
-- `handleWrite` in any order, with nothing queued from other threads: every byte taken for
-- sending is sent or waits, in the order of the calls, the channel asks for writing exactly while bytes
-- wait, and the write half is shut down at most once, after `shutdown` and when no byte waits any more.
pub stream-Reaches :
    (c d : Connection) (ms : List ℕ) → Inv c → Reaches c d ms → Inv d × (stream d ≡ stream c ++ ms)
stream-Reaches c d ms v here = (v, sym (append-nil (stream c)))
stream-Reaches c e ms v (sends {d = d} {ms = ms'} m w r room h) =
    let (v', s) = stream-Reaches c d ms' v r in
    let (v'', s') = send-Inv d e m w v' room h in
    (v'', s' ∙ ap (λ x. x ++ accepted d m) s ∙ append_assoc (stream c) ms' (accepted d m))
stream-Reaches c e ms v (writes {d = d} w r t h) =
    let (v', s) = stream-Reaches c d ms v r in
    let (v'', s') = handle_write-Inv d e w v' t h in (v'', s' ∙ s)
stream-Reaches c e ms v (shuts {d = d} r) =
    let (v', s) = stream-Reaches c d ms v r in let (v'', s') = shutdown-Inv d v' in (v'', s' ∙ s)
