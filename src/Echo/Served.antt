-- ===== src/Echo/Served.antt =====
-- An echoing connection gives back exactly the bytes that it got.
use learn_for_cpp.Base.{
  ℕ, ◌+◌, ◌≤◌, ◌<◌, ◌^◌, ◌≡◌, subst, refl, sym, ap, ◌∙◌, some, List, [], ◌∷◌, ◌++◌, length, arith,
  append-nil,
}
use learn_for_cpp.Buffer.{Buffer, failed, got, new_buffer}
use learn_for_cpp.Buffer.Parts.{IsValid, content}
use learn_for_cpp.Buffer.Content.{retrieve_as_string_lem}
use learn_for_cpp.Buffer.Growth.{retrieve_as_string-near}
use learn_for_cpp.TcpConnection.{
  Connection, connected, Effect, log_error, message_callback, Write, emit, handle_write,
  connect_established, new_connection,
}
use learn_for_cpp.TcpConnection.Flow.{
  stream, sent_bytes, shut_count, sent_bytes-emit, shut_count-append,
}
use learn_for_cpp.TcpConnection.Output.{Took, handle_write_lem}
use learn_for_cpp.TcpConnection.Session.{Inv, accepted, handle_write-Inv}
use learn_for_cpp.TcpConnection.Drain.{write_each, Drains, write_each-IsDrained}
use learn_for_cpp.TcpConnection.Input.{read_some_lem, read_failed_lem, send_lem, handle_write-input}
use learn_for_cpp.TcpConnection.Lifecycle.{connect_established-Inv, connect_established-input}
use learn_for_cpp.Echo.{on_message, read_event}

-- Between events: the connection is up and connected, and its input buffer is empty.
pub record IsEchoing (c : Connection) : Type 0 where
  pub up : Inv c
  pub alive : c.state ≡ connected
  pub valid : IsValid c.input_buffer
  pub nothing_kept : content c.input_buffer ≡ []
  pub near : 8 ≤ c.input_buffer.reader_index

-- The buffers stay below 2 ^ 63 bytes when these bytes are added.
pub record HasRoom (c : Connection) (bytes : List ℕ) : Type 0 where
  pub input : length c.input_buffer.buffer + length bytes + 8 < 2 ^ 63
  pub output : length c.output_buffer.buffer + length bytes + 8 < 2 ^ 63

-- An effect that neither sends nor shuts down.
emit-Inv :
    (c : Connection) (e : Effect)
    → sent_bytes (e ∷ []) ≡ []
    → shut_count (e ∷ []) ≡ 0
    → Inv c
    → Inv (emit c e) × (stream (emit c e) ≡ stream c)
emit-Inv c e quiet unshut v = (
  record {
    flowing = record {
      valid = v.flowing.valid;
      waiting = v.flowing.waiting;
      idle = v.flowing.idle;
    };
    up = ground (arith, v.up, shut_count-append c.effects (e ∷ []), unshut);
  },
  ap (λ x. x ++ content c.output_buffer)
      (sent_bytes-emit c e
        ∙ ap (λ x. sent_bytes c.effects ++ x) quiet
        ∙ append-nil (sent_bytes c.effects)),
)

input-Inv : (c : Connection) (b : Buffer) → Inv c → Inv (record c { input_buffer = b })
input-Inv c b v = record {
  flowing = record { valid = v.flowing.valid; waiting = v.flowing.waiting; idle = v.flowing.idle };
  up = v.up;
}

-- One read of an echoing connection: what came is sent or waits behind what waited.
pub read_event-IsEchoing :
    (c : Connection) (x : ℕ) (xs : List ℕ) (w : Write)
    → IsEchoing c
    → HasRoom c (x ∷ xs)
    → (c' : Connection) × (read_event c (got (x ∷ xs)) w ≡ some c')
      × IsEchoing c'
      × (stream c' ≡ stream c ++ (x ∷ xs))
unfolding read_event on_message
read_event-IsEchoing c x xs w e room =
    let (b, r, vb, eq, near) = read_some_lem c x xs e.valid e.near room.input in
    let c1 : Connection = emit (record c { input_buffer = b }) message_callback in
    let (v1, s1) =
      emit-Inv (record c { input_buffer = b }) message_callback refl refl (input-Inv c b e.up) in
    let whole : content b ≡ x ∷ xs = eq ∙ ap (λ l. l ++ (x ∷ xs)) e.nothing_kept in
    let (b', r2, vb', empty) =
      retrieve_as_string_lem b vb (omega (arith, near, vb.ordered, vb.inside)) in
    let c2 : Connection = record c1 { input_buffer = b' } in
    let (c', r3, v3, s3, same_input, same_state) =
      send_lem c2 (content b) w (input-Inv c1 b' v1) (rw whole (room.output)) in
    let took : accepted c2 (content b) ≡ x ∷ xs = ground (arith, e.alive, whole) in
    (
      c',
      ground (arith, r, r2, r3),
      record {
        up = v3;
        alive = same_state ∙ e.alive;
        valid = subst IsValid (sym same_input) vb';
        nothing_kept = ap content same_input ∙ empty;
        near = omega (
          arith,
          ap (λ y. y.reader_index) same_input,
          retrieve_as_string-near b b' (content b) r2,
        );
      },
      s3 ∙ ap (λ l. stream c2 ++ l) took ∙ ap (λ l. l ++ (x ∷ xs)) s1,
    )

-- What the peer and the socket do to an echoing connection, with all bytes that it got on the way.
pub data Runs : Connection → List ℕ → Type 0 where
  begins : {c : Connection} (fd : ℕ) → connect_established (new_connection fd) ≡ some c → Runs c []
  reads :
      {c d : Connection} {ms : List ℕ} (x : ℕ) (xs : List ℕ) (w : Write)
      → Runs c ms
      → HasRoom c (x ∷ xs)
      → read_event c (got (x ∷ xs)) w ≡ some d
      → Runs d (ms ++ (x ∷ xs))
  fails :
      {c d : Connection} {ms : List ℕ} (errno : ℕ) (w : Write)
      → Runs c ms
      → read_event c (failed errno) w ≡ some d
      → Runs d ms
  writes :
      {c d : Connection} {ms : List ℕ} (w : Write)
      → Runs c ms
      → Took c w
      → handle_write c w ≡ some d
      → Runs d ms

failed-IsEchoing :
    (c d : Connection) (errno : ℕ) (w : Write)
    → IsEchoing c
    → read_event c (failed errno) w ≡ some d
    → IsEchoing d × (stream d ≡ stream c)
unfolding read_event
failed-IsEchoing c d errno w e r =
    let (v1, s1) = emit-Inv c log_error refl refl e.up in
    let (v2, s2) = emit-Inv (emit c log_error) log_error refl refl v1 in
    let after : Connection = emit (emit c log_error) log_error in
    let same : after ≡ d = ground (arith, r, read_failed_lem c errno) in
    let done : IsEchoing after = record {
      up = v2;
      alive = e.alive;
      valid = e.valid;
      nothing_kept = e.nothing_kept;
      near = e.near;
    } in
    subst (λ x. IsEchoing x × (stream x ≡ stream c)) same (done, s2 ∙ s1)

write-IsEchoing :
    (c d : Connection) (w : Write)
    → IsEchoing c
    → Took c w
    → handle_write c w ≡ some d
    → IsEchoing d × (stream d ≡ stream c)
write-IsEchoing c d w e t r =
    let (v, s) = handle_write-Inv c d w e.up t r in
    let input = handle_write-input c d w r in
    let (d', r', _, _, _, same_state, _) = handle_write_lem c w e.up.flowing t in
    let same : d' ≡ d = ground (arith, r, r') in
    (
      record {
        up = v;
        alive = ap (λ x. x.state) (sym same) ∙ same_state ∙ e.alive;
        valid = subst IsValid (sym input) e.valid;
        nothing_kept = ap content input ∙ e.nothing_kept;
        near = omega (arith, ap (λ y. y.reader_index) input, e.near);
      },
      s,
    )

pub Runs-IsEchoing : (c : Connection) (ms : List ℕ) → Runs c ms → IsEchoing c × (stream c ≡ ms)
Runs-IsEchoing c ms (begins fd r) =
    let (d, r', v, s, _) = connect_established-Inv fd in
    let same : d ≡ c = ground (arith, r, r') in
    let (alive, input) = connect_established-input fd c r in
    (
      record {
        up = subst Inv same v;
        alive = alive;
        valid = subst IsValid (sym input) fresh;
        nothing_kept = ap content input ∙ unfold new_buffer in refl;
        near = omega (arith, ap (λ y. y.reader_index) input, eight);
      },
      ap stream (sym same) ∙ s,
    )
  where
    fresh : IsValid new_buffer
    fresh = unfold new_buffer in omega arith

    eight : new_buffer.reader_index ≡ 8
    eight = unfold new_buffer in refl
Runs-IsEchoing d ms (reads {c} {ms = ms'} x xs w run room r) =
    let (e, s) = Runs-IsEchoing c ms' run in
    let (d', r', e', s') = read_event-IsEchoing c x xs w e room in
    let same : d' ≡ d = ground (arith, r, r') in
    subst (λ y. IsEchoing y × (stream y ≡ ms)) same (e', s' ∙ ap (λ l. l ++ (x ∷ xs)) s)
Runs-IsEchoing d ms (fails {c} errno w run r) =
    let (e, s) = Runs-IsEchoing c ms run in
    let (e', s') = failed-IsEchoing c d errno w e r in (e', s' ∙ s)
Runs-IsEchoing d ms (writes {c} w run t r) =
    let (e, s) = Runs-IsEchoing c ms run in
    let (e', s') = write-IsEchoing c d w e t r in (e', s' ∙ s)

-- An echoing connection, from being established on, whatever its reads bring and its writes take: it
-- handles a further read that its buffers have room for without a fault, and when the socket has taken the rest, in any pieces, the
-- bytes that it has sent are exactly all the bytes that it got, in order.
pub echo-Runs :
    (c : Connection) (ms : List ℕ) (ws : List Write) (x : ℕ) (xs : List ℕ) (w : Write)
    → Runs c ms
    → Drains (length (content c.output_buffer)) ws
    → HasRoom c (x ∷ xs)
    → ((d : Connection) × (read_event c (got (x ∷ xs)) w ≡ some d))
      × ((d : Connection) × (write_each ws c ≡ some d) × (sent_bytes d.effects ≡ ms))
echo-Runs c ms ws x xs w run drains room =
    let (e, s) = Runs-IsEchoing c ms run in
    let (d, r, done) = write_each-IsDrained c ws e.up drains in
    let (d', r', _, _) = read_event-IsEchoing c x xs w e room in
    ((d', r'), (d, r, done.all_sent ∙ s))
