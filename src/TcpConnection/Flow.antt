-- ===== src/TcpConnection/Flow.antt =====
-- The byte stream of a connection: what was sent, followed by what waits in the output buffer.
use learn_for_cpp.Base.{
  ℕ, suc, ◌+◌, ◌<◌, ◌^◌, ◌≡◌, refl, sym, ap, ◌∙◌, true, false, some, List, [], ◌∷◌, ◌++◌, length,
  arith, inl, inr, Bool-cases, append_assoc, append-nil, length-append,
}
use learn_for_cpp.Buffer.{readable_bytes}
use learn_for_cpp.Buffer.Parts.{IsValid, content}
use learn_for_cpp.Buffer.Content.{content-append, readable-content}
use learn_for_cpp.Channel.{is_writing, enable_writing}
use learn_for_cpp.TcpConnection.{
  Connection, Effect, sent, shut_write, update_channel, remove_channel, connection_callback,
  message_callback, close_callback, queue_write_complete, queue_shutdown, queue_send, log_error,
  Write, emit, buffer_rest, send_in_loop,
}

-- The bytes given to the kernel so far, in order.
abbrev pub sent_bytes : List Effect → List ℕ
sent_bytes [] = []
sent_bytes (sent bytes ∷ es) = bytes ++ sent_bytes es
sent_bytes (shut_write ∷ es) = sent_bytes es
sent_bytes (update_channel ∷ es) = sent_bytes es
sent_bytes (remove_channel ∷ es) = sent_bytes es
sent_bytes (connection_callback ∷ es) = sent_bytes es
sent_bytes (message_callback ∷ es) = sent_bytes es
sent_bytes (close_callback ∷ es) = sent_bytes es
sent_bytes (queue_write_complete ∷ es) = sent_bytes es
sent_bytes (queue_shutdown ∷ es) = sent_bytes es
sent_bytes (queue_send m ∷ es) = sent_bytes es
sent_bytes (log_error ∷ es) = sent_bytes es

-- How often the write half was shut down.
abbrev pub shut_count : List Effect → ℕ
shut_count [] = 0
shut_count (sent bytes ∷ es) = shut_count es
shut_count (shut_write ∷ es) = suc (shut_count es)
shut_count (update_channel ∷ es) = shut_count es
shut_count (remove_channel ∷ es) = shut_count es
shut_count (connection_callback ∷ es) = shut_count es
shut_count (message_callback ∷ es) = shut_count es
shut_count (close_callback ∷ es) = shut_count es
shut_count (queue_write_complete ∷ es) = shut_count es
shut_count (queue_shutdown ∷ es) = shut_count es
shut_count (queue_send m ∷ es) = shut_count es
shut_count (log_error ∷ es) = shut_count es

pub sent_bytes-append :
    (xs ys : List Effect) → sent_bytes (xs ++ ys) ≡ sent_bytes xs ++ sent_bytes ys
sent_bytes-append [] ys = refl
sent_bytes-append (sent bytes ∷ xs) ys =
    ap (λ r. bytes ++ r) (sent_bytes-append xs ys)
    ∙ sym (append_assoc bytes (sent_bytes xs) (sent_bytes ys))
sent_bytes-append (shut_write ∷ xs) ys = sent_bytes-append xs ys
sent_bytes-append (update_channel ∷ xs) ys = sent_bytes-append xs ys
sent_bytes-append (remove_channel ∷ xs) ys = sent_bytes-append xs ys
sent_bytes-append (connection_callback ∷ xs) ys = sent_bytes-append xs ys
sent_bytes-append (message_callback ∷ xs) ys = sent_bytes-append xs ys
sent_bytes-append (close_callback ∷ xs) ys = sent_bytes-append xs ys
sent_bytes-append (queue_write_complete ∷ xs) ys = sent_bytes-append xs ys
sent_bytes-append (queue_shutdown ∷ xs) ys = sent_bytes-append xs ys
sent_bytes-append (queue_send m ∷ xs) ys = sent_bytes-append xs ys
sent_bytes-append (log_error ∷ xs) ys = sent_bytes-append xs ys

pub shut_count-append :
    (xs ys : List Effect) → shut_count (xs ++ ys) ≡ shut_count xs + shut_count ys
shut_count-append [] ys = omega arith
shut_count-append (shut_write ∷ xs) ys = omega (arith, shut_count-append xs ys)
shut_count-append (sent bytes ∷ xs) ys = shut_count-append xs ys
shut_count-append (update_channel ∷ xs) ys = shut_count-append xs ys
shut_count-append (remove_channel ∷ xs) ys = shut_count-append xs ys
shut_count-append (connection_callback ∷ xs) ys = shut_count-append xs ys
shut_count-append (message_callback ∷ xs) ys = shut_count-append xs ys
shut_count-append (close_callback ∷ xs) ys = shut_count-append xs ys
shut_count-append (queue_write_complete ∷ xs) ys = shut_count-append xs ys
shut_count-append (queue_shutdown ∷ xs) ys = shut_count-append xs ys
shut_count-append (queue_send m ∷ xs) ys = shut_count-append xs ys
shut_count-append (log_error ∷ xs) ys = shut_count-append xs ys

-- While the connection is up: the channel asks for writing exactly when bytes wait.
pub record IsFlowing (c : Connection) : Type 0 where
  pub valid : IsValid c.output_buffer
  pub waiting : is_writing c.channel ≡ true → 0 < length (content c.output_buffer)
  pub idle : is_writing c.channel ≡ false → content c.output_buffer ≡ []

-- All bytes that the connection took for sending.
abbrev pub stream : Connection → List ℕ
stream c = sent_bytes c.effects ++ content c.output_buffer

pub sent_bytes-emit :
    (c : Connection) (e : Effect)
    → sent_bytes (emit c e).effects ≡ sent_bytes c.effects ++ sent_bytes (e ∷ [])
sent_bytes-emit c e = sent_bytes-append c.effects (e ∷ [])

-- What `sendInLoop` does to the output when nothing was written directly.
pub record Buffered (c c' : Connection) (message : List ℕ) : Type 0 where
  pub flowing : IsFlowing c'
  pub bytes : content c'.output_buffer ≡ content c.output_buffer ++ message
  pub unsent : sent_bytes c'.effects ≡ sent_bytes c.effects
  pub unshut : shut_count c'.effects ≡ shut_count c.effects
  pub same_state : c'.state ≡ c.state

buffer_rest-Buffered :
    (c : Connection) (message : List ℕ)
    → IsFlowing c
    → length c.output_buffer.buffer + length message + 8 < 2 ^ 63
    → (c' : Connection) × (buffer_rest c message 0 ≡ some c') × Buffered c c' message
unfolding buffer_rest
buffer_rest-Buffered c [] f h = (
  c,
  refl,
  record {
    flowing = f;
    bytes = sym (append-nil (content c.output_buffer));
    unsent = refl;
    unshut = refl;
    same_state = refl;
  },
)
buffer_rest-Buffered c (m ∷ ms) f h =
    let (out, e, v, eq) = content-append c.output_buffer f.valid (m ∷ ms) h in
    let some_bytes : 0 < length (content out) =
      omega (arith, ap length eq, length-append (content c.output_buffer) (m ∷ ms)) in
    elim (Bool-cases (is_writing c.channel)) [
      | inl on ↦ (
        record c { output_buffer = out },
        ground (arith, e),
        record {
          flowing = record { valid = v; waiting = λ w. some_bytes; idle = λ w. cc };
          bytes = eq;
          unsent = refl;
          unshut = refl;
          same_state = refl;
        },
      )
      | inr off ↦ (
        emit (record c { output_buffer = out; channel = enable_writing c.channel }) update_channel,
        ground (arith, e),
        record {
          flowing = record {
            valid = v;
            waiting = λ w. some_bytes;
            idle = λ w. absurd (unfold enable_writing in cc w);
          };
          bytes = eq;
          unsent = sent_bytes-emit c update_channel ∙ append-nil (sent_bytes c.effects);
          unshut = omega (arith, shut_count-append c.effects (update_channel ∷ []));
          same_state = refl;
        },
      )
    ]

-- While the connection is up, `sendInLoop` never writes directly, whatever `::write` would return:
-- the whole message goes behind the waiting bytes, and the channel asks for writing.
pub send_in_loop-Buffered :
    (c : Connection) (message : List ℕ) (w : Write)
    → IsFlowing c
    → length c.output_buffer.buffer + length message + 8 < 2 ^ 63
    → (c' : Connection) × (send_in_loop c message w ≡ some c') × Buffered c c' message
unfolding send_in_loop
send_in_loop-Buffered c message w f h =
    let (c', e, b) = buffer_rest-Buffered c message f h in
    (
      c',
      elim (Bool-cases (is_writing c.channel)) [
        | inl on ↦ ground (arith, e)
        | inr off ↦
            let empty : readable_bytes c.output_buffer ≡ 0 =
              readable-content c.output_buffer f.valid ∙ ap length (f.idle off) in
            ground (arith, e)
      ],
      b,
    )
