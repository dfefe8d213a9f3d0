-- ===== src/TcpConnection/Output.antt =====
-- `handleWrite` and `shutdown`: the waiting bytes leave in order, and the write half is shut down only
-- behind the last of them.
use learn_for_cpp.Base.{
  ℕ, ◌+◌, ◌-◌, ◌≤◌, ◌<◌, ◌≡◌, subst, refl, sym, ap, ◌∙◌, true, false, some, List, [], ◌∷◌, ◌++◌,
  length, take, drop, arith, inl, inr, Bool-cases, append_assoc, append-nil, ◌==◌, if◌then◌else◌,
  length-drop, drop_all, take-append-drop,
}
use learn_for_cpp.Buffer.{readable_bytes}
use learn_for_cpp.Buffer.Parts.{IsValid, content}
use learn_for_cpp.Buffer.Content.{content-retrieve, readable-content, read_range-content}
use learn_for_cpp.Channel.{is_writing, disable_writing}
use learn_for_cpp.TcpConnection.{
  Connection, State, disconnecting, sent, shut_write, update_channel, queue_write_complete,
  log_error, Write, wrote, would_block, write_error, emit, shutdown_in_loop, write_completed,
  after_write, written, handle_write,
}
use learn_for_cpp.TcpConnection.Flow.{
  IsFlowing, stream, sent_bytes, shut_count, sent_bytes-append, shut_count-append, sent_bytes-emit,
}

-- How many bytes `::write` may have taken, by its contract.
abbrev pub Took : Connection → Write → Type 0
Took c (wrote n) = n ≤ length (content c.output_buffer)
Took c would_block = Unit {0}
Took c write_error = Unit {0}

abbrev pub taken : Write → ℕ
taken (wrote n) = n
taken would_block = 0
taken write_error = 0

-- 1 where a drained connection waits for its shutdown.
abbrev pub pending_shut : State → ℕ
pending_shut disconnecting = 1
pending_shut _ = 0

-- The effects and the output of `write_completed`.
record Completed (c c' : Connection) : Type 0 where
  same_output : c'.output_buffer ≡ c.output_buffer
  stopped : is_writing c'.channel ≡ false
  same_bytes : sent_bytes c'.effects ≡ sent_bytes c.effects
  same : c'.state ≡ c.state
  shuts : shut_count c'.effects ≡ shut_count c.effects + pending_shut c.state

write_completed-Completed : (c : Connection) → Completed c (write_completed c)
unfolding write_completed shutdown_in_loop disable_writing
write_completed-Completed c = ground (
  arith,
  sent_bytes-append c.effects (update_channel ∷ []),
  sent_bytes-append (c.effects ++ (update_channel ∷ [])) (queue_write_complete ∷ []),
  sent_bytes-append (c.effects ++ (update_channel ∷ [])) (shut_write ∷ []),
  sent_bytes-append ((c.effects ++ (update_channel ∷ [])) ++ (queue_write_complete ∷ []))
      (shut_write ∷ []),
  shut_count-append c.effects (update_channel ∷ []),
  shut_count-append (c.effects ++ (update_channel ∷ [])) (queue_write_complete ∷ []),
  shut_count-append (c.effects ++ (update_channel ∷ [])) (shut_write ∷ []),
  shut_count-append ((c.effects ++ (update_channel ∷ [])) ++ (queue_write_complete ∷ []))
      (shut_write ∷ []),
  append-nil (sent_bytes c.effects),
)

-- After `::write` took `n` of the waiting bytes.
after_write_lem :
    (c : Connection) (n : ℕ)
    → IsFlowing c
    → n ≤ length (content c.output_buffer)
    → is_writing c.channel ≡ true
    → (c' : Connection) × (after_write (emit c (sent (take n (content c.output_buffer)))) n
        ≡ some c')
      × IsFlowing c'
      × (stream c' ≡ stream c)
      × (c'.state ≡ c.state)
      × (content c'.output_buffer ≡ drop n (content c.output_buffer))
      × (shut_count c'.effects
          ≡ shut_count c.effects
            + (if n == length (content c.output_buffer) then pending_shut c.state else 0))
unfolding after_write
after_write_lem c n f h on = elim (content-retrieve c.output_buffer f.valid n) [
  | inr (short, e) ↦ absurd (omega arith)
  | inl (k, out, e, v, eq) ↦
      let bytes : List ℕ = content c.output_buffer in
      let c1 : Connection = emit c (sent (take n bytes)) in
      let c2 : Connection = record c1 { output_buffer = out } in
      let size : readable_bytes out ≡ length bytes - n =
        readable-content out v ∙ ap length eq ∙ length-drop n bytes in
      let told : sent_bytes c1.effects ≡ sent_bytes c.effects ++ take n bytes =
        sent_bytes-emit c (sent (take n bytes))
        ∙ ap (λ x. sent_bytes c.effects ++ x) (append-nil (take n bytes)) in
      let shuts : shut_count c1.effects ≡ shut_count c.effects =
        omega (arith, shut_count-append c.effects (sent (take n bytes) ∷ [])) in
      let flows : sent_bytes c1.effects ++ content out ≡ stream c =
        ap (λ x. x ++ content out) told
        ∙ ap (λ x. (sent_bytes c.effects ++ take n bytes) ++ x) eq
        ∙ append_assoc (sent_bytes c.effects) (take n bytes) (drop n bytes)
        ∙ ap (λ x. sent_bytes c.effects ++ x) (take-append-drop n bytes) in
      elim (Bool-cases (n == length bytes)) [
        | inl all ↦
            let d : Completed c2 (write_completed c2) = write_completed-Completed c2 in
            let empty : content out ≡ [] = eq ∙ drop_all n bytes (ground arith) in
            (
              write_completed c2,
              ground (arith, e, size),
              record {
                valid = subst IsValid (sym d.same_output) v;
                waiting = λ w. absurd (cc (d.stopped));
                idle = λ w. ap content d.same_output ∙ empty;
              },
              ap (λ x. x ++ content (write_completed c2).output_buffer) d.same_bytes
                  ∙ ap (λ b. sent_bytes c1.effects ++ content b) d.same_output
                  ∙ flows,
              d.same,
              ap content d.same_output ∙ eq,
              ground (arith, d.shuts, shuts),
            )
        | inr partly ↦
            let left : 0 < length (content out) = ground (arith, readable-content out v, size) in
            (
              c2,
              ground (arith, e, size),
              record { valid = v; waiting = λ w. left; idle = λ w. cc },
              flows,
              refl,
              eq,
              ground (arith, shuts),
            )
      ]
]

-- How often `handleWrite` has to shut the write half down: once, when its write takes the last waiting
-- byte of a connection that is disconnecting.
abbrev pub shuts_due : Connection → Write → ℕ
shuts_due c (wrote n) =
    if n == 0 then 0 else if n == length (content c.output_buffer) then pending_shut c.state else 0
shuts_due c would_block = 0
shuts_due c write_error = 0

nothing_due :
    (c : Connection) (w : Write)
    → IsFlowing c
    → Took c w
    → is_writing c.channel ≡ false
    → shut_count c.effects ≡ shut_count c.effects + shuts_due c w
nothing_due c (wrote n) f t off = ground (arith, ap length (f.idle off))
nothing_due c would_block f t off = omega arith
nothing_due c write_error f t off = omega arith

nothing_left :
    (c : Connection) (w : Write)
    → IsFlowing c
    → Took c w
    → is_writing c.channel ≡ false
    → content c.output_buffer ≡ drop (taken w) (content c.output_buffer)
nothing_left c (wrote n) f t off =
    f.idle off ∙ sym (drop_all n (content c.output_buffer) (omega (arith, ap length (f.idle off))))
nothing_left c would_block f t off = refl
nothing_left c write_error f t off = refl

-- The part of `handleWrite` behind its test.
abbrev Advanced : Connection → Write → Connection → Type 0
Advanced c w c' = record {
  flowing : IsFlowing c';
  rest : content c'.output_buffer ≡ drop (taken w) (content c.output_buffer);
  same_stream : stream c' ≡ stream c;
  same_state : c'.state ≡ c.state;
  shuts : shut_count c'.effects ≡ shut_count c.effects + shuts_due c w;
}

logged : (c : Connection) → IsFlowing c → Advanced c would_block (emit c log_error)
logged c f = record {
  flowing = record { valid = f.valid; waiting = f.waiting; idle = f.idle };
  rest = refl;
  same_stream =
      ap (λ x. x ++ content c.output_buffer)
        (sent_bytes-emit c log_error ∙ append-nil (sent_bytes c.effects));
  same_state = refl;
  shuts = omega (arith, shut_count-append c.effects (log_error ∷ []));
}

written_lem :
    (c : Connection) (w : Write)
    → IsFlowing c
    → Took c w
    → is_writing c.channel ≡ true
    → (c' : Connection) × (written c (content c.output_buffer) w ≡ some c') × Advanced c w c'
unfolding written
written_lem c would_block f t on = (emit c log_error, refl, logged c f)
written_lem c write_error f t on = (emit c log_error, refl, logged c f)
written_lem c (wrote n) f t on = elim (Bool-cases (n == 0)) [
  | inl none_taken ↦
      let l : Advanced c would_block (emit c log_error) = logged c f in
      (
        emit c log_error,
        rw none_taken,
        record {
          flowing = l.flowing;
          rest = ground arith;
          same_stream = l.same_stream;
          same_state = l.same_state;
          shuts = rw none_taken l.shuts;
        },
      )
  | inr some_taken ↦
      let (c', e, flowing, same_stream, same_state, rest, shuts) = after_write_lem c n f t on in
      (
        c',
        rw some_taken e,
        record {
          flowing = flowing;
          rest = rest;
          same_stream = same_stream;
          same_state = same_state;
          shuts = rw some_taken shuts;
        },
      )
]

-- On a connection whose output buffer is valid and whose channel writes exactly while bytes wait,
-- `handleWrite`, whatever `::write` returned within its contract, does not fault, keeps the state and the
-- stream of bytes (those sent, then those that wait), keeps the channel writing exactly while bytes wait, and
-- shuts the write half down exactly when the write took the last waiting byte of a connection that is
-- disconnecting.
pub handle_write_lem :
    (c : Connection) (w : Write)
    → IsFlowing c
    → Took c w
    → (c' : Connection) × (handle_write c w ≡ some c')
      × IsFlowing c'
      × (stream c' ≡ stream c)
      × (content c'.output_buffer ≡ drop (taken w) (content c.output_buffer))
      × (c'.state ≡ c.state)
      × (shut_count c'.effects ≡ shut_count c.effects + shuts_due c w)
unfolding handle_write
handle_write_lem c w f t = elim (Bool-cases (is_writing c.channel)) [
  | inr off ↦ (c, ground arith, f, refl, nothing_left c w f t off, refl, nothing_due c w f t off)
  | inl on ↦
      let (c', e, r) = written_lem c w f t on in
      (
        c',
        ground (arith, e, read_range-content c.output_buffer f.valid),
        r.flowing,
        r.same_stream,
        r.rest,
        r.same_state,
        r.shuts,
      )
]
