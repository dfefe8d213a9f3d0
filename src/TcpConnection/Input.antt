-- ===== src/TcpConnection/Input.antt =====
-- What the handlers do to the input buffer: reading fills it, sending and writing leave it alone.
use learn_for_cpp.Base.{
  ℕ, ◌+◌, ◌≤◌, ◌<◌, ◌^◌, ◌≡◌, refl, ◌∙◌, true, none, some, List, ◌∷◌, ◌++◌, length, drop, arith,
  inl, inr, Bool-cases, Option-cases, ltb, not, ◌&&◌, ◌==◌, take, read_range,
}
use learn_for_cpp.Buffer
use learn_for_cpp.Buffer.{Buffer, Readv, failed, got, read_fd, retrieve, readable_bytes}
use learn_for_cpp.Buffer.Parts.{IsValid, content}
use learn_for_cpp.Buffer.ReadFd.{content-read_fd}
use learn_for_cpp.Buffer.Growth.{read_fd-IsNear}
use learn_for_cpp.Channel.{is_writing, disable_writing}
use learn_for_cpp.TcpConnection.{
  Connection, Write, wrote, would_block, write_error, message_callback, log_error, sent, emit, send,
  send_in_loop, direct_write, buffer_rest, handle_read, after_read, handle_error, handle_write,
  written, after_write, write_completed, shutdown_in_loop,
}
use learn_for_cpp.TcpConnection.Flow.{stream, send_in_loop-Buffered}
use learn_for_cpp.TcpConnection.Session.{Inv, accepted, send-Inv}

-- Bytes are read: they go to the input buffer, and the message callback runs.
pub read_some_lem :
    (c : Connection) (x : ℕ) (xs : List ℕ)
    → IsValid c.input_buffer
    → 8 ≤ c.input_buffer.reader_index
    → length c.input_buffer.buffer + length (x ∷ xs) + 8 < 2 ^ 63
    → (b : Buffer) × (handle_read c (got (x ∷ xs))
        ≡ some (emit (record c { input_buffer = b }) message_callback))
      × IsValid b
      × (content b ≡ content c.input_buffer ++ (x ∷ xs))
      × (8 ≤ b.reader_index)
unfolding handle_read after_read
read_some_lem c x xs v near room =
    let (b, e, v', eq) = content-read_fd c.input_buffer v (got (x ∷ xs)) room in
    let n = read_fd-IsNear c.input_buffer b (got (x ∷ xs)) none e in
    (b, ground (arith, e), v', eq, ground (arith, n, near))

buffer_rest-input :
    (c c' : Connection) (m : List ℕ) (n : ℕ)
    → buffer_rest c m n ≡ some c'
    → c'.input_buffer ≡ c.input_buffer
unfolding buffer_rest
buffer_rest-input c c' m n e = elim (Bool-cases (ltb n (length m))) [
  | inr done ↦ let same : c ≡ c' = ground (arith, e, done) in ground (arith, same)
  | inl more ↦ elim (Option-cases (Buffer.append c.output_buffer (drop n m))) [
    | inl bad ↦ ground (arith, e, more, bad)
    | inr (out, r) ↦ ground (arith, e, more, r)
  ]
]

direct_write-input :
    (c : Connection) (m : List ℕ) (w : Write) → (direct_write c m w).0.input_buffer ≡ c.input_buffer
unfolding direct_write
direct_write-input c m (wrote n) = ground arith
direct_write-input c m would_block = refl
direct_write-input c m write_error = refl

send_in_loop-input :
    (c c' : Connection) (m : List ℕ) (w : Write)
    → send_in_loop c m w ≡ some c'
    → c'.input_buffer ≡ c.input_buffer
unfolding send_in_loop
send_in_loop-input c c' m w e =
    elim (Bool-cases (not (is_writing c.channel) && not (readable_bytes c.output_buffer == 0))) [
      | inl through ↦
          let (c1, n) = direct_write c m w in
          buffer_rest-input c1 c' m n (ground (arith, e, through)) ∙ direct_write-input c m w
      | inr behind ↦ buffer_rest-input c c' m 0 (ground (arith, e, behind))
    ]

-- `send` in the loop thread does not fail, and does not touch the input buffer.
pub send_lem :
    (d : Connection) (m : List ℕ) (w : Write)
    → Inv d
    → length d.output_buffer.buffer + length m + 8 < 2 ^ 63
    → (e : Connection) × (send d true m w ≡ some e)
      × Inv e
      × (stream e ≡ stream d ++ accepted d m)
      × (e.input_buffer ≡ d.input_buffer)
      × (e.state ≡ d.state)
unfolding send
send_lem d m w v room = elim (v.up) [
  | inl (up, unshut) ↦
      let (e, r, b) = send_in_loop-Buffered d m w v.flowing room in
      let sends : send d true m w ≡ some e = ground (arith, r, up) in
      let (v', s) = send-Inv d e m w v room sends in
      (e, sends, v', s, send_in_loop-input d e m w r, b.same_state)
  | inr (down, shut) ↦
      let stays : send d true m w ≡ some d = ground (arith, down) in
      let (v', s) = send-Inv d d m w v room stays in (d, stays, v', s, refl, refl)
]

write_completed-input : (c : Connection) → (write_completed c).input_buffer ≡ c.input_buffer
unfolding write_completed shutdown_in_loop disable_writing
write_completed-input c = ground arith

after_write-input :
    (c c' : Connection) (n : ℕ) → after_write c n ≡ some c' → c'.input_buffer ≡ c.input_buffer
unfolding after_write
after_write-input c c' n e = elim (Option-cases (retrieve c.output_buffer n)) [
  | inl bad ↦ ground (arith, e, bad)
  | inr (out, r) ↦
      let c1 : Connection = record c { output_buffer = out } in
      ground (arith, e, r, write_completed-input c1)
]

written-input :
    (c c' : Connection) (bytes : List ℕ) (w : Write)
    → written c bytes w ≡ some c'
    → c'.input_buffer ≡ c.input_buffer
unfolding written
written-input c c' bytes would_block e = ground (arith, e)
written-input c c' bytes write_error e = ground (arith, e)
written-input c c' bytes (wrote n) e = elim (Bool-cases (n == 0)) [
  | inl none_taken ↦ ground (arith, e, none_taken)
  | inr some_taken ↦
      after_write-input (emit c (sent (take n bytes))) c' n (ground (arith, e, some_taken))
]

pub handle_write-input :
    (c c' : Connection) (w : Write) → handle_write c w ≡ some c' → c'.input_buffer ≡ c.input_buffer
unfolding handle_write
handle_write-input c c' w e = elim (Bool-cases (is_writing c.channel)) [
  | inr off ↦ let same : c ≡ c' = ground (arith, e, off) in ground (arith, same)
  | inl on ↦
      elim (Option-cases (
        read_range c.output_buffer.buffer c.output_buffer.reader_index
          (readable_bytes c.output_buffer))) [
            | inl bad ↦ ground (arith, e, on, bad)
            | inr (bytes, r) ↦ written-input c c' bytes w (ground (arith, e, on, r))
          ]
]

-- A read that fails is logged twice and changes nothing else.
pub read_failed_lem :
    (c : Connection) (errno : ℕ)
    → handle_read c (failed errno) ≡ some (emit (emit c log_error) log_error)
unfolding handle_read read_fd after_read handle_error
read_failed_lem c errno = refl
