-- ===== src/TcpConnection/Lives.antt =====
-- The handlers that leave a connection connected or disconnecting, whatever their results.
use learn_for_cpp.Base.{
  ℕ, true, not, ◌&&◌, Option-cases, Bool-cases, some, inl, inr, List, [], ◌∷◌, ◌≡◌, refl, arith,
  drop, ◌==◌, read_range, take,
}
use learn_for_cpp.Buffer
use learn_for_cpp.Buffer.{Buffer, Readv, failed, got, read_fd, readable_bytes, retrieve}
use learn_for_cpp.TcpConnection.{
  Connection, Write, wrote, would_block, write_error, emit, sent, is_connected, handle_read,
  after_read, handle_error, handle_close, handle_write, written, after_write, write_completed,
  shutdown_in_loop, send, send_in_loop, buffer_rest, direct_write,
}
use learn_for_cpp.TcpConnection.Lifecycle.{lives}

after_read-lives :
    (c c' : Connection) (r : Readv) → lives c ≡ true → after_read c r ≡ some c' → lives c' ≡ true
unfolding after_read handle_close handle_error
after_read-lives c c' (failed errno) live e = ground (arith, live, e)
after_read-lives c c' (got []) live e = ground (arith, live, e)
after_read-lives c c' (got (x ∷ xs)) live e = ground (arith, live, e)

pub handle_read-lives :
    (c c' : Connection) (r : Readv) → lives c ≡ true → handle_read c r ≡ some c' → lives c' ≡ true
unfolding handle_read
handle_read-lives c c' r live e = elim (Option-cases (read_fd c.input_buffer r)) [
  | inl stuck ↦ ground (arith, e, stuck)
  | inr ((buf, errno), read) ↦
      after_read-lives (record c { input_buffer = buf }) c' r live (ground (arith, e, read))
]

write_completed_state : (c : Connection) → (write_completed c).state ≡ c.state
unfolding write_completed shutdown_in_loop
write_completed_state c = ground arith

after_write-lives :
    (c c' : Connection) (n : ℕ) → lives c ≡ true → after_write c n ≡ some c' → lives c' ≡ true
unfolding after_write
after_write-lives c c' n live e = elim (Option-cases (retrieve c.output_buffer n)) [
  | inl stuck ↦ ground (arith, e, stuck)
  | inr (out, r) ↦
      let same = write_completed_state (record c { output_buffer = out }) in
      ground (arith, e, r, same, live)
]

written-lives :
    (c c' : Connection) (bytes : List ℕ) (w : Write)
    → lives c ≡ true
    → written c bytes w ≡ some c'
    → lives c' ≡ true
unfolding written
written-lives c c' bytes (wrote n) live e = elim (Bool-cases (n == 0)) [
  | inl zero_bytes ↦ ground (arith, e, zero_bytes, live)
  | inr some_bytes ↦
      after_write-lives (emit c (sent (take n bytes))) c' n live (ground (arith, e, some_bytes))
]
written-lives c c' bytes would_block live e = ground (arith, e, live)
written-lives c c' bytes write_error live e = ground (arith, e, live)

pub handle_write-lives :
    (c c' : Connection) (w : Write) → lives c ≡ true → handle_write c w ≡ some c' → lives c' ≡ true
unfolding handle_write
handle_write-lives c c' w live e =
    let bytes =
      read_range c.output_buffer.buffer c.output_buffer.reader_index
        (readable_bytes c.output_buffer) in
    elim (Option-cases bytes) [
      | inl stuck ↦ ground (arith, e, stuck, live)
      | inr (bs, r) ↦ elim (Bool-cases c.channel.events.writable) [
        | inl writing ↦ written-lives c c' bs w live (ground (arith, e, r, writing))
        | inr quiet ↦ ground (arith, e, quiet, live)
      ]
    ]

buffer_rest-lives :
    (c c' : Connection) (message : List ℕ) (n : ℕ)
    → lives c ≡ true
    → buffer_rest c message n ≡ some c'
    → lives c' ≡ true
unfolding buffer_rest
buffer_rest-lives c c' message n live e =
    elim (Option-cases (Buffer.append c.output_buffer (drop n message))) [
      | inl stuck ↦ ground (arith, e, stuck, live)
      | inr (out, r) ↦ ground (arith, e, r, live)
    ]

direct_write_state :
    (c : Connection) (message : List ℕ) (w : Write) → (direct_write c message w).0.state ≡ c.state
unfolding direct_write
direct_write_state c message (wrote n) = ground arith
direct_write_state c message would_block = refl
direct_write_state c message write_error = refl

pub send-lives :
    (c c' : Connection) (message : List ℕ) (w : Write)
    → lives c ≡ true
    → send c true message w ≡ some c'
    → lives c' ≡ true
unfolding send send_in_loop
send-lives c c' message w live e = elim (Bool-cases (is_connected c.state)) [
  | inr down ↦ ground (arith, e, down, live)
  | inl up ↦
      let (d, n) = direct_write c message w in
      let same : lives d ≡ true = ground (arith, direct_write_state c message w, live) in
      elim (Bool-cases
        (not c.channel.events.writable && not (readable_bytes c.output_buffer == 0))) [
          | inl direct ↦ buffer_rest-lives d c' message n same (ground (arith, e, up, direct))
          | inr buffered ↦ buffer_rest-lives c c' message 0 live (ground (arith, e, up, buffered))
        ]
]
