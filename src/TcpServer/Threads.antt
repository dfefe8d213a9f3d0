-- ===== src/TcpServer/Threads.antt =====
-- A server whose connections would run in threads of a pool.
use learn_for_cpp.Base.{
  ℕ, zero, suc, ◌%◌, ◌<◌, ◌≡◌, ◌≢◌, ◌↔◌, sym, ap, ◌∙◌, none, some, List, arith, length, get_elem?,
}
use learn_for_cpp.Acceptor.{Accept, accepted, handle_read}
use learn_for_cpp.TcpServer.{Server, start_loops, new_connection, hand, accept_event, get_next_loop}
use learn_for_cpp.TcpServer.Pool.{get_next_loop_lem}
use learn_for_cpp.TcpServer.Connections.{Runs, Inv-Runs}
use learn_for_cpp.TcpServer.Inv.{Inv}

start_loops-elem :
    (start_loop : ℕ → ℕ) (i n j loop : ℕ)
    → get_elem? (start_loops start_loop i n) j ≡ some loop
    → (k : ℕ) × (loop ≡ start_loop k)
start_loops-elem start_loop i zero j loop e = ground (arith, e)
start_loops-elem start_loop i (suc n) zero loop e = (i, ground (arith, e))
start_loops-elem start_loop i (suc n) (suc j) loop e =
    start_loops-elem start_loop (suc i) n j loop e

module _ (start_loop : ℕ → ℕ) (base : ℕ) (rs : List Accept) (s : Server) (fd : ℕ) where
  alone : Inv start_loop base 0 rs s → accept_event s (accepted fd) ≢ none
  unfolding accept_event handle_read hand new_connection get_next_loop
  alone i e =
      let empty : length s.pool.loops ≡ 0 = ap length i.loops in
      ground (arith, e, empty, i.has_callback)

  elsewhere :
      (threads : ℕ)
      → Inv start_loop base (suc threads) rs s
      → ((i : ℕ) → start_loop i ≢ base)
      → accept_event s (accepted fd) ≡ none
  unfolding accept_event handle_read hand new_connection
  elsewhere threads i other =
      let size : length s.pool.loops ≡ length (start_loops start_loop 0 (suc threads)) =
        ap length i.loops in
      let some_loop : 0 < length s.pool.loops = omega (arith, size) in
      let (loop, t, e) = get_next_loop_lem s.pool (length s.sockets) some_loop (i.next some_loop) in
      let index = length s.sockets % length s.pool.loops in
      let there : get_elem? (start_loops start_loop 0 (suc threads)) index ≡ some loop =
        ap (λ l. get_elem? l index) (sym i.loops) ∙ t in
      let (k, own) = start_loops-elem start_loop 0 (suc threads) index loop there in
      let apart : loop ≢ s.pool.base_loop = λ eq. other k (sym own ∙ eq ∙ i.base_loop) in
      ground (arith, e, apart, i.has_callback)

-- The defect: a server accepts no connection exactly if it was given threads, whose loops are not its
-- own: `newConnection` calls `connectEstablished` in the thread of the server's loop, and the loop of
-- the new connection, which is another thread's, ends the program.
pub accept_event-threads :
    (start_loop : ℕ → ℕ) (base threads : ℕ) (rs : List Accept) (s : Server) (fd : ℕ)
    → Runs start_loop base threads rs s
    → ((i : ℕ) → start_loop i ≢ base)
    → (accept_event s (accepted fd) ≡ none) ↔ (0 < threads)
accept_event-threads start_loop base zero rs s fd run other = (
  λ e. absurd (alone start_loop base rs s fd (Inv-Runs start_loop base 0 rs s run) e),
  λ h. absurd (omega (arith, h)),
)
accept_event-threads start_loop base (suc threads) rs s fd run other = (
  λ e. omega arith,
  λ h.
      elsewhere start_loop base rs s fd threads (Inv-Runs start_loop base (suc threads) rs s run)
        other,
)
