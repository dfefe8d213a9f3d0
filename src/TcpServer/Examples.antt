-- ===== src/TcpServer/Examples.antt =====
-- A server that accepts and removes a connection, and one with two threads, which does not.
use learn_for_cpp.Base.{◌+◌, ◌<◌, ◌≡◌, ◌↔◌, refl, true, none, some, [], ◌∷◌, put, arith}
use learn_for_cpp.Channel.{enable_reading}
use learn_for_cpp.Acceptor.{Acceptor, accepted, accept_error, new_acceptor, handle_read}
use learn_for_cpp.Acceptor
use learn_for_cpp.TcpServer.{
  Server, ThreadPool, establish, queue_destroy, run_listen, new_server, new_pool, set_thread_num,
  start, start_pool, listen_in_loop, new_connection, hand, accept_event, remove_connection_in_loop,
  get_next_loop,
}
use learn_for_cpp.TcpServer.Connections.{begins, listens, accepts, removes, Inv-Runs}
use learn_for_cpp.TcpServer.Inv.{Inv}
use learn_for_cpp.TcpServer.Threads.{accept_event-threads}

abbrev pool : ThreadPool
pool = record { base_loop = 9; started = true; num_threads = 0; next = 0; loops = [] }

abbrev started : Server
started = record {
  started = true;
  next_conn = 1;
  pool = pool;
  connections = λ n. none;
  sockets = [];
  acceptor = record (new_acceptor 5) { has_callback = true };
  effects = run_listen ∷ [];
}

abbrev listening : Server
listening = record started {
  acceptor = record (started.acceptor) {
    channel = enable_reading started.acceptor.channel;
    listenning = true;
  };
}

abbrev served : Server
served = record listening {
  next_conn = 2;
  connections = put (λ n. none) 1 (some 9);
  sockets = 12 ∷ [];
  effects = establish 1 ∷ run_listen ∷ [];
}

abbrev removed : Server
removed = record served {
  connections = put (put (λ n. none) 1 (some 9)) 1 none;
  effects = queue_destroy 9 1 ∷ establish 1 ∷ run_listen ∷ [];
}

starts :
    start (λ i. 20 + i) (record (new_server 9 5) { pool = set_thread_num (new_pool 9) 0 })
    ≡ some started
unfolding start start_pool new_server new_pool set_thread_num new_acceptor
starts = refl

listens_now : listen_in_loop started ≡ some listening
unfolding listen_in_loop Acceptor.listen
listens_now = refl

takes_one : accept_event listening (accepted 12) ≡ some served
unfolding accept_event handle_read hand new_connection get_next_loop new_acceptor
takes_one = refl

misses_one : accept_event served (accept_error 24) ≡ some served
unfolding accept_event handle_read hand
misses_one = refl

drops_one : remove_connection_in_loop served 1 ≡ some removed
unfolding remove_connection_in_loop
drops_one = refl

Inv-Runs_example : Inv (λ i. 20 + i) 9 0 (accepted 12 ∷ accept_error 24 ∷ []) removed
Inv-Runs_example =
    Inv-Runs (λ i. 20 + i) 9 0 (accepted 12 ∷ accept_error 24 ∷ []) removed
      (removes 1
        (accepts (accept_error 24)
          (accepts (accepted 12) (listens (begins 5 starts) listens_now) takes_one) misses_one)
        drops_one)

abbrev threaded : Server
threaded = record started {
  pool = record { base_loop = 9; started = true; num_threads = 2; next = 0; loops = 20 ∷ 21 ∷ [] };
}

threaded_starts :
    start (λ i. 20 + i) (record (new_server 9 5) { pool = set_thread_num (new_pool 9) 2 })
    ≡ some threaded
unfolding start start_pool new_server new_pool set_thread_num new_acceptor
threaded_starts = refl

accept_event-threads_example : (accept_event threaded (accepted 12) ≡ none) ↔ (0 < 2)
accept_event-threads_example =
    accept_event-threads (λ i. 20 + i) 9 2 [] threaded 12 (begins 5 threaded_starts)
      (λ i e. omega (arith, e))
