-- ===== src/TcpServer.antt =====
-- reactor/TcpServer.h and TcpServer.cc with EventLoopThreadPool.h and .cc, and the Acceptor. A loop is a
-- number. The name of a connection is `name_` with "#" and its number, so the map is keyed by the number
-- (no int overflow). A failed assertion, an abort, or an index out of range, is `none`.
pub mod Pool
pub mod Inv
mod Steps
pub mod Connections
pub mod Threads
pub mod Sessions
mod Examples
use learn_for_cpp.Base.{
  ℕ, zero, suc, ◌+◌, ◌≤◌, Bool, true, false, not, Option, none, some, List, [], ◌∷◌, ◌++◌, length,
  get_elem?, leb, put, ◌==◌, if◌then◌else◌, ◌>>=◌, ◌>>◌, assert,
}
use learn_for_cpp.Acceptor
use learn_for_cpp.Acceptor.{Acceptor, Accept, new_acceptor, set_new_connection_callback}

pub record ThreadPool : Type 0 where
  pub base_loop : ℕ
  pub started : Bool
  pub num_threads : ℕ
  pub next : ℕ
  pub loops : List ℕ

pub new_pool : ℕ → ThreadPool
new_pool base_loop = record {
  base_loop = base_loop;
  started = false;
  num_threads = 0;
  next = 0;
  loops = [];
}

pub set_thread_num : ThreadPool → ℕ → ThreadPool
set_thread_num p n = record p { num_threads = n }

-- The loops of `n` new threads, from number `i` on: `start_loop i` is what the thread's `startLoop`
-- returns.
abbrev pub start_loops : (ℕ → ℕ) → ℕ → ℕ → List ℕ
start_loops start_loop i zero = []
start_loops start_loop i (suc n) = start_loop i ∷ start_loops start_loop (suc i) n

pub start_pool : (ℕ → ℕ) → ThreadPool → Option ThreadPool
start_pool start_loop p = do
  assert (not p.started)
  some (record p { started = true; loops = p.loops ++ start_loops start_loop 0 p.num_threads })

unfoldable pub get_next_loop : ThreadPool → Option (ℕ × ThreadPool)
get_next_loop p = if length p.loops == 0 then some (p.base_loop, p) else (do
  loop ← get_elem? p.loops p.next
  some (loop, record p { next = if leb (length p.loops) (p.next + 1) then 0 else p.next + 1 }))

pub data Effect : Type 0 where
  -- `connectEstablished` of a connection, at once.
  establish : ℕ → Effect
  -- `connectDestoryed` of a connection, queued in a loop.
  queue_destroy : ℕ → ℕ → Effect
  -- `Acceptor::listen`, handed to the loop.
  run_listen : Effect

pub record Server : Type 0 where
  pub started : Bool
  pub next_conn : ℕ
  pub pool : ThreadPool
  -- `connections_`: each connection with its loop.
  pub connections : ℕ → Option ℕ
  -- The sockets given to connections, in the order of their numbers.
  pub sockets : List ℕ
  pub acceptor : Acceptor
  pub effects : List Effect

pub new_server : ℕ → ℕ → Server
unfolding new_pool
new_server loop fd = record {
  started = false;
  next_conn = 1;
  pool = new_pool loop;
  connections = λ n. none;
  sockets = [];
  acceptor = set_new_connection_callback (new_acceptor fd);
  effects = [];
}

unfoldable pub start : (ℕ → ℕ) → Server → Option Server
start start_loop s = do
  s' ←
      (if s.started then some s else (do
        pool ← start_pool start_loop s.pool
        some (record s { started = true; pool = pool })))
  some (if s'.acceptor.listenning then s' else record s' { effects = run_listen ∷ s'.effects })

-- The function that `start` hands to the loop.
unfoldable pub listen_in_loop : Server → Option Server
listen_in_loop s = do a ← Acceptor.listen true s.acceptor; some (record s { acceptor = a })

-- `connectEstablished` is called in the thread of the server's loop, and the connection's loop ends the
-- program where that is not its own thread (`assertInLoopThread`).
unfoldable pub new_connection : Server → ℕ → Option Server
new_connection s sockfd = do
  (loop, pool) ← get_next_loop s.pool
  assert (loop == s.pool.base_loop)
  some (record s {
    next_conn = s.next_conn + 1;
    pool = pool;
    connections = put s.connections s.next_conn (some loop);
    sockets = s.sockets ++ (sockfd ∷ []);
    effects = establish s.next_conn ∷ s.effects;
  })

-- `handleRead` of the acceptor with its callback `newConnection`.
unfoldable pub hand : Server → Option ℕ → Option Server
hand s none = some s
hand s (some sockfd) = new_connection s sockfd

unfoldable pub accept_event : Server → Accept → Option Server
accept_event s r = do
  (sockfd, a) ← Acceptor.handle_read true s.acceptor r
  hand (record s { acceptor = a }) sockfd

-- `erase` of the map returns 1, and the connection's own loop destroys it.
unfoldable pub remove_connection_in_loop : Server → ℕ → Option Server
remove_connection_in_loop s n = do
  loop ← s.connections n
  some (record s {
    connections = put s.connections n none;
    effects = queue_destroy loop n ∷ s.effects;
  })
