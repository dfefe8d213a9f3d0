-- ===== src/TcpServer/Connections.antt =====
-- The connections of a server, from accepting them to destroying them.
use learn_for_cpp.Base.{ℕ, ◌≡◌, some, List, [], ◌∷◌, ◌++◌}
use learn_for_cpp.Acceptor.{Accept}
use learn_for_cpp.TcpServer.{
  Server, new_server, new_pool, set_thread_num, start, listen_in_loop, accept_event,
  remove_connection_in_loop,
}
use learn_for_cpp.TcpServer.Inv.{Inv}
use learn_for_cpp.TcpServer.Steps.{begin-Inv, listen-Inv, accept-Inv, remove-Inv}

-- A server that was given a number of threads starts, listens, accepts connections and removes them.
pub data Runs (start_loop : ℕ → ℕ) (base threads : ℕ) : List Accept → Server → Type 0 where
  begins :
      {s : Server} (fd : ℕ)
      → start start_loop
          (record (new_server base fd) { pool = set_thread_num (new_pool base) threads })
        ≡ some s
      → Runs start_loop base threads [] s
  listens :
      {rs : List Accept} {s s' : Server}
      → Runs start_loop base threads rs s
      → listen_in_loop s ≡ some s'
      → Runs start_loop base threads rs s'
  accepts :
      {rs : List Accept} {s s' : Server} (r : Accept)
      → Runs start_loop base threads rs s
      → accept_event s r ≡ some s'
      → Runs start_loop base threads (rs ++ (r ∷ [])) s'
  removes :
      {rs : List Accept} {s s' : Server} (n : ℕ)
      → Runs start_loop base threads rs s
      → remove_connection_in_loop s n ≡ some s'
      → Runs start_loop base threads rs s'

-- Whatever `accept4` returns to a server: the descriptors that it gave are those of the connections
-- numbered from 1 on, in order, and none was closed instead; the connections in the map, and those
-- removed, have numbers given before and the loop of the server.
pub Inv-Runs :
    (start_loop : ℕ → ℕ) (base threads : ℕ) (rs : List Accept) (s : Server)
    → Runs start_loop base threads rs s
    → Inv start_loop base threads rs s
Inv-Runs start_loop base threads rs s (begins fd r) = begin-Inv start_loop base threads s fd r
Inv-Runs start_loop base threads rs s' (listens {s} run r) =
    listen-Inv start_loop base threads rs s s' (Inv-Runs start_loop base threads rs s run) r
Inv-Runs start_loop base threads rs s' (accepts {rs = qs} {s} a run r) =
    accept-Inv start_loop base threads qs s s' a (Inv-Runs start_loop base threads qs s run) r
Inv-Runs start_loop base threads rs s' (removes {s} n run r) =
    remove-Inv start_loop base threads rs s s' n (Inv-Runs start_loop base threads rs s run) r
