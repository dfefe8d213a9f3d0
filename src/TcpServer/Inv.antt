-- ===== src/TcpServer/Inv.antt =====
-- What holds of a server between its events.
use learn_for_cpp.Base.{ℕ, suc, ◌%◌, ◌<◌, ◌≡◌, true, some, List, [], ◌∷◌, length}
use learn_for_cpp.Acceptor.{Accept, accepted, accept_error}
use learn_for_cpp.TcpServer.{Server, Effect, queue_destroy, start_loops}

-- Connections of numbers below `k`, in the loop `base`.
abbrev pub AreOwn : ℕ → ℕ → List Effect → Type 0
AreOwn base k [] = Unit {0}
AreOwn base k (queue_destroy loop n ∷ es) = (loop ≡ base) × (0 < n) × (n < k) × AreOwn base k es
AreOwn base k (_ ∷ es) = AreOwn base k es

abbrev pub descriptors : List Accept → List ℕ
descriptors [] = []
descriptors (accepted fd ∷ rs) = fd ∷ descriptors rs
descriptors (accept_error errno ∷ rs) = descriptors rs

-- After `accept4` returned `rs`.
pub record Inv (start_loop : ℕ → ℕ) (base threads : ℕ) (rs : List Accept) (s : Server)
    : Type 0 where
  pub handed : s.sockets ≡ descriptors rs
  pub none_closed : s.acceptor.closed ≡ []
  pub numbered : s.next_conn ≡ suc (length s.sockets)
  pub assigned :
      (n loop : ℕ) → s.connections n ≡ some loop → (loop ≡ base) × (0 < n) × (n < s.next_conn)
  pub destroyed : AreOwn base s.next_conn s.effects
  pub has_callback : s.acceptor.has_callback ≡ true
  pub base_loop : s.pool.base_loop ≡ base
  pub loops : s.pool.loops ≡ start_loops start_loop 0 threads
  pub next : 0 < length s.pool.loops → s.pool.next ≡ length s.sockets % length s.pool.loops
