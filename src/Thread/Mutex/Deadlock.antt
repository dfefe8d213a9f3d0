-- ===== src/Thread/Mutex/Deadlock.antt =====
-- What threads reach by locking and unlocking, and why they cannot wait for each other in a circle.
use mathlib.Core.List.{Mem}
use learn_for_cpp.Base.{
  ℕ, ◌<◌, ◌≤◌, ◌≡◌, refl, ap, subst, Bool, true, false, some, List, [], ◌∷◌, arith, if◌then◌else◌,
}
use learn_for_cpp.Thread.Mutex.{
  Thread, new_thread, new_mutex, check_for_hierarchy_violation, lock, unlock, try_lock,
}
use learn_for_cpp.Thread.Mutex.Hierarchy.{
  Holds, level, lock-Holds, unlock-Holds, above_mem, above_lower,
}

-- The states of a thread, with the mutexes that it holds: it locks, and unlocks what it holds.
pub data Runs (values : ℕ → ℕ) : Thread → List ℕ → Type 0 where
  begins : Runs values (new_thread values) []
  locks :
      {t t' : Thread} {held : List ℕ} (m : ℕ)
      → Runs values t held
      → lock t m ≡ some t'
      → Runs values t' (m ∷ held)
  tries :
      {t t' : Thread} {held : List ℕ} (m : ℕ) (free : Bool)
      → Runs values t held
      → try_lock t m free ≡ some (free, t')
      → Runs values t' (if free then m ∷ held else held)
  unlocks :
      {t t' : Thread} {n : ℕ} {ns : List ℕ} (m : ℕ)
      → Runs values t (n ∷ ns)
      → Mem m (n ∷ ns)
      → unlock t m ≡ some t'
      → Runs values t' ns

try_lock-Holds :
    (values : ℕ → ℕ) (t t' : Thread) (m : ℕ) (free : Bool) (held : List ℕ)
    → Holds values t held
    → try_lock t m free ≡ some (free, t')
    → Holds values t' (if free then m ∷ held else held)
unfolding try_lock lock
try_lock-Holds values t t' m true held h r = (lock-Holds values t t' m held h (ground (arith, r))).0
try_lock-Holds values t t' m false held h r =
    let same : t ≡ t' = ground (arith, r) in subst (λ x. Holds values x held) same h

-- Whatever a thread locks, tries and unlocks, the mutexes that it holds have values that fall from the
-- first to the last one locked, and its own value is that of the last one.
pub Holds-Runs :
    (values : ℕ → ℕ) (t : Thread) (held : List ℕ) → Runs values t held → Holds values t held
unfolding new_thread new_mutex
Holds-Runs values t held begins = record { now = refl; fixed = λ m. refl; stack = tt }
Holds-Runs values t held (locks {t = s} {held = ms} m run r) =
    (lock-Holds values s t m ms (Holds-Runs values s ms run) r).0
Holds-Runs values t held (tries {t = s} {held = ms} m free run r) =
    try_lock-Holds values s t m free ms (Holds-Runs values s ms run) r
Holds-Runs values t held (unlocks {t = s} {n} {ns} m run i r) =
    (unlock-Holds values s t m n ns (Holds-Runs values s (n ∷ ns) run) i r).1

-- A thread that passed the check of `lock` and waits for the mutex `wanted`.
pub record Waiter (values : ℕ → ℕ) : Type 0 where
  pub thread : Thread
  pub held : List ℕ
  pub wanted : ℕ
  pub runs : Runs values thread held
  pub passed : check_for_hierarchy_violation thread wanted ≡ some tt

wanted_lower :
    (values : ℕ → ℕ) (w : Waiter values) (m : ℕ) → Mem m w.held → values w.wanted < values m
unfolding check_for_hierarchy_violation
wanted_lower values w m i =
    let h = Holds-Runs values w.thread w.held w.runs in
    let below : values w.wanted < level values w.held =
      ground (arith, w.passed, h.now, h.fixed w.wanted) in
    above_mem values (values w.wanted) m w.held
      (above_lower values (values w.wanted) w.thread.mutexes w.held below h.stack) i

-- Each thread waits for a mutex that the next one holds; the last one waits for `m`.
abbrev pub WaitsFor : (values : ℕ → ℕ) → Waiter values → List (Waiter values) → ℕ → Type 0
WaitsFor values w [] m = w.wanted ≡ m
WaitsFor values w (v ∷ ws) m = Mem w.wanted v.held × WaitsFor values v ws m

chain_lower :
    (values : ℕ → ℕ) (w : Waiter values) (ws : List (Waiter values)) (m : ℕ)
    → WaitsFor values w ws m
    → values m ≤ values w.wanted
chain_lower values w [] m e = omega (arith, ap values e)
chain_lower values w (v ∷ ws) m (i, c) =
    omega (arith, wanted_lower values v w.wanted i, chain_lower values v ws m c)

-- Threads never wait for each other in a circle: in a chain of threads of which each passed the check
-- and waits for a mutex that the next one holds, the last one does not wait for a mutex of the first.
pub lock-not-circular :
    (values : ℕ → ℕ) (w : Waiter values) (ws : List (Waiter values)) (m : ℕ)
    → WaitsFor values w ws m
    → ¬ Mem m w.held
lock-not-circular values w ws m c i =
    absurd (omega (arith, wanted_lower values w m i, chain_lower values w ws m c))
