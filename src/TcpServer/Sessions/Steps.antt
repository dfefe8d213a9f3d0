-- ===== src/TcpServer/Sessions/Steps.antt =====
-- Each event of a server keeps its objects right.
use learn_for_cpp.Base.{
  ℕ, ◌+◌, ◌≡◌, ◌≢◌, refl, sym, ap, ◌∙◌, subst, inl, inr, true, false, Option, Option-cases,
  Bool-cases, none, some, List, [], ◌∷◌, ◌++◌, arith, put, ◌==◌, if◌then◌else◌, ◌>>=◌,
}
use learn_for_cpp.Buffer.{Readv, failed, got}
use learn_for_cpp.Acceptor
use learn_for_cpp.Acceptor.{Acceptor, Accept, accepted, accept_error}
use learn_for_cpp.TcpConnection
use learn_for_cpp.TcpConnection.{
  Connection, Write, connecting, connect_established, connect_destroyed, handle_read, handle_write,
  handle_close, send,
}
use learn_for_cpp.TcpConnection.Lifecycle.{
  lives, connect_established-lives, handle_close-lives, connect_destroyed-lives,
}
use learn_for_cpp.TcpConnection.Lives.{handle_read-lives}
use learn_for_cpp.TcpServer.{Server, new_connection, hand, accept_event, get_next_loop, Effect}
use learn_for_cpp.TcpServer.Sessions.{
  World, accept, close_event, after_read, read_event, run_queue, do_pending,
}
use learn_for_cpp.TcpServer.Sessions.Inv.{Inv, count, put-Inv, remove_connection-Inv}

-- An object that is there lives.
lives_there : (w : World) (n : ℕ) (c : Connection) → Inv w → w.conns n ≡ some c → lives c ≡ true
lives_there w n c i here = let f = i.each n in ground (arith, f, here)

-- The functions of the queue end the objects that it names, and no others.
run_queue-Inv :
    (q : List ℕ) (w : World)
    → Inv (record w { queue = q })
    → (w' : World) × (run_queue q w ≡ some w')
      × Inv (record w' { queue = [] })
      × (w'.server ≡ w.server)
      × (w'.queue ≡ w.queue)
      × ((m : ℕ) → w'.conns m ≡ (if count m q == 0 then w.conns m else none))
unfolding run_queue
run_queue-Inv [] w i = (w, refl, i, refl, refl, λ m. refl)
run_queue-Inv (n ∷ q) w i = elim (Option-cases (w.conns n)) [
  | inl gone ↦ let f = i.each n in ground (arith, f, gone)
  | inr (c, here) ↦
      let f = i.each n in
      let live : lives c ≡ true = ground (arith, f, here) in
      let (c', r) = connect_destroyed-lives c live in
      let w1 : World = record w { conns = put w.conns n none } in
      let i1 : Inv (record w1 { queue = q }) = record {
        each = λ m. elim (Bool-cases (m == n)) [
          | inl it ↦ let mn : m ≡ n = ground (arith, it) in ground (arith, mn, f, here)
          | inr other ↦ let g = i.each m in ground (arith, other, g)
        ];
        unused = λ m h. let u = i.unused m h in ground (arith, u);
      } in
      let (w', r', i', same, left, each) = run_queue-Inv q w1 i1 in
      (
        w',
        ground (arith, here, r, r'),
        i',
        same,
        left,
        λ m. elim (Bool-cases (m == n)) [
          | inl it ↦ let e = each m in ground (arith, e, it)
          | inr other ↦ let e = each m in ground (arith, e, other)
        ],
      )
]

made-Inv :
    (w : World) (s : Server) (c : Connection) (loop : ℕ)
    → Inv w
    → s.connections ≡ put w.server.connections w.server.next_conn (some loop)
    → s.next_conn ≡ w.server.next_conn + 1
    → lives c ≡ true
    → Inv (record w { server = s; conns = put w.conns w.server.next_conn (some c) })
made-Inv w s c loop i map next live = record {
  each = λ m. elim (Bool-cases (m == w.server.next_conn)) [
    | inl new ↦
        let eq : m ≡ w.server.next_conn = ground (arith, new) in
        let gone = i.unused m (omega (arith, eq)) in
        let f = i.each m in
        let mapped : s.connections m ≡ some loop = ap (λ g. g m) map ∙ rw new refl in
        ground (arith, f, gone, mapped, new, live)
    | inr old ↦
        let f = i.each m in
        let same : s.connections m ≡ w.server.connections m = ap (λ g. g m) map ∙ rw old refl in
        ground (arith, f, same, old)
  ];
  unused = λ m h.
      let gone = i.unused m (omega (arith, h, next)) in
      let other : (m == w.server.next_conn) ≡ false = ground (arith, h, next) in
      ground (arith, gone, other);
}

pub accept-Inv : (w w' : World) (r : Accept) → Inv w → accept w r ≡ some w' → Inv w'
unfolding accept accept_event hand new_connection Acceptor.handle_read
accept-Inv w w' (accept_error errno) i e = let same : w ≡ w' = ground (arith, e) in subst Inv same i
accept-Inv w w' (accepted fd) i e = elim (Bool-cases w.server.acceptor.has_callback) [
  | inr unset ↦
      let after : World = record w {
        server = record (w.server) {
          acceptor = record (w.server.acceptor) { closed = fd ∷ w.server.acceptor.closed };
        };
      } in
      let same : after ≡ w' = ground (arith, e, unset) in
      let inv : Inv after = record { each = i.each; unused = i.unused } in subst Inv same inv
  | inl set ↦ elim (Option-cases (get_next_loop w.server.pool)) [
    | inl lost ↦ ground (arith, e, set, lost)
    | inr ((loop, pool), next) ↦
        let (c, made, live) =
          connect_established-lives (TcpConnection.new_connection fd)
            (unfold TcpConnection.new_connection in refl) in
        let s : Server = record (w.server) {
          next_conn = w.server.next_conn + 1;
          pool = pool;
          connections = put w.server.connections w.server.next_conn (some loop);
          sockets = w.server.sockets ++ (fd ∷ []);
          effects = Effect.establish w.server.next_conn ∷ w.server.effects;
        } in
        let after : World = record w {
          server = s;
          conns = put w.conns w.server.next_conn (some c);
        } in
        let same : after ≡ w' = ground (arith, e, set, next, made) in
        subst Inv same (made-Inv w s c loop i refl refl live)
  ]
]

-- A live object in the map is closed without a fault.
pub close_lem :
    (w : World) (n loop : ℕ)
    → Inv w
    → w.server.connections n ≡ some loop
    → (w' : World) × (close_event w n ≡ some w')
      × (w'.server.connections ≡ put w.server.connections n none)
      × (w'.queue ≡ w.queue ++ (n ∷ []))
      × ((m : ℕ) → m ≢ n → w'.conns m ≡ w.conns m)
      × Inv w'
unfolding close_event
close_lem w n loop i there = elim (Option-cases (w.conns n)) [
  | inl gone ↦ let f = i.each n in ground (arith, f, gone, there)
  | inr (c, here) ↦
      let (c', r, live) = handle_close-lives c (lives_there w n c i here) in
      let (w', r', map, conns, queue, i') = remove_connection-Inv w n loop c c' i there here live in
      (
        w',
        ground (arith, here, r, r'),
        map,
        queue,
        λ m other.
            let away : (m == n) ≡ false = ground (arith, other) in
            ap (λ f. f m) conns ∙ rw away refl,
        i',
      )
]

pub read-Inv :
    (w w' : World) (n loop : ℕ) (r : Readv)
    → Inv w
    → w.server.connections n ≡ some loop
    → read_event w n r ≡ some w'
    → Inv w'
unfolding read_event
read-Inv w w' n loop r i there e = elim (Option-cases (w.conns n)) [
  | inl gone ↦ ground (arith, e, gone)
  | inr (c, here) ↦ elim (Option-cases (handle_read c r)) [
    | inl stuck ↦ ground (arith, e, here, stuck)
    | inr (c', done) ↦
        let live = handle_read-lives c c' r (lives_there w n c i here) done in
        let rest : after_read w n c' r ≡ some w' = ground (arith, e, here, done) in
        go r c c' live here rest
  ]
]
  where
    go :
        (r : Readv) (c c' : Connection)
        → lives c' ≡ true
        → w.conns n ≡ some c
        → after_read w n c' r ≡ some w'
        → Inv w'
    go (failed errno) c c' live here rest =
        let same : record w { conns = put w.conns n (some c') } ≡ w' = ground (arith, rest) in
        subst Inv same (put-Inv w n c c' i here live)
    go (got []) c c' live here rest =
        let (v, r', _, _, _, i') = remove_connection-Inv w n loop c c' i there here live in
        let same : v ≡ w' = ground (arith, rest, r') in subst Inv same i'
    go (got (x ∷ xs)) c c' live here rest =
        let same : record w { conns = put w.conns n (some c') } ≡ w' = ground (arith, rest) in
        subst Inv same (put-Inv w n c c' i here live)

-- A handler that leaves the object alive.
abbrev on_object : World → ℕ → (Connection → Option Connection) → Option World
on_object w n f = do c ← w.conns n; c' ← f c; some (record w { conns = put w.conns n (some c') })

pub on_object-Inv :
    (w w' : World) (n : ℕ) (f : Connection → Option Connection)
    → ((c c' : Connection) → lives c ≡ true → f c ≡ some c' → lives c' ≡ true)
    → Inv w
    → on_object w n f ≡ some w'
    → Inv w'
on_object-Inv w w' n f keeps i e = elim (Option-cases (w.conns n)) [
  | inl gone ↦ ground (arith, e, gone)
  | inr (c, here) ↦ elim (Option-cases (f c)) [
    | inl stuck ↦ ground (arith, e, here, stuck)
    | inr (c', done) ↦
        let live = keeps c c' (lives_there w n c i here) done in
        let same : record w { conns = put w.conns n (some c') } ≡ w' =
          ground (arith, e, here, done) in
        subst Inv same (put-Inv w n c c' i here live)
  ]
]

pub pend_lem :
    (w : World)
    → Inv w
    → (w' : World) × (do_pending w ≡ some w')
      × Inv w'
      × (w'.server ≡ w.server)
      × (w'.queue ≡ [])
      × ((m : ℕ) → w'.conns m ≡ (if count m w.queue == 0 then w.conns m else none))
unfolding do_pending
pend_lem w i =
    let (w', r, i', same, empty, each) = run_queue-Inv w.queue (record w { queue = [] }) i in
    let whole : record w' { queue = [] } ≡ w' = ap (λ q. record w' { queue = q }) (sym empty) in
    (w', r, subst Inv whole i', same, empty, each)
