-- ===== src/TcpServer/Sessions/Inv.antt =====
-- What holds of the objects of a server between the events.
use learn_for_cpp.Base.{
  ℕ, ◌+◌, ◌≤◌, ◌≡◌, refl, inl, inr, Bool, true, false, not, ◌&&◌, Option, Bool-cases, none, some,
  List, [], ◌∷◌, ◌++◌, arith, put, ◌==◌, if◌then◌else◌,
}
use learn_for_cpp.TcpConnection.{Connection}
use learn_for_cpp.TcpConnection.Lifecycle.{lives}
use learn_for_cpp.TcpServer.{Server, queue_destroy, remove_connection_in_loop}
use learn_for_cpp.TcpServer.Sessions.{World, remove_connection}

abbrev pub is_mapped : Option ℕ → Bool
is_mapped none = false
is_mapped (some loop) = true

abbrev pub count : ℕ → List ℕ → ℕ
count n [] = 0
count n (m ∷ ms) = (if n == m then 1 else 0) + count n ms

-- An object is there exactly while it is in the map or its end is queued, once.
abbrev pub fits : Option Connection → Bool → ℕ → Bool
fits none mapped queued = not mapped && (queued == 0)
fits (some conn) mapped queued = lives conn && (if mapped then queued == 0 else queued == 1)

pub record Inv (w : World) : Type 0 where
  pub each :
      (n : ℕ) → fits (w.conns n) (is_mapped (w.server.connections n)) (count n w.queue) ≡ true
  pub unused : (n : ℕ) → w.server.next_conn ≤ n → w.conns n ≡ none

pub count-append :
    (n m : ℕ) (q : List ℕ) → count n (q ++ (m ∷ [])) ≡ count n q + (if n == m then 1 else 0)
count-append n m [] = ground arith
count-append n m (k ∷ q) = ground (arith, count-append n m q)

-- A live object may be replaced by another.
pub put-Inv :
    (w : World) (n : ℕ) (c c' : Connection)
    → Inv w
    → w.conns n ≡ some c
    → lives c' ≡ true
    → Inv (record w { conns = put w.conns n (some c') })
put-Inv w n c c' i here live = record {
  each = λ m. elim (Bool-cases (m == n)) [
    | inl it ↦
        let mn : m ≡ n = ground (arith, it) in
        let before = i.each n in ground (arith, mn, before, here, live)
    | inr other ↦ let before = i.each m in ground (arith, other, before)
  ];
  unused = λ m h. elim (Bool-cases (m == n)) [
    | inl it ↦ let gone = i.unused m h in ground (arith, gone, it, here)
    | inr other ↦ let gone = i.unused m h in ground (arith, gone, other)
  ];
}

-- A connection in the map may be removed.
pub remove_connection-Inv :
    (w : World) (n loop : ℕ) (c c' : Connection)
    → Inv w
    → w.server.connections n ≡ some loop
    → w.conns n ≡ some c
    → lives c' ≡ true
    → (w' : World) × (remove_connection w n c' ≡ some w')
      × (w'.server.connections ≡ put w.server.connections n none)
      × (w'.conns ≡ put w.conns n (some c'))
      × (w'.queue ≡ w.queue ++ (n ∷ []))
      × Inv w'
unfolding remove_connection remove_connection_in_loop
remove_connection-Inv w n loop c c' i there here live =
    let s : Server = record (w.server) {
      connections = put w.server.connections n none;
      effects = queue_destroy loop n ∷ w.server.effects;
    } in
    let after : World = record w {
      server = s;
      conns = put w.conns n (some c');
      queue = w.queue ++ (n ∷ []);
    } in
    let i' = put-Inv w n c c' i here live in
    let inv : Inv after = record {
      each = λ m. elim (Bool-cases (m == n)) [
        | inl it ↦
            let mn : m ≡ n = ground (arith, it) in
            let before = i.each n in
            ground (arith, mn, before, there, here, live, count-append n n w.queue)
        | inr other ↦
            let before = i.each m in ground (arith, other, before, count-append m n w.queue)
      ];
      unused = i'.unused;
    } in
    (after, ground (arith, there), refl, refl, refl, inv)
