-- ===== src/TcpServer/Steps.antt =====
-- Each call and event of a server keeps it right.
use learn_for_cpp.Base.{
  ℕ, suc, ◌+◌, ◌%◌, ◌<◌, ◌≡◌, refl, sym, ap, ◌∙◌, subst, inl, inr, true, none, some, List, [], ◌∷◌,
  ◌++◌, arith, append-nil, Bool-cases, Option-cases, length, length-append, put, ◌==◌,
}
use learn_for_cpp.Channel.{enable_reading}
use learn_for_cpp.Acceptor.{Acceptor, Accept, accepted, accept_error, handle_read, new_acceptor}
use learn_for_cpp.Acceptor
use learn_for_cpp.TcpServer.{
  Server, ThreadPool, Effect, establish, queue_destroy, run_listen, new_server, new_pool,
  set_thread_num, start, start_pool, start_loops, listen_in_loop, new_connection, hand,
  accept_event, remove_connection_in_loop, get_next_loop,
}
use learn_for_cpp.TcpServer.Pool.{get_next_loop_lem}
use learn_for_cpp.TcpServer.Inv.{Inv, AreOwn, descriptors}

AreOwn-suc : (base k : ℕ) (es : List Effect) → AreOwn base k es → AreOwn base (suc k) es
AreOwn-suc base k [] h = tt
AreOwn-suc base k (establish n ∷ es) h = AreOwn-suc base k es h
AreOwn-suc base k (run_listen ∷ es) h = AreOwn-suc base k es h
AreOwn-suc base k (queue_destroy loop n ∷ es) (e, p, b, h) =
    (e, p, omega (arith, b), AreOwn-suc base k es h)

descriptors-append :
    (rs qs : List Accept) → descriptors (rs ++ qs) ≡ descriptors rs ++ descriptors qs
descriptors-append [] qs = refl
descriptors-append (accepted fd ∷ rs) qs = ap (λ l. fd ∷ l) (descriptors-append rs qs)
descriptors-append (accept_error errno ∷ rs) qs = descriptors-append rs qs

next_loop_lem :
    (p p' : ThreadPool) (k loop : ℕ)
    → (0 < length p.loops → p.next ≡ k % length p.loops)
    → get_next_loop p ≡ some (loop, p')
    → (p'.base_loop ≡ p.base_loop)
      × (p'.loops ≡ p.loops)
      × (0 < length p'.loops → p'.next ≡ suc k % length p'.loops)
next_loop_lem p p' k loop at r = elim (Bool-cases (length p.loops == 0)) [
  | inl empty ↦
      let same : p ≡ p' = unfold get_next_loop in ground (arith, r, empty) in
      let size : length p'.loops ≡ 0 = ground (arith, same, empty) in
      (
        ap (λ x. x.base_loop) (sym same),
        ap (λ x. x.loops) (sym same),
        λ h. absurd (omega (arith, h, size)),
      )
  | inr several ↦
      let some_loop : 0 < length p.loops = ground (arith, several) in
      let (l, t, e) = get_next_loop_lem p k some_loop (at some_loop) in
      let after : ThreadPool = record p { next = suc k % length p.loops } in
      let same : after ≡ p' = ground (arith, r, e) in
      (
        ap (λ x. x.base_loop) (sym same),
        ap (λ x. x.loops) (sym same),
        λ h. subst (λ x. x.next ≡ suc k % length x.loops) same refl,
      )
]

module _ (start_loop : ℕ → ℕ) (base threads : ℕ) where
  pub begin-Inv :
      (s : Server) (fd : ℕ)
      → start start_loop
          (record (new_server base fd) { pool = set_thread_num (new_pool base) threads })
        ≡ some s
      → Inv start_loop base threads [] s
  unfolding start start_pool new_server new_pool set_thread_num new_acceptor
  begin-Inv s fd r =
      let begun : Server = record (new_server base fd) {
        started = true;
        pool = record {
          base_loop = base;
          started = true;
          num_threads = threads;
          next = 0;
          loops = start_loops start_loop 0 threads;
        };
        effects = run_listen ∷ [];
      } in
      let same : begun ≡ s = ground (arith, r) in
      let inv : Inv start_loop base threads [] begun = record {
        handed = refl;
        none_closed = refl;
        numbered = refl;
        assigned = λ n loop e. ground (arith, e);
        destroyed = tt;
        has_callback = refl;
        base_loop = refl;
        loops = refl;
        next = λ h. omega (arith, h);
      } in
      subst (Inv start_loop base threads []) same inv

  pub listen-Inv :
      (rs : List Accept) (s s' : Server)
      → Inv start_loop base threads rs s
      → listen_in_loop s ≡ some s'
      → Inv start_loop base threads rs s'
  unfolding listen_in_loop Acceptor.listen
  listen-Inv rs s s' i r =
      let after : Server = record s {
        acceptor = record (s.acceptor) {
          channel = enable_reading s.acceptor.channel;
          listenning = true;
        };
      } in
      let same : after ≡ s' = ground (arith, r) in
      let inv : Inv start_loop base threads rs after = record {
        handed = i.handed;
        none_closed = i.none_closed;
        numbered = i.numbered;
        assigned = i.assigned;
        destroyed = i.destroyed;
        has_callback = i.has_callback;
        base_loop = i.base_loop;
        loops = i.loops;
        next = i.next;
      } in
      subst (Inv start_loop base threads rs) same inv

  accepted-Inv :
      (rs : List Accept) (s s' : Server) (fd : ℕ)
      → Inv start_loop base threads rs s
      → new_connection s fd ≡ some s'
      → Inv start_loop base threads (rs ++ (accepted fd ∷ [])) s'
  unfolding new_connection
  accepted-Inv rs s s' fd i r = elim (Option-cases (get_next_loop s.pool)) [
    | inl lost ↦ ground (arith, r, lost)
    | inr ((loop, pool), e) ↦
        let (b, l, n) = next_loop_lem s.pool pool (length s.sockets) loop i.next e in
        let after : Server = record s {
          next_conn = s.next_conn + 1;
          pool = pool;
          connections = put s.connections s.next_conn (some loop);
          sockets = s.sockets ++ (fd ∷ []);
          effects = establish s.next_conn ∷ s.effects;
        } in
        let own : loop ≡ s.pool.base_loop = ground (arith, r, e) in
        let same : after ≡ s' = ground (arith, r, e) in
        let size = length-append s.sockets (fd ∷ []) in
        let more : s.next_conn + 1 ≡ suc s.next_conn = omega arith in
        let inv : Inv start_loop base threads (rs ++ (accepted fd ∷ [])) after = record {
          handed =
              ap (λ x. x ++ (fd ∷ [])) i.handed ∙ sym (descriptors-append rs (accepted fd ∷ []));
          none_closed = i.none_closed;
          numbered = omega (arith, i.numbered, size);
          assigned = λ m l h. elim (Bool-cases (m == s.next_conn)) [
            | inl new ↦
                let here : some loop ≡ some l = rw new at h in
                ground (arith, here, own, i.base_loop, new, i.numbered)
            | inr old ↦
                let there : s.connections m ≡ some l = rw old at h in
                let (o, p, q) = i.assigned m l there in (o, p, omega (arith, q))
          ];
          destroyed =
              subst (λ k. AreOwn base k s.effects) (sym more)
                (AreOwn-suc base s.next_conn s.effects i.destroyed);
          has_callback = i.has_callback;
          base_loop = b ∙ i.base_loop;
          loops = l ∙ i.loops;
          next = λ h. n h ∙ ap (λ x. x % length pool.loops) (omega (arith, size));
        } in
        subst (Inv start_loop base threads (rs ++ (accepted fd ∷ []))) same inv
  ]

  pub accept-Inv :
      (rs : List Accept) (s s' : Server) (a : Accept)
      → Inv start_loop base threads rs s
      → accept_event s a ≡ some s'
      → Inv start_loop base threads (rs ++ (a ∷ [])) s'
  unfolding accept_event handle_read hand
  accept-Inv rs s s' (accepted fd) i r =
      accepted-Inv rs s s' fd i (ground (arith, r, i.has_callback))
  accept-Inv rs s s' (accept_error errno) i r =
      let same : s ≡ s' = ground (arith, r) in
      let none_more : descriptors rs ≡ descriptors (rs ++ (accept_error errno ∷ [])) =
        sym (descriptors-append rs (accept_error errno ∷ []) ∙ append-nil (descriptors rs)) in
      subst (Inv start_loop base threads (rs ++ (accept_error errno ∷ []))) same (record {
        handed = i.handed ∙ none_more;
        none_closed = i.none_closed;
        numbered = i.numbered;
        assigned = i.assigned;
        destroyed = i.destroyed;
        has_callback = i.has_callback;
        base_loop = i.base_loop;
        loops = i.loops;
        next = i.next;
      })

  pub remove-Inv :
      (rs : List Accept) (s s' : Server) (n : ℕ)
      → Inv start_loop base threads rs s
      → remove_connection_in_loop s n ≡ some s'
      → Inv start_loop base threads rs s'
  unfolding remove_connection_in_loop
  remove-Inv rs s s' n i r = elim (Option-cases (s.connections n)) [
    | inl gone ↦ ground (arith, r, gone)
    | inr (loop, here) ↦
        let after : Server = record s {
          connections = put s.connections n none;
          effects = queue_destroy loop n ∷ s.effects;
        } in
        let same : after ≡ s' = ground (arith, r, here) in
        let (own, p, q) = i.assigned n loop here in
        let inv : Inv start_loop base threads rs after = record {
          handed = i.handed;
          none_closed = i.none_closed;
          numbered = i.numbered;
          assigned = λ m l h. elim (Bool-cases (m == n)) [
            | inl it ↦ let lost : none ≡ some l = rw it at h in ground (arith, lost)
            | inr other ↦
                let there : s.connections m ≡ some l = rw other at h in i.assigned m l there
          ];
          destroyed = (own, p, q, i.destroyed);
          has_callback = i.has_callback;
          base_loop = i.base_loop;
          loops = i.loops;
          next = i.next;
        } in
        subst (Inv start_loop base threads rs) same inv
  ]
