-- ===== src/TcpClient/Ends.antt =====
-- The connection of a client is removed, and what is queued runs.
use learn_for_cpp.Base.{
  ℕ, true, ◌&&◌, Option, none, some, List, [], ◌∷◌, ◌++◌, ◌==◌, put, ◌≡◌, ◌⊎◌, inl, inr, refl,
  arith, Bool-cases, Option-cases,
}
use learn_for_cpp.Connector.{Connector, Errno, reset_channel}
use learn_for_cpp.Connector.Attempt.{is_tidy, restart_total}
use learn_for_cpp.TcpConnection.{Connection}
use learn_for_cpp.TcpConnection.Lifecycle.{lives, handle_close-lives, connect_destroyed-lives}
use learn_for_cpp.TcpClient.{
  Client, Queued, resets, destroys, starts, shuts, remove_connection, close_event, run_queue,
  do_pending,
}
use learn_for_cpp.TcpClient.Inv.{Inv, fits}
use learn_for_cpp.TcpClient.Steps.{put-Inv}

-- The connection of the client is removed: nothing fails, and the client has none.
pub remove-Inv :
    (c : Client) (n : ℕ) (conn' : Connection) (fd : ℕ) (errno : Errno)
    → c.queue ≡ []
    → c.connection ≡ some n
    → lives conn' ≡ true
    → Inv c
    → (c' : Client) × (remove_connection
          (record c { conns = put c.conns n (some conn') })
          n
          fd
          errno
        ≡ some c')
      × (c'.connection ≡ none)
      × (c'.queue ≡ destroys n ∷ [])
      × (((c.retry && c.connect) ≡ true) ⊎ (c'.connector ≡ c.connector))
      × Inv c'
unfolding remove_connection
remove-Inv c n conn' fd errno q e live v =
    let v1 = put-Inv c n conn' (ground (arith, e)) live v in
    let (k, rk, tidy) = restart_total c.connector fd errno (ground (arith, v.fitting, e, q)) in
    let gone : (k' : Connector)
        → is_tidy k' ≡ true
        → Inv (record c {
          connection = none;
          connector = k';
          conns = put c.conns n (some conn');
          queue = c.queue ++ (destroys n ∷ []);
        }) =
      λ k' t. record {
        fitting = ground (arith, q, t);
        live = ground (arith, q, v1.live, e);
        numbered = ground (arith, q, v1.numbered, e);
        only = λ m. ground (arith, q, e, v1.only m);
      } in
    elim (Bool-cases (c.retry && c.connect)) [
      | inl again ↦
          (_, ground (arith, rk, again, e), refl, ground (arith, q), inl again, gone k tidy)
      | inr over ↦ (
        _,
        ground (arith, over, e),
        refl,
        ground (arith, q),
        inr refl,
        gone c.connector (ground (arith, v.fitting, e, q)),
      )
    ]

-- The connection of the client is lost.
pub close-Inv :
    (c : Client) (n fd : ℕ) (errno : Errno)
    → c.queue ≡ []
    → c.connection ≡ some n
    → Inv c
    → (c' : Client) × (close_event c n fd errno ≡ some c')
      × (c'.connection ≡ none)
      × (c'.queue ≡ destroys n ∷ [])
      × (((c.retry && c.connect) ≡ true) ⊎ (c'.connector ≡ c.connector))
      × Inv c'
unfolding close_event
close-Inv c n fd errno q e v = elim (Option-cases (c.conns n)) [
  | inl bad ↦ absurd (ground (arith, v.live, e, bad))
  | inr (conn, at) ↦
      let (conn', r, live) = handle_close-lives conn (ground (arith, v.live, e, at)) in
      let (c', r', gone, queued, tried, v') = remove-Inv c n conn' fd errno q e live v in
      (c', ground (arith, at, r, r'), gone, queued, tried, v')
]

-- What is queued runs without a fault; then nothing is queued, and an object that was to be destroyed
-- is gone.
pub pend-Inv :
    (o : Option ℕ) (q : List Queued) (c : Client)
    → c.connection ≡ o
    → c.queue ≡ q
    → fits o q c.connector ≡ true
    → Inv c
    → (c' : Client) × (do_pending c ≡ some c')
      × (c'.queue ≡ [])
      × (c'.connection ≡ c.connection)
      × (is_tidy c'.connector ≡ true)
      × Inv c'
unfolding do_pending run_queue reset_channel
pend-Inv none [] c e q f v = (c, ground (arith, q), q, refl, f, v)
pend-Inv (some n) [] c e q f v = (c, ground (arith, q), q, refl, ground (arith, f), v)
pend-Inv none (resets ∷ []) c e q f v =
    let k = reset_channel c.connector in
    (
      record c { connector = k; queue = [] },
      ground (arith, q),
      refl,
      refl,
      ground arith,
      record {
        fitting = ground (arith, e);
        live = ground (arith, v.live, e, q);
        numbered = ground (arith, v.numbered, e, q);
        only = λ m. ground (arith, v.only m, e, q);
      },
    )
pend-Inv (some n) (resets ∷ []) c e q f v =
    let k = reset_channel c.connector in
    (
      record c { connector = k; queue = [] },
      ground (arith, q),
      refl,
      refl,
      ground arith,
      record {
        fitting = ground (arith, e);
        live = ground (arith, v.live, e, q);
        numbered = ground (arith, v.numbered, e, q);
        only = λ m. ground (arith, v.only m, e, q);
      },
    )
pend-Inv none (destroys n ∷ []) c e q f v = elim (Option-cases (c.conns n)) [
  | inl bad ↦ absurd (ground (arith, v.live, e, q, bad))
  | inr (conn, at) ↦
      let (conn', r) = connect_destroyed-lives conn (ground (arith, v.live, e, q, at)) in
      (
        record c { conns = put c.conns n none; queue = [] },
        ground (arith, q, at, r),
        refl,
        refl,
        f,
        record {
          fitting = ground (arith, e, f);
          live = ground (arith, e);
          numbered = ground (arith, e);
          only = λ m. elim (Bool-cases (m == n)) [
            | inl same ↦ inl (ground (arith, same))
            | inr other ↦ rw other (inl (ground (arith, v.only m, e, q, other)))
          ];
        },
      )
]
pend-Inv (some n) (destroys m ∷ []) c e q f v = cc
pend-Inv none (resets ∷ x ∷ xs) c e q f v = cc
pend-Inv (some n) (resets ∷ x ∷ xs) c e q f v = cc
pend-Inv none (destroys m ∷ x ∷ xs) c e q f v = cc
pend-Inv (some n) (destroys m ∷ x ∷ xs) c e q f v = cc
pend-Inv none (starts a b ∷ xs) c e q f v = cc
pend-Inv (some n) (starts a b ∷ xs) c e q f v = cc
pend-Inv none (shuts a ∷ xs) c e q f v = cc
pend-Inv (some n) (shuts a ∷ xs) c e q f v = cc
