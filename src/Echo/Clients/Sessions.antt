-- ===== src/Echo/Clients/Sessions.antt =====
-- What the constructor of the client prepares: the message, and a loop for each session.
use learn_for_cpp.Base.{
  ℕ, zero, suc, ◌+◌, ◌%◌, ◌<◌, ◌≡◌, refl, sym, ap, ◌∙◌, inl, inr, some, List, [], ◌∷◌, ◌++◌, arith,
  Bool-cases, length, length-append, get_elem?, ◌==◌, if◌then◌else◌,
}
use learn_for_cpp.TcpServer.{ThreadPool}
use learn_for_cpp.TcpServer.Pool.{turn, get_next_loop_lem}
use learn_for_cpp.Echo.Clients.{message, session_loops}

length-message : (n : ℕ) → length (message n) ≡ n
unfolding message
length-message zero = refl
length-message (suc n) = ground (arith, length-append (message n) (n % 128 ∷ []), length-message n)

get_elem?-last :
    (xs : List ℕ) (x i : ℕ)
    → i < length xs + 1
    → get_elem? (xs ++ (x ∷ [])) i ≡ (if i == length xs then some x else get_elem? xs i)
get_elem?-last [] x zero h = refl
get_elem?-last [] x (suc i) h = absurd (omega (arith, h))
get_elem?-last (y ∷ xs) x zero h = ground arith
get_elem?-last (y ∷ xs) x (suc i) h = ground (arith, get_elem?-last xs x i (omega (arith, h)))

-- The message of a block size has that many bytes, and the byte at index i is i % 128.
pub get_elem?-message :
    (n i : ℕ) → i < n → (length (message n) ≡ n) × (get_elem? (message n) i ≡ some (i % 128))
unfolding message
get_elem?-message zero i h = absurd (omega (arith, h))
get_elem?-message (suc n) i h =
    let size = length-message n in
    let e = get_elem?-last (message n) (n % 128) i (omega (arith, h, size)) in
    elim (Bool-cases (i == n)) [
      | inl last ↦
          let same : i ≡ n = ground (arith, last) in
          (length-message (suc n), ground (arith, e, size, same))
      | inr other ↦
          let below : i < n = ground (arith, other, h) in
          let (_, before) = get_elem?-message n i below in
          (length-message (suc n), ground (arith, e, size, other, before))
    ]

-- From a pool at turn `k`, session `i` runs in the loop of turn `k + i`, and the pool is left at the
-- turn after the last session.
pub turn-session_loops :
    (n k : ℕ) (p : ThreadPool)
    → 0 < length p.loops
    → p.next ≡ k % length p.loops
    → (loops : List ℕ) × (session_loops p n
        ≡ some (loops, record p { next = (k + n) % length p.loops }))
      × (length loops ≡ n)
      × ((i : ℕ) → i < n → get_elem? loops i ≡ turn p.loops (k + i))
unfolding session_loops
turn-session_loops zero k p some_loop at =
    ([], ground (arith, at), refl, λ i h. absurd (omega (arith, h)))
turn-session_loops (suc n) k p some_loop at =
    let (loop, here, e) = get_next_loop_lem p k some_loop at in
    let p' : ThreadPool = record p { next = suc k % length p.loops } in
    let (loops, r, size, each) = turn-session_loops n (suc k) p' some_loop refl in
    let shift : suc k + n ≡ k + suc n = omega arith in
    let all : session_loops p (suc n)
        ≡ some (loop ∷ loops, record p { next = (suc k + n) % length p.loops }) =
      ground (arith, e, r) in
    (
      loop ∷ loops,
      all ∙ ap (λ x. some (loop ∷ loops, record p { next = x % length p.loops })) shift,
      ap suc size,
      λ i h. session_at p.loops loops loop k n i h here each,
    )
  where
    session_at :
        (ls loops : List ℕ) (loop k n i : ℕ)
        → i < suc n
        → turn ls k ≡ some loop
        → ((i : ℕ) → i < n → get_elem? loops i ≡ turn ls (suc k + i))
        → get_elem? (loop ∷ loops) i ≡ turn ls (k + i)
    session_at ls loops loop k n zero h here each =
        sym here ∙ ap (turn ls) (let e : k ≡ k + 0 = omega arith in e)
    session_at ls loops loop k n (suc i) h here each =
        each i (omega (arith, h)) ∙ ap (turn ls) (let e : suc k + i ≡ k + suc i = omega arith in e)
