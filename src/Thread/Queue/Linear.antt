-- ===== src/Thread/Queue/Linear.antt =====
-- Pushes and pops of many threads together are one queue.
use learn_for_cpp.Base.{
  ℕ, ◌+◌, ◌<◌, ◌≡◌, inl, inr, refl, sym, ap, ◌∙◌, subst, false, some, List, [], ◌∷◌, ◌++◌, length,
  length-append, append_assoc, ◌==◌, map, if◌then◌else◌, arith, Bool-cases, Option-cases,
}
use learn_for_cpp.Thread.Queue.Threads.{
  Popper, Shared, Move, taking, loaded, new_shared, push_begins, push_moves, pop_begins, pop_moves,
  take_head, pop_step, move, moves, values,
}
use learn_for_cpp.Thread.Queue.Segments.{AreTaken-append, taken_length, taken_values, chain_empty}
use learn_for_cpp.Thread.Queue.Pushing.{Inv, bound, IsPopping, push_begins-Inv, push_step-Inv}

-- The popper moves, and nothing else changes.
popper-Inv :
    (s : Shared) (p : Popper) (vs xs : List ℕ)
    → IsPopping p s.head xs
    → Inv s vs xs
    → Inv (record s { popper = p }) vs xs
popper-Inv s p vs xs popping i = record {
  all = i.all;
  chain = i.chain;
  taken = i.taken;
  last = i.last;
  pushing = i.pushing;
  popping = popping;
  safe = i.safe;
}

-- What `get_tail` gives.
loaded_now :
    (s : Shared) (vs xs : List ℕ)
    → Inv s vs xs
    → IsPopping (loaded s.tail (length s.pushed == length s.taken)) s.head xs
loaded_now s vs xs i =
    let sizes : length s.pushed ≡ length s.taken + length xs = omega (
      arith,
      ap length i.all,
      length-append vs xs,
      taken_length s.nodes s.tail (bound s.pusher s.fresh) s.taken vs i.taken,
    ) in
    elim (chain_empty s.nodes s.tail (bound s.pusher s.fresh) s.head xs i.chain) [
      | inl (here, none_left) ↦ (ground (arith, here, none_left, sizes), inl here)
      | inr (other, more) ↦ (ground (arith, other, more, sizes), inr more)
    ]

-- `pop_head` takes the first node of the queue, whose value is the first one.
take_head-Inv :
    (s : Shared) (vs xs : List ℕ)
    → 0 < length xs
    → Inv s vs xs
    → (ws : List ℕ) × (ys : List ℕ) × Inv (take_head (s.nodes s.head).next s) ws ys
unfolding take_head
take_head-Inv s vs [] more i = absurd (omega (arith, more))
take_head-Inv s vs (x ∷ xs) more i =
    let (other, below, datum, b, link, rest) = i.chain in
    let inv : Inv (take_head (some b) s) (vs ++ (x ∷ [])) xs = record {
      all = i.all ∙ sym (append_assoc vs (x ∷ []) xs);
      chain = rest;
      taken =
          AreTaken-append s.nodes s.tail (bound s.pusher s.fresh) s.head x s.taken vs other below
            datum i.taken;
      last = i.last;
      pushing = i.pushing;
      popping = tt;
      safe = i.safe;
    } in
    (vs ++ (x ∷ []), xs, subst (λ n. Inv (take_head n s) (vs ++ (x ∷ [])) xs) (sym link) inv)

pop_step-Inv :
    (p : Popper) (s s' : Shared) (vs xs : List ℕ)
    → s.popper ≡ p
    → Inv s vs xs
    → pop_step p s ≡ some s'
    → (ws : List ℕ) × (ys : List ℕ) × Inv s' ws ys
unfolding pop_step
pop_step-Inv Popper.outside s s' vs xs e i r = cc
pop_step-Inv Popper.locked s s' vs xs e i r =
    let t : Popper = loaded s.tail (length s.pushed == length s.taken) in
    let same : record s { popper = t } ≡ s' = ground (arith, r) in
    (vs, xs, subst (λ u. Inv u vs xs) same (popper-Inv s t vs xs (loaded_now s vs xs i) i))
pop_step-Inv (loaded t e') s s' vs xs e i r =
    let next : Popper = if s.head == t then Popper.outside else taking in
    let same : record s { popper = next } ≡ s' = ground (arith, r) in
    let (_, h) = subst (λ p. IsPopping p s.head xs) e i.popping in
    let ok : IsPopping next s.head xs = elim (Bool-cases (s.head == t)) [
      | inl here ↦ rw here tt
      | inr other ↦
          let more : 0 < length xs = elim h [
            | inl here ↦ ground (arith, here, other)
            | inr m ↦ m
          ] in
          rw other more
    ] in
    (vs, xs, subst (λ u. Inv u vs xs) same (popper-Inv s next vs xs ok i))
pop_step-Inv taking s s' vs xs e i r =
    let more = subst (λ p. IsPopping p s.head xs) e i.popping in
    let (ws, ys, inv) = take_head-Inv s vs xs more i in
    let same : take_head (s.nodes s.head).next s ≡ s' = ground (arith, r) in
    (ws, ys, subst (λ u. Inv u ws ys) same inv)

move-Inv :
    (m : Move) (s s' : Shared) (vs xs : List ℕ)
    → Inv s vs xs
    → move m s ≡ some s'
    → (ws : List ℕ) × (ys : List ℕ) × Inv s' ws ys
unfolding move
move-Inv (push_begins v) s s' vs xs i r =
    (vs, xs, push_begins-Inv v s s' vs xs i (unfold move in r))
move-Inv push_moves s s' vs xs i r =
    let (ys, inv) = push_step-Inv s.pusher s s' vs xs refl i r in (vs, ys, inv)
move-Inv pop_begins s s' vs xs i r =
    let same : record s { popper = Popper.locked } ≡ s' = ground (arith, r) in
    (vs, xs, subst (λ u. Inv u vs xs) same (popper-Inv s Popper.locked vs xs tt i))
move-Inv pop_moves s s' vs xs i r = pop_step-Inv s.popper s s' vs xs refl i r

moves-Inv :
    (ms : List Move) (s s' : Shared) (vs xs : List ℕ)
    → Inv s vs xs
    → moves ms s ≡ some s'
    → (ws : List ℕ) × (ys : List ℕ) × Inv s' ws ys
unfolding moves
moves-Inv [] s s' vs xs i r = (vs, xs, subst (λ u. Inv u vs xs) (ground (arith, r)) i)
moves-Inv (m ∷ ms) s s' vs xs i r = elim (Option-cases (move m s)) [
  | inl stuck ↦ absurd (ground (arith, stuck, r))
  | inr (t, e) ↦
      let (ws, ys, inv) = move-Inv m s t vs xs i e in
      moves-Inv ms t s' ws ys inv (ground (arith, e, r))
]

begins-Inv : Inv new_shared [] []
unfolding new_shared
begins-Inv = record {
  all = refl;
  chain = (refl, omega arith);
  taken = tt;
  last = omega arith;
  pushing = tt;
  popping = tt;
  safe = refl;
}

-- What a pop decides by: the tail that it has read.
abbrev pub AsRead : Popper → ℕ → Type 0
AsRead (loaded t e) head = (head == t) ≡ e
AsRead _ head = Unit {0}

-- However the accesses of the threads interleave, no null pointer is followed, and the values that the
-- pops have got are the first ones that the pushes have put in, each once and in their order, whenever
-- they are read; a pop finds the queue empty exactly if it was when the pop read the tail.
pub values-moves :
    (ms : List Move) (s : Shared)
    → moves ms new_shared ≡ some s
    → (s.crashed ≡ false)
      × ((vs : List ℕ) × (xs : List ℕ) × (values s ≡ map some vs) × (s.pushed ≡ vs ++ xs))
      × AsRead s.popper s.head
unfolding values
values-moves ms s r =
    let (vs, xs, i) = moves-Inv ms new_shared s [] [] begins-Inv r in
    (
      i.safe,
      (vs, xs, taken_values s.nodes s.tail (bound s.pusher s.fresh) s.taken vs i.taken, i.all),
      as_read s.popper s.head xs i.popping,
    )
  where
    as_read : (p : Popper) (head : ℕ) (xs : List ℕ) → IsPopping p head xs → AsRead p head
    as_read Popper.outside head xs h = tt
    as_read Popper.locked head xs h = tt
    as_read taking head xs h = tt
    as_read (loaded t e) head xs h = h.0
