-- ===== src/Thread/Queue/Pushing.antt =====
-- The nodes while a push and a pop are under way, and what the steps of a push keep.
use learn_for_cpp.Base.{
  ℕ, ◌+◌, ◌<◌, ◌≡◌, ◌⊎◌, inl, inr, refl, sym, ap, ◌∙◌, subst, false, some, List, [], ◌∷◌, ◌++◌,
  length, length-append, append_assoc, put, ◌==◌, arith, ==_refl,
}
use learn_for_cpp.Thread.Queue.{Node, new_node}
use learn_for_cpp.Thread.Queue.Chain.{IsChain}
use learn_for_cpp.Thread.Queue.Threads.{
  Pusher, Popper, Shared, data_set, linked, taking, loaded, push_begins, push_step, move,
  is_outside,
}
use learn_for_cpp.Thread.Queue.Segments.{
  AreTaken, IsChain-put, AreTaken-put, IsChain-link, AreTaken-link,
}

-- Nodes below it are the queue's; that of a push that has begun is not.
abbrev pub bound : Pusher → ℕ → ℕ
bound Pusher.outside fresh = fresh
bound (Pusher.locked v p) fresh = p
bound (data_set v p) fresh = p
bound (linked v p) fresh = p

abbrev pub IsPushing : Pusher → ℕ → Node → Type 0
IsPushing Pusher.outside fresh last = Unit {0}
IsPushing (Pusher.locked v p) fresh last = fresh ≡ p + 1
IsPushing (data_set v p) fresh last = (fresh ≡ p + 1) × (last.datum ≡ some v)
IsPushing (linked v p) fresh last = (fresh ≡ p + 1) × (last.datum ≡ some v) × (last.next ≡ some p)

-- The tail that a pop read is the head exactly if the queue was empty then; else it is not empty now.
abbrev pub IsPopping : Popper → ℕ → List ℕ → Type 0
IsPopping Popper.outside head xs = Unit {0}
IsPopping Popper.locked head xs = Unit {0}
IsPopping taking head xs = 0 < length xs
IsPopping (loaded t e) head xs = ((head == t) ≡ e) × ((head ≡ t) ⊎ (0 < length xs))

-- `vs` have come out, `xs` are in the queue.
pub record Inv (s : Shared) (vs xs : List ℕ) : Type 0 where
  pub all : s.pushed ≡ vs ++ xs
  pub chain : IsChain s.nodes s.tail (bound s.pusher s.fresh) s.head xs
  pub taken : AreTaken s.nodes s.tail (bound s.pusher s.fresh) s.taken vs
  pub last : s.tail < bound s.pusher s.fresh
  pub pushing : IsPushing s.pusher s.fresh (s.nodes s.tail)
  pub popping : IsPopping s.popper s.head xs
  pub safe : s.crashed ≡ false

pusher_cases : (p : Pusher) → (p ≡ Pusher.outside) ⊎ (is_outside p ≡ false)
pusher_cases Pusher.outside = inl refl
pusher_cases (Pusher.locked v p) = inr refl
pusher_cases (data_set v p) = inr refl
pusher_cases (linked v p) = inr refl

pub push_begins-Inv :
    (v : ℕ) (s s' : Shared) (vs xs : List ℕ)
    → Inv s vs xs
    → move (push_begins v) s ≡ some s'
    → Inv s' vs xs
unfolding move
push_begins-Inv v s s' vs xs i r = elim (pusher_cases s.pusher) [
  | inr busy ↦ absurd (ground (arith, r, busy))
  | inl free ↦
      let same_bound : bound s.pusher s.fresh ≡ s.fresh = ap (λ p. bound p s.fresh) free in
      let after : Shared = record s {
        nodes = put s.nodes s.fresh new_node;
        fresh = s.fresh + 1;
        pusher = Pusher.locked v s.fresh;
      } in
      let same : after ≡ s' = ground (arith, r, free) in
      let chain = subst (λ b. IsChain s.nodes s.tail b s.head xs) same_bound i.chain in
      let taken = subst (λ b. AreTaken s.nodes s.tail b s.taken vs) same_bound i.taken in
      let inv : Inv after vs xs = record {
        all = i.all;
        chain = IsChain-put s.nodes s.tail s.fresh s.fresh s.head new_node xs (inr refl) chain;
        taken = AreTaken-put s.nodes s.tail s.fresh s.fresh new_node s.taken vs (inr refl) taken;
        last = omega (arith, i.last, same_bound);
        pushing = refl;
        popping = i.popping;
        safe = i.safe;
      } in
      subst (λ t. Inv t vs xs) same inv
]

-- A push writes to the tail.
written-Inv :
    (s : Shared) (q : Pusher) (p : ℕ) (n : Node) (vs xs : List ℕ)
    → bound s.pusher s.fresh ≡ p
    → bound q s.fresh ≡ p
    → IsPushing q s.fresh n
    → Inv s vs xs
    → Inv (record s { nodes = put s.nodes s.tail n; pusher = q }) vs xs
written-Inv s q p n vs xs before after pushing i = record {
  all = i.all;
  chain =
      subst (λ b. IsChain (put s.nodes s.tail n) s.tail b s.head xs) (before ∙ sym after)
        (IsChain-put s.nodes s.tail (bound s.pusher s.fresh) s.tail s.head n xs (inl refl) i.chain);
  taken =
      subst (λ b. AreTaken (put s.nodes s.tail n) s.tail b s.taken vs) (before ∙ sym after)
        (AreTaken-put s.nodes s.tail (bound s.pusher s.fresh) s.tail n s.taken vs (inl refl)
          i.taken);
  last = omega (arith, i.last, before, after);
  pushing = rw (==_refl s.tail) pushing;
  popping = i.popping;
  safe = i.safe;
}

IsPopping-append :
    (p : Popper) (head v : ℕ) (xs : List ℕ)
    → IsPopping p head xs
    → IsPopping p head (xs ++ (v ∷ []))
IsPopping-append Popper.outside head v xs h = tt
IsPopping-append Popper.locked head v xs h = tt
IsPopping-append taking head v xs h = omega (arith, h, length-append xs (v ∷ []))
IsPopping-append (loaded t e) head v xs (same, h) = (
  same,
  elim h [ inl here ↦ inl here | inr more ↦ inr (omega (arith, more, length-append xs (v ∷ []))) ],
)

-- A push moves on; with its last step the value is in the queue.
pub push_step-Inv :
    (p : Pusher) (s s' : Shared) (vs xs : List ℕ)
    → s.pusher ≡ p
    → Inv s vs xs
    → push_step p s ≡ some s'
    → (ys : List ℕ) × Inv s' vs ys
unfolding push_step
push_step-Inv Pusher.outside s s' vs xs e i r = cc
push_step-Inv (Pusher.locked v p) s s' vs xs e i r =
    let n : Node = record (s.nodes s.tail) { datum = some v } in
    let same : record s { nodes = put s.nodes s.tail n; pusher = data_set v p } ≡ s' =
      ground (arith, r) in
    let facts = subst (λ q. IsPushing q s.fresh (s.nodes s.tail)) e i.pushing in
    let inv =
      written-Inv s (data_set v p) p n vs xs (ap (λ q. bound q s.fresh) e) refl (facts, refl) i in
    (xs, subst (λ t. Inv t vs xs) same inv)
push_step-Inv (data_set v p) s s' vs xs e i r =
    let n : Node = record (s.nodes s.tail) { next = some p } in
    let same : record s { nodes = put s.nodes s.tail n; pusher = linked v p } ≡ s' =
      ground (arith, r) in
    let (next, datum) = subst (λ q. IsPushing q s.fresh (s.nodes s.tail)) e i.pushing in
    let inv =
      written-Inv s (linked v p) p n vs xs (ap (λ q. bound q s.fresh) e) refl (next, datum, refl)
        i in
    (xs, subst (λ t. Inv t vs xs) same inv)
push_step-Inv (linked v p) s s' vs xs e i r =
    let after : Shared = record s {
      tail = p;
      pusher = Pusher.outside;
      pushed = s.pushed ++ (v ∷ []);
    } in
    let same : after ≡ s' = ground (arith, r) in
    let (next, datum, link) = subst (λ q. IsPushing q s.fresh (s.nodes s.tail)) e i.pushing in
    let at_p : bound s.pusher s.fresh ≡ p = ap (λ q. bound q s.fresh) e in
    let chain = subst (λ b. IsChain s.nodes s.tail b s.head xs) at_p i.chain in
    let taken = subst (λ b. AreTaken s.nodes s.tail b s.taken vs) at_p i.taken in
    let inv : Inv after vs (xs ++ (v ∷ [])) = record {
      all = ap (λ l. l ++ (v ∷ [])) i.all ∙ append_assoc vs xs (v ∷ []);
      chain =
          subst (λ b. IsChain s.nodes p b s.head (xs ++ (v ∷ []))) (sym next)
            (IsChain-link s.nodes s.tail p s.head v xs datum link chain);
      taken =
          subst (λ b. AreTaken s.nodes p b s.taken vs) (sym next)
            (AreTaken-link s.nodes s.tail p s.taken vs taken);
      last = omega (arith, next);
      pushing = tt;
      popping = IsPopping-append s.popper s.head v xs i.popping;
      safe = i.safe;
    } in
    (xs ++ (v ∷ []), subst (λ t. Inv t vs (xs ++ (v ∷ []))) same inv)
