-- ===== src/Thread/Queue/Segments.antt =====
-- The nodes of the queue, and those that have left it, when one node is written.
use learn_for_cpp.Base.{
  ℕ, ◌+◌, ◌<◌, ◌≡◌, ◌≢◌, ◌⊎◌, inl, inr, refl, false, some, List, [], ◌∷◌, ◌++◌, length, put, ◌==◌,
  map, arith,
}
use learn_for_cpp.Thread.Queue.{Node}
use learn_for_cpp.Thread.Queue.Chain.{IsChain}

-- The old heads with their values, none of which is the tail.
abbrev pub AreTaken : (ℕ → Node) → ℕ → ℕ → List ℕ → List ℕ → Type 0
AreTaken nodes tail bound [] [] = Unit {0}
AreTaken nodes tail bound [] (v ∷ vs) = ⊥
AreTaken nodes tail bound (a ∷ rest) [] = ⊥
AreTaken nodes tail bound (a ∷ rest) (v ∷ vs) =
    (a ≢ tail) × (a < bound) × ((nodes a).datum ≡ some v) × AreTaken nodes tail bound rest vs

-- A write to the tail, or to a node that is not the queue's, leaves the list as it is.
pub IsChain-put :
    (nodes : ℕ → Node) (tail b p a : ℕ) (n : Node) (xs : List ℕ)
    → (p ≡ tail) ⊎ (p ≡ b)
    → IsChain nodes tail b a xs
    → IsChain (put nodes p n) tail b a xs
IsChain-put nodes tail b p a n [] w h = h
IsChain-put nodes tail b p a n (x ∷ xs) w (other, below, datum, next, link, h) =
    let off : (a == p) ≡ false = elim w [
      | inl e ↦ ground (arith, e, other)
      | inr e ↦ ground (arith, e, below)
    ] in
    (other, below, rw off datum, next, rw off link, IsChain-put nodes tail b p next n xs w h)

pub AreTaken-put :
    (nodes : ℕ → Node) (tail b p : ℕ) (n : Node) (old vs : List ℕ)
    → (p ≡ tail) ⊎ (p ≡ b)
    → AreTaken nodes tail b old vs
    → AreTaken (put nodes p n) tail b old vs
AreTaken-put nodes tail b p n [] [] w h = tt
AreTaken-put nodes tail b p n [] (v ∷ vs) w h = h
AreTaken-put nodes tail b p n (a ∷ rest) [] w h = h
AreTaken-put nodes tail b p n (a ∷ rest) (v ∷ vs) w (other, below, datum, h) =
    let off : (a == p) ≡ false = elim w [
      | inl e ↦ ground (arith, e, other)
      | inr e ↦ ground (arith, e, below)
    ] in
    (other, below, rw off datum, AreTaken-put nodes tail b p n rest vs w h)

-- With its value and its link the old tail is one more node of the list.
pub IsChain-link :
    (nodes : ℕ → Node) (tail p a v : ℕ) (xs : List ℕ)
    → (nodes tail).datum ≡ some v
    → (nodes tail).next ≡ some p
    → IsChain nodes tail p a xs
    → IsChain nodes p (p + 1) a (xs ++ (v ∷ []))
IsChain-link nodes tail p a v [] datum next (here, below) = (
  λ e. omega (arith, e, below),
  omega (arith, below),
  ground (arith, here, datum),
  p,
  ground (arith, here, next),
  (refl, omega arith),
)
IsChain-link nodes tail p a v (x ∷ xs) datum next (other, below, d, b, link, h) = (
  λ e. omega (arith, e, below),
  omega (arith, below),
  d,
  b,
  link,
  IsChain-link nodes tail p b v xs datum next h,
)

pub AreTaken-link :
    (nodes : ℕ → Node) (tail p : ℕ) (old vs : List ℕ)
    → AreTaken nodes tail p old vs
    → AreTaken nodes p (p + 1) old vs
AreTaken-link nodes tail p [] [] h = tt
AreTaken-link nodes tail p [] (v ∷ vs) h = h
AreTaken-link nodes tail p (a ∷ rest) [] h = h
AreTaken-link nodes tail p (a ∷ rest) (v ∷ vs) (other, below, d, h) =
    (λ e. omega (arith, e, below), omega (arith, below), d, AreTaken-link nodes tail p rest vs h)

pub AreTaken-append :
    (nodes : ℕ → Node) (tail b a v : ℕ) (old vs : List ℕ)
    → a ≢ tail
    → a < b
    → (nodes a).datum ≡ some v
    → AreTaken nodes tail b old vs
    → AreTaken nodes tail b (old ++ (a ∷ [])) (vs ++ (v ∷ []))
AreTaken-append nodes tail b a v [] [] other below d h = (other, below, d, tt)
AreTaken-append nodes tail b a v [] (w ∷ vs) other below d h = absurd h
AreTaken-append nodes tail b a v (x ∷ rest) [] other below d h = absurd h
AreTaken-append nodes tail b a v (x ∷ rest) (w ∷ vs) other below d (o, l, e, h) =
    (o, l, e, AreTaken-append nodes tail b a v rest vs other below d h)

pub taken_length :
    (nodes : ℕ → Node) (tail b : ℕ) (old vs : List ℕ)
    → AreTaken nodes tail b old vs
    → length old ≡ length vs
taken_length nodes tail b [] [] h = refl
taken_length nodes tail b [] (v ∷ vs) h = absurd h
taken_length nodes tail b (a ∷ rest) [] h = absurd h
taken_length nodes tail b (a ∷ rest) (v ∷ vs) (o, l, e, h) =
    omega (arith, taken_length nodes tail b rest vs h)

pub taken_values :
    (nodes : ℕ → Node) (tail b : ℕ) (old vs : List ℕ)
    → AreTaken nodes tail b old vs
    → map (λ a. (nodes a).datum) old ≡ map some vs
taken_values nodes tail b [] [] h = refl
taken_values nodes tail b [] (v ∷ vs) h = absurd h
taken_values nodes tail b (a ∷ rest) [] h = absurd h
taken_values nodes tail b (a ∷ rest) (v ∷ vs) (o, l, e, h) =
    ground (arith, e, taken_values nodes tail b rest vs h)

-- The head is the tail exactly if nothing is in the queue.
pub chain_empty :
    (nodes : ℕ → Node) (tail b a : ℕ) (xs : List ℕ)
    → IsChain nodes tail b a xs
    → ((a ≡ tail) × (xs ≡ [])) ⊎ ((a ≢ tail) × (0 < length xs))
chain_empty nodes tail b a [] (here, below) = inl (here, refl)
chain_empty nodes tail b a (x ∷ xs) (other, below, d, b', link, h) = inr (other, omega arith)
