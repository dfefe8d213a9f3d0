-- ===== src/Thread/Queue/Chain.antt =====
-- The list of nodes holds the values of a queue, first in, first out.
use learn_for_cpp.Base.{
  ℕ, ◌+◌, ◌<◌, ◌≡◌, ◌≢◌, refl, inl, inr, Option, none, some, List, [], ◌∷◌, ◌++◌, arith, ◌⊎◌, put,
  ◌>>=◌,
}
use learn_for_cpp.Thread.Plain
use learn_for_cpp.Thread.Queue.{
  try_pop_head, wait_pop_head, Node, Queue, new_node, new_queue, push, pop_head, try_pop,
  wait_and_pop,
}

-- From `a` to `tail` the nodes hold the values `xs`, all at addresses below `fresh`.
abbrev pub IsChain : (ℕ → Node) → ℕ → ℕ → ℕ → List ℕ → Type 0
IsChain nodes tail fresh a [] = (a ≡ tail) × (a < fresh)
IsChain nodes tail fresh a (x ∷ xs) =
    (a ≢ tail)
    × (a < fresh)
    × ((nodes a).datum ≡ some x)
    × (b : ℕ) × ((nodes a).next ≡ some b)
    × IsChain nodes tail fresh b xs

-- The queue holds the values `xs`, the next one to come out first.
abbrev pub Holds : Queue → List ℕ → Type 0
Holds q xs = IsChain q.nodes q.tail q.fresh q.head xs

push-IsChain :
    (nodes : ℕ → Node) (tail fresh a v : ℕ) (xs : List ℕ)
    → IsChain nodes tail fresh a xs
    → IsChain
        (put (put nodes fresh new_node) tail (record { datum = some v; next = some fresh }))
        fresh
        (fresh + 1)
        a
        (xs ++ (v ∷ []))
push-IsChain nodes tail fresh a v [] (here, below) = (
  λ e. omega (arith, e, below),
  omega (arith, below),
  ground (arith, here),
  fresh,
  ground (arith, here),
  (refl, omega arith),
)
push-IsChain nodes tail fresh a v (x ∷ xs) (other, below, datum, b, next, rest) = (
  λ e. omega (arith, e, below),
  omega (arith, below),
  ground (arith, other, below, datum),
  b,
  ground (arith, other, below, next),
  push-IsChain nodes tail fresh b v xs rest,
)

-- `push` puts the value behind all that the queue holds.
push-Holds : (q : Queue) (xs : List ℕ) (v : ℕ) → Holds q xs → Holds (push q v) (xs ++ (v ∷ []))
unfolding push
push-Holds q xs v h = push-IsChain q.nodes q.tail q.fresh q.head v xs h

-- Where the queue holds a value, `try_pop` and `wait_and_pop` both take the first one and leave the
-- others in order; where it holds none, `try_pop` gives none and changes nothing.
pub try_pop-Holds :
    (q : Queue) (xs : List ℕ)
    → Holds q xs
    → (try_pop q ≡ some (none, q)) × (xs ≡ [])
      ⊎ ((x : ℕ) × (rest : List ℕ) × (q' : Queue) × (xs ≡ x ∷ rest)
          × (try_pop q ≡ some (some x, q'))
          × (wait_and_pop q ≡ some (x, q'))
          × Holds q' rest)
unfolding try_pop try_pop_head wait_pop_head wait_and_pop pop_head
try_pop-Holds q [] (here, below) = inl (ground (arith, here), refl)
try_pop-Holds q (x ∷ xs) (other, below, datum, b, next, rest) = inr (
  x,
  xs,
  record q { head = b },
  refl,
  ground (arith, other, datum, next),
  ground (arith, other, datum, next),
  rest,
)

-- A program for a queue, and what its pops give: with the nodes, and with the queue that guards a
-- `std::queue`.
pub data Op : Type 0 where
  pushes : ℕ → Op
  tries : Op

abbrev pub run : List Op → Queue → Option (List (Option ℕ))
run [] q = some []
run (pushes v ∷ ops) q = run ops (push q v)
run (tries ∷ ops) q = do (value, q') ← try_pop q; values ← run ops q'; some (value ∷ values)

abbrev pub run_plain : List Op → Plain.Queue → List (Option ℕ)
run_plain [] xs = []
run_plain (pushes v ∷ ops) xs = run_plain ops (Plain.push xs v)
run_plain (tries ∷ ops) xs = let (value, rest) = Plain.try_pop xs in value ∷ run_plain ops rest

run-Holds :
    (ops : List Op) (q : Queue) (xs : List ℕ) → Holds q xs → run ops q ≡ some (run_plain ops xs)
unfolding Plain.push Plain.try_pop
run-Holds [] q xs h = refl
run-Holds (pushes v ∷ ops) q xs h = run-Holds ops (push q v) (xs ++ (v ∷ [])) (push-Holds q xs v h)
run-Holds (tries ∷ ops) q [] h =
    let e : try_pop q ≡ some (none, q) = unfold try_pop try_pop_head in ground (arith, h.0) in
    let more = run-Holds ops q [] h in ground (arith, e, more)
run-Holds (tries ∷ ops) q (x ∷ xs) (other, below, datum, b, next, rest) =
    let q' : Queue = record q { head = b } in
    let e : try_pop q ≡ some (some x, q') =
      unfold try_pop try_pop_head pop_head in ground (arith, other, datum, next) in
    let more = run-Holds ops q' xs rest in ground (arith, e, more)

-- Pushes and pops in any order, from new queues, give the same on the linked list of nodes as on
-- `threadsafer_queue`: the values come out in the order in which they were pushed, each once, and a pop
-- of an empty queue gives none.
pub run-new_queue : (ops : List Op) → run ops new_queue ≡ some (run_plain ops Plain.new_queue)
unfolding new_queue
run-new_queue ops = run-Holds ops new_queue [] (refl, omega arith)
