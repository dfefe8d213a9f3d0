-- ===== src/Thread/Queue.antt =====
-- `threadsafe_queue_version_2` of thread/threadsafe_queue.cc: a linked list whose last node is empty.
-- A node is an address; `fresh` is the address of the next new node. Here each operation is
-- one step; in `Threads` each access is one. A pointer that is null where the code follows it is `none`.
pub mod Chain
pub mod Threads
pub mod Segments
pub mod Pushing
pub mod Linear
mod Examples
use learn_for_cpp.Base.{
  ℕ, ◌+◌, ◌≡◌, Bool, true, false, Option, Option-cases, inl, inr, arith, none, some, put, ◌==◌,
  if◌then◌else◌, ◌>>=◌,
}

pub record Node : Type 0 where
  pub datum : Option ℕ
  pub next : Option ℕ

pub record Queue : Type 0 where
  pub nodes : ℕ → Node
  pub head : ℕ
  pub tail : ℕ
  pub fresh : ℕ

abbrev pub new_node : Node
new_node = record { datum = none; next = none }

pub new_queue : Queue
new_queue = record { nodes = λ a. new_node; head = 0; tail = 0; fresh = 1 }

-- The old tail gets the value, and a new empty node behind it.
pub push : Queue → ℕ → Queue
push q value = record {
  nodes =
      put (put q.nodes q.fresh new_node) q.tail
        (record { datum = some value; next = some q.fresh });
  head = q.head;
  tail = q.fresh;
  fresh = q.fresh + 1;
}

-- `head_ = old_head->next`; the result is the old head.
pub pop_head : Queue → Option (Node × Queue)
pop_head q = do next ← (q.nodes q.head).next; some (q.nodes q.head, record q { head = next })

abbrev pub empty : Queue → Bool
empty q = q.head == q.tail

-- The old head, and no node where the queue is empty.
pub try_pop_head : Queue → Option (Option Node × Queue)
try_pop_head q =
    if empty q then some (none, q) else (do (old_head, q') ← pop_head q; some (some old_head, q'))

-- `old_head->data`, or a null pointer where there is no old head.
abbrev pub datum_of : Option Node → Option ℕ
datum_of none = none
datum_of (some node) = node.datum

pub try_pop : Queue → Option (Option ℕ × Queue)
try_pop q = do (old_head, q') ← try_pop_head q; some (datum_of old_head, q')

-- `wait_pop_head`, where the wait is over: `wait_for_data` returns once the queue is not empty.
pub wait_pop_head : Queue → Option (Node × Queue)
wait_pop_head q = if empty q then none else pop_head q

-- The value read is not null.
unfoldable pub wait_and_pop : Queue → Option (ℕ × Queue)
wait_and_pop q = do (old_head, q') ← wait_pop_head q; value ← old_head.datum; some (value, q')

-- The forms that move the value into a reference: it is read before the head is popped.
pub wait_pop_head_into : Queue → Option ((ℕ × Node) × Queue)
wait_pop_head_into q = if empty q then none else (do
  value ← (q.nodes q.head).datum
  (old_head, q') ← pop_head q
  some ((value, old_head), q'))

pub wait_and_pop_into : Queue → Option (ℕ × Queue)
wait_and_pop_into q = do ((value, old_head), q') ← wait_pop_head_into q; some (value, q')

pub try_pop_head_into : Queue → Option (Option (ℕ × Node) × Queue)
try_pop_head_into q = if empty q then some (none, q) else (do
  value ← (q.nodes q.head).datum
  (old_head, q') ← pop_head q
  some (some (value, old_head), q'))

-- Both forms of `wait_and_pop` give the same.
wait_and_pop_into_lem : (q : Queue) → wait_and_pop_into q ≡ wait_and_pop q
unfolding wait_and_pop_into wait_pop_head_into wait_and_pop wait_pop_head pop_head
wait_and_pop_into_lem q = elim (Option-cases (q.nodes q.head).datum) [
  | inl absent ↦ ground (arith, absent)
  | inr (value, there) ↦ ground (arith, there)
]
