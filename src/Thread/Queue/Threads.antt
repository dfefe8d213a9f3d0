-- ===== src/Thread/Queue/Threads.antt =====
-- The queue of threadsafe_queue_version_2 used by any number of threads, one access at a time. A push
-- holds `tail_mutex_` and a pop `head_mutex_`, so at most one thread is inside a push and one inside a
-- pop, at the places `pusher` and `popper`; they interleave in any order. `get_tail` of a pop needs
-- `tail_mutex_`, too. The node of a push is new and its own before it takes the mutex.
use learn_for_cpp.Base.{
  ℕ, ◌+◌, Bool, true, false, Option, none, some, List, [], ◌∷◌, ◌++◌, length, put, ◌==◌, map,
  if◌then◌else◌, ◌>>=◌,
}
use learn_for_cpp.Thread.Queue.{Node, new_node}

-- Where the push stands, with its value and its new node.
pub data Pusher : Type 0 where
  outside : Pusher
  locked data_set linked : ℕ → ℕ → Pusher

-- Where the pop stands; `loaded` has the tail that it read, and whether the queue was empty then.
pub data Popper : Type 0 where
  outside locked taking : Popper
  loaded : ℕ → Bool → Popper

pub record Shared : Type 0 where
  pub nodes : ℕ → Node
  pub head : ℕ
  pub tail : ℕ
  pub fresh : ℕ
  pub pusher : Pusher
  pub popper : Popper
  -- All values pushed so far, and the old heads that the pops got, both in order.
  pub pushed : List ℕ
  pub taken : List ℕ
  -- A null pointer was followed.
  pub crashed : Bool

unfoldable pub new_shared : Shared
new_shared = record {
  nodes = λ a. new_node;
  head = 0;
  tail = 0;
  fresh = 1;
  pusher = Pusher.outside;
  popper = Popper.outside;
  pushed = [];
  taken = [];
  crashed = false;
}

pub data Move : Type 0 where
  push_begins : ℕ → Move
  push_moves pop_begins pop_moves : Move

-- `tail_->data = new_data`, `tail_->next = std::move(p)`, and `tail_ = new_tail` with the end of the
-- block.
unfoldable pub push_step : Pusher → Shared → Option Shared
push_step Pusher.outside s = none
push_step (Pusher.locked v p) s = some (record s {
  nodes = put s.nodes s.tail (record (s.nodes s.tail) { datum = some v });
  pusher = data_set v p;
})
push_step (data_set v p) s = some (record s {
  nodes = put s.nodes s.tail (record (s.nodes s.tail) { next = some p });
  pusher = linked v p;
})
push_step (linked v p) s =
    some (record s { tail = p; pusher = Pusher.outside; pushed = s.pushed ++ (v ∷ []) })

abbrev pub is_outside : Pusher → Bool
is_outside Pusher.outside = true
is_outside _ = false

-- `pop_head`, with the end of the block.
unfoldable pub take_head : Option ℕ → Shared → Shared
take_head none s = record s { crashed = true }
take_head (some b) s = record s {
  head = b;
  popper = Popper.outside;
  taken = s.taken ++ (s.head ∷ []);
}

-- `get_tail()`, the comparison with `head_`, and `pop_head`. Where the two are equal, `try_pop` returns
-- and `wait_and_pop` waits, and begins again.
unfoldable pub pop_step : Popper → Shared → Option Shared
pop_step Popper.outside s = none
pop_step Popper.locked s =
    if is_outside s.pusher
    then some (record s { popper = loaded s.tail (length s.pushed == length s.taken) })
    else none
pop_step (loaded t e) s =
    some (record s { popper = if s.head == t then Popper.outside else taking })
pop_step taking s = some (take_head (s.nodes s.head).next s)

abbrev pub is_popping : Popper → Bool
is_popping Popper.outside = false
is_popping _ = true

-- A move that is not possible now is `none`.
unfoldable pub move : Move → Shared → Option Shared
move (push_begins v) s =
    if is_outside s.pusher
    then some (record s {
      nodes = put s.nodes s.fresh new_node;
      fresh = s.fresh + 1;
      pusher = Pusher.locked v s.fresh;
    })
    else none
move push_moves s = push_step s.pusher s
move pop_begins s = if is_popping s.popper then none else some (record s { popper = Popper.locked })
move pop_moves s = pop_step s.popper s

unfoldable pub moves : List Move → Shared → Option Shared
moves [] s = some s
moves (m ∷ ms) s = do s' ← move m s; moves ms s'

-- `old_head->data`, which a pop reads when it no longer holds the mutex.
unfoldable pub values : Shared → List (Option ℕ)
values s = map (λ a. (s.nodes a).datum) s.taken
