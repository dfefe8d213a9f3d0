-- ===== src/Channel/Dispatch.antt =====
-- Which callbacks an event runs, and in which order.
use learn_for_cpp.Base.{ℕ, ◌≤◌, ◌+◌, ◌<◌, ◌≡◌, ◌↔◌, ◌⊎◌, true, false, List, [], ◌∷◌, arith}
use learn_for_cpp.Channel.{
  Channel, Call, close_call, error_call, read_call, write_call, handle_event,
}

-- How often a call stands in a list.
abbrev is_call : Call → Call → ℕ
is_call close_call close_call = 1
is_call error_call error_call = 1
is_call read_call read_call = 1
is_call write_call write_call = 1
is_call _ _ = 0

abbrev pub count : Call → List Call → ℕ
count c [] = 0
count c (d ∷ ds) = is_call c d + count c ds

-- The order in which `handleEvent` runs the callbacks.
abbrev rank : Call → ℕ
rank close_call = 0
rank error_call = 1
rank read_call = 2
rank write_call = 3

abbrev pub IsOrdered : List Call → Type 0
IsOrdered [] = Unit {0}
IsOrdered (c ∷ []) = Unit {0}
IsOrdered (c ∷ d ∷ ds) = (rank c < rank d) × IsOrdered (d ∷ ds)

-- The events that a callback answers to.
abbrev pub Wanted : Channel → Call → Type 0
Wanted c close_call =
    (c.callbacks.close ≡ true) × (c.revents.peer_closed ≡ true) × (c.revents.readable ≡ false)
Wanted c error_call = (c.callbacks.error ≡ true) × (c.revents.error ≡ true)
Wanted c read_call =
    (c.callbacks.read ≡ true)
    × ((c.revents.readable ≡ true) ⊎ ((c.revents.priority ≡ true) ⊎ (c.revents.peer_closed ≡ true)))
Wanted c write_call = (c.callbacks.write ≡ true) × (c.revents.writable ≡ true)

-- `handleEvent` runs a callback exactly when it is set and one of its events happened (for the close
-- callback: the peer closed and nothing is left to read), each at most once and in the fixed order
-- close, error, read, write.
pub handle_event-Wanted :
    (c : Channel) (call : Call)
    → ((count call (handle_event c).0 ≡ 1) ↔ Wanted c call)
      × (count call (handle_event c).0 ≤ 1)
      × IsOrdered (handle_event c).0
unfolding handle_event
handle_event-Wanted c close_call = ground arith
handle_event-Wanted c error_call = ground arith
handle_event-Wanted c read_call = ground arith
handle_event-Wanted c write_call = ground arith
