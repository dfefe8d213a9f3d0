-- ===== src/EventLoop/Round/Examples.antt =====
-- A new loop whose eventfd is readable.
use learn_for_cpp.Base.{ℕ, ◌≡◌, refl, true, false, none, some, [], ◌∷◌, ◌==◌, if◌then◌else◌, arith}
use learn_for_cpp.Channel.{Channel, Call, none_event, new_channel, handle_event, set_revents}
use learn_for_cpp.Epoller.{Ready, ready}
use learn_for_cpp.Epoller.Registry.{IsRegistry}
use learn_for_cpp.EventLoop.{Loop, new_loop, handle_read, do_pending_functions}
use learn_for_cpp.EventLoop.Round.{World, create, round}
use learn_for_cpp.EventLoop.Round.Answers.{on_loop, answer_ready}
use learn_for_cpp.EventLoop.Round.Dispatched.{round-ready}

abbrev channel : Channel
channel = record {
  fd = 7;
  enable_et = false;
  registered = true;
  event_handling = false;
  events = record {
    readable = true;
    priority = true;
    writable = false;
    error = false;
    peer_closed = true;
    edge = false;
  };
  revents = none_event;
  callbacks = record { read = true; write = false; error = false; close = false };
}

-- Another thread has woken the loop.
abbrev woken : World
woken = record {
  loop = record (new_loop) { wakeups = 1 };
  poller = record {
    channels = λ fd. if fd == 7 then some 3 else none;
    events_size = 16;
    objects = λ a. if a == 3 then channel else new_channel 0 false;
    errors = 0;
  };
}

-- The only channel is that of the eventfd.
abbrev answer : ℕ → Call → Loop → Loop
answer a call l = handle_read l

woken-IsRegistry : IsRegistry woken.poller
unfolding new_channel
woken-IsRegistry = record {
  found = λ fd a e. ground (arith, e);
  listed = λ fd a e. ground (arith, e);
  known = λ a e. ground (arith, e);
}

abbrev event : Ready
event = record { fd = 7; events = record (none_event) { readable = true } }

-- The second loop of a thread ends the program.
one_loop : create true (λ a. new_channel 0 false) 3 7 true ≡ none
unfolding create
one_loop = refl

woken_answers : answer_ready answer woken.poller (event ∷ []) woken.loop ≡ new_loop
unfolding handle_event set_revents handle_read new_loop new_channel
woken_answers = refl

round-ready_example :
    (w' : World) × (round (on_loop answer) (ready (event ∷ [])) woken ≡ some w')
    × (w'.loop ≡ do_pending_functions (answer_ready answer woken.poller (event ∷ []) woken.loop))
    × IsRegistry w'.poller
round-ready_example =
    round-ready answer woken (event ∷ []) woken-IsRegistry (λ e. ground (arith, e), tt) (tt, tt)
      (omega arith)
