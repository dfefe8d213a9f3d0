-- ===== src/EventLoop/Round/Answers.antt =====
-- Callbacks that act on the loop alone, and `handleEvent` of several channels with them.
use learn_for_cpp.Base.{
  ℕ, ◌≡◌, refl, ap, ◌∙◌, inl, inr, true, false, none, some, List, [], ◌∷◌, ◌++◌, arith, Bool-cases,
  Option, put,
}
use learn_for_cpp.Channel.{
  Channel, Events, Call, close_call, error_call, read_call, write_call, set_revents, handle_event,
  fire,
}
use learn_for_cpp.Epoller.{Epoller, Ready}
use learn_for_cpp.Epoller.Registry.{IsRegistry}
use learn_for_cpp.EventLoop.{Loop}
use learn_for_cpp.EventLoop.Round.{
  World, Handler, set_handling, run_call, handle_channel, handle_channels, happened, is_set,
}

-- Callbacks that act on the loop alone.
abbrev pub on_loop : (ℕ → Call → Loop → Loop) → Handler
on_loop answer a call w = some (record w { loop = answer a call w.loop })

-- The callbacks that an event of a channel runs, by `handleEvent` of Channel.
abbrev pub calls_of : Epoller → ℕ → List Call
calls_of p a = (handle_event (p.objects a)).0

abbrev fires : Channel → Call → List Call
fires c call = fire (happened c call) (is_set c call) call

calls_of_lem :
    (c : Channel)
    → (handle_event c).0
      ≡ fires c close_call ++ (fires c error_call ++ (fires c read_call ++ fires c write_call))
unfolding handle_event
calls_of_lem c = refl

pub put_here : (f : ℕ → Channel) (a : ℕ) (c : Channel) → put f a c a ≡ c
put_here f a c = ground arith

-- What a channel's own `handleEvent` leaves of the objects.
abbrev handled : Epoller → ℕ → Epoller
handled p a = record p {
  objects =
      put (put p.objects a (record (p.objects a) { event_handling = true })) a
        (record (put p.objects a (record (p.objects a) { event_handling = true }) a) {
          event_handling = false;
        });
}

-- The same callbacks for every channel.
abbrev pub AgreeOn : Epoller → Epoller → Type 0
AgreeOn p q = (b : ℕ) → calls_of q b ≡ calls_of p b

handled-AgreeOn : (p : Epoller) (a : ℕ) → AgreeOn p (handled p a)
handled-AgreeOn p a b = unfold handle_event in ground arith

handled-IsRegistry : (p : Epoller) (a : ℕ) → IsRegistry p → IsRegistry (handled p a)
handled-IsRegistry p a i = record {
  found = λ fd b h. grind (arith, i.found fd b, h);
  listed = λ fd b h. grind (arith, i.listed fd b, h);
  known = λ b h. grind (arith, i.known b, h);
}

module _ (answer : ℕ → Call → Loop → Loop) where
  abbrev pub answers : ℕ → List Call → Loop → Loop
  answers a [] l = l
  answers a (call ∷ calls) l = answers a calls (answer a call l)

  -- What the channels of a list do, each with its callbacks.
  abbrev pub answer_all : Epoller → List ℕ → Loop → Loop
  answer_all p [] l = l
  answer_all p (a ∷ active) l = answer_all p active (answers a (calls_of p a) l)

  -- The callbacks of a channel for the events of its own descriptor.
  abbrev pub answer_at : Epoller → Events → Option ℕ → Loop → Loop
  answer_at p e none l = l
  answer_at p e (some a) l = answers a (handle_event (set_revents (p.objects a) e)).0 l

  abbrev pub answer_ready : Epoller → List Ready → Loop → Loop
  answer_ready p [] l = l
  answer_ready p (r ∷ rs) l = answer_ready p rs (answer_at p r.events (p.channels r.fd) l)

  answers-append :
      (a : ℕ) (xs ys : List Call) (l : Loop)
      → answers a (xs ++ ys) l ≡ answers a ys (answers a xs l)
  answers-append a [] ys l = refl
  answers-append a (x ∷ xs) ys l = answers-append a xs ys (answer a x l)

  run_call_lem :
      (a : ℕ) (call : Call) (w : World) (c : Channel)
      → w.poller.objects a ≡ c
      → run_call (on_loop answer) a call w
        ≡ some (record w { loop = answers a (fires c call) w.loop })
  unfolding run_call
  run_call_lem a call w c e = elim (Bool-cases (happened c call)) [
    | inl came ↦ elim (Bool-cases (is_set c call)) [
      | inl set ↦ rw e (rw came (rw set refl))
      | inr unset ↦ rw e (rw came (rw unset refl))
    ]
    | inr quiet ↦ rw e (rw quiet refl)
  ]

  handle_channel_lem :
      (a : ℕ) (w : World)
      → handle_channel (on_loop answer) a w
        ≡ some
            (record { loop = answers a (calls_of w.poller a) w.loop; poller = handled w.poller a })
  unfolding handle_channel
  handle_channel_lem a w =
      let c = w.poller.objects a in
      let c' : Channel = record c { event_handling = true } in
      let w0 : World = set_handling w a true in
      let here : w0.poller.objects a ≡ c' = put_here w.poller.objects a c' in
      let l1 = answers a (fires c close_call) w.loop in
      let l2 = answers a (fires c error_call) l1 in
      let l3 = answers a (fires c read_call) l2 in
      let l4 = answers a (fires c write_call) l3 in
      let r1 = run_call_lem a close_call w0 c' here in
      let r2 = run_call_lem a error_call (record w0 { loop = l1 }) c' here in
      let r3 = run_call_lem a read_call (record w0 { loop = l2 }) c' here in
      let r4 = run_call_lem a write_call (record w0 { loop = l3 }) c' here in
      let last = fires c read_call ++ fires c write_call in
      let together : answers a (calls_of w.poller a) w.loop ≡ l4 =
        ap (λ cs. answers a cs w.loop) (calls_of_lem c)
        ∙ answers-append a (fires c close_call) (fires c error_call ++ last) w.loop
        ∙ answers-append a (fires c error_call) last l1
        ∙ answers-append a (fires c read_call) (fires c write_call) l2 in
      ground (arith, r1, r2, r3, r4, together)

  pub answer_all-same :
      (p q : Epoller) (active : List ℕ) (l : Loop)
      → AgreeOn p q
      → answer_all q active l ≡ answer_all p active l
  answer_all-same p q [] l same = refl
  answer_all-same p q (a ∷ active) l same =
      ap (λ cs. answer_all q active (answers a cs l)) (same a)
      ∙ answer_all-same p q active (answers a (calls_of p a) l) same

  pub handle_channels_lem :
      (active : List ℕ) (w : World)
      → IsRegistry w.poller
      → (p : Epoller) × (handle_channels (on_loop answer) active w
          ≡ some (record { loop = answer_all w.poller active w.loop; poller = p }))
        × IsRegistry p
        × (p.channels ≡ w.poller.channels)
  unfolding handle_channels
  handle_channels_lem [] w i = (w.poller, refl, i, refl)
  handle_channels_lem (a ∷ active) w i =
      let w1 : World = record {
        loop = answers a (calls_of w.poller a) w.loop;
        poller = handled w.poller a;
      } in
      let (p, e, i', c) = handle_channels_lem active w1 (handled-IsRegistry w.poller a i) in
      let same = answer_all-same w.poller w1.poller active w1.loop (handled-AgreeOn w.poller a) in
      (p, ground (arith, handle_channel_lem a w, e, same), i', c)
