-- ===== src/EventLoop/Round/Dispatched.antt =====
-- Which callbacks a round runs.
use learn_for_cpp.Base.{
  true, false, ℕ, ◌≤◌, ◌≡◌, ◌≢◌, refl, sym, ap, ◌∙◌, subst, inl, inr, none, some, List, [], ◌∷◌,
  arith, All, Option, Option-cases, length, put,
}
use learn_for_cpp.Channel.{Events, Call, set_revents, handle_event}
use learn_for_cpp.Epoller.{
  Wait, Epoller, Ready, ready, fill_each, fill_active_channels, epoll, Wait,
}
use learn_for_cpp.Epoller.Registry.{IsRegistry}
use learn_for_cpp.Epoller.Active.{
  AreKnown, AreDistinct, epoll-Kept, set_revents-IsRegistry, fill_each_untouched,
}
use learn_for_cpp.EventLoop.{Loop, do_pending_functions}
use learn_for_cpp.EventLoop.Round.{World, Handler, rounds, handle_channels, round}
use learn_for_cpp.EventLoop.Round.Answers.{
  on_loop, answers, answer_all, answer_at, answer_ready, AgreeOn, answer_all-same, put_here,
  handle_channels_lem,
}

epoll-fill :
    (p p' : Epoller) (r : Ready) (rs : List Ready) (active : List ℕ)
    → epoll p (ready (r ∷ rs)) ≡ some (active, p')
    → (q : Epoller) × (fill_each p (r ∷ rs) ≡ some (active, q)) × (p'.objects ≡ q.objects)
unfolding epoll fill_active_channels
epoll-fill p p' r rs active e = elim (Option-cases (fill_each p (r ∷ rs))) [
  | inl stuck ↦ ground (arith, e, stuck)
  | inr ((active', q), r1) ↦ (q, ground (arith, e, r1), ground (arith, e, r1))
]

module _ (answer : ℕ → Call → Loop → Loop) where
  answer_at-set :
      (p : Epoller) (a : ℕ) (e e' : Events) (o : Option ℕ) (l : Loop)
      → answer_at answer
          (record p { objects = put p.objects a (set_revents (p.objects a) e) })
          e'
          o
          l
        ≡ answer_at answer p e' o l
  answer_at-set p a e e' none l = refl
  answer_at-set p a e e' (some b) l =
      let q = put p.objects a (set_revents (p.objects a) e) in
      let same : set_revents (q b) e' ≡ set_revents (p.objects b) e' =
        unfold set_revents in ground arith in
      ap (λ c. answers answer b (handle_event c).0 l) same

  answer_ready-set :
      (p : Epoller) (a : ℕ) (e : Events) (rs : List Ready) (l : Loop)
      → answer_ready answer
          (record p { objects = put p.objects a (set_revents (p.objects a) e) })
          rs
          l
        ≡ answer_ready answer p rs l
  answer_ready-set p a e [] l = refl
  answer_ready-set p a e (r ∷ rs) l =
      answer_ready-set p a e rs _
      ∙ ap (answer_ready answer p rs) (answer_at-set p a e r.events (p.channels r.fd) l)

  fill_each-answers :
      (p p' : Epoller) (rs : List Ready) (active : List ℕ) (l : Loop)
      → IsRegistry p
      → AreDistinct rs
      → fill_each p rs ≡ some (active, p')
      → answer_all answer p' active l ≡ answer_ready answer p rs l
  unfolding fill_each
  fill_each-answers p p' [] active l i d e =
      let none_active : [] ≡ active = ground (arith, e) in
      ap (λ as'. answer_all answer p' as' l) (sym none_active)
  fill_each-answers p p' (r ∷ rs) active l i (away, d) e = elim (Option-cases (p.channels r.fd)) [
    | inl lost ↦ ground (arith, e, lost)
    | inr (a, here) ↦
        let c = set_revents (p.objects a) r.events in
        let p1 : Epoller = record p { objects = put p.objects a c } in
        elim (Option-cases (fill_each p1 rs)) [
          | inl stuck ↦ ground (arith, e, here, stuck)
          | inr ((rest, q), r1) ↦
              let i1 = set_revents-IsRegistry p a r.events i in
              let active_now : a ∷ rest ≡ active = ground (arith, e, here, r1) in
              let whole : q ≡ p' = ground (arith, e, here, r1) in
              let set_now : p1.objects a ≡ c = put_here p.objects a c in
              let fd_now : (p1.objects a).fd ≡ r.fd =
                ap (λ x. x.fd) set_now
                ∙ (let keeps : c.fd ≡ (p.objects a).fd = unfold set_revents in refl in keeps)
                ∙ i.found r.fd a here in
              let away1 : All (λ s. s.fd ≢ (p1.objects a).fd) rs =
                subst (λ fd. All (λ s. s.fd ≢ fd) rs) (sym fd_now) away in
              let untouched : q.objects a ≡ c =
                fill_each_untouched p1 q rs rest a i1 away1 r1 ∙ set_now in
              let l1 = answers answer a (handle_event c).0 l in
              let tail : answer_all answer q rest l1 ≡ answer_ready answer p rs l1 =
                fill_each-answers p1 q rs rest l1 i1 d r1 ∙ answer_ready-set p a r.events rs l1 in
              let head : answer_all answer q (a ∷ rest) l ≡ answer_all answer q rest l1 =
                ap (λ x. answer_all answer q rest (answers answer a (handle_event x).0 l))
                  untouched in
              let whole_list : answer_all answer p' active l ≡ answer_all answer q (a ∷ rest) l =
                ap (λ x. answer_all answer p' x l) (sym active_now)
                ∙ ap (λ x. answer_all answer x (a ∷ rest) l) (sym whole) in
              let goal : answer_ready answer p (r ∷ rs) l ≡ answer_ready answer p rs l1 =
                ap (λ o. answer_ready answer p rs (answer_at answer p r.events o l)) here in
              whole_list ∙ head ∙ tail ∙ sym goal
        ]
  ]

-- A round whose callbacks act on the loop alone: when every descriptor that is ready has a channel
-- and none is reported twice, the callbacks that run are those of the ready channels, in the order
-- of the report, each chosen by the events of its own descriptor; then the queue runs; and the map
-- and the flags of the channels still agree.
pub round-ready :
    (answer : ℕ → Call → Loop → Loop) (w : World) (rs : List Ready)
    → IsRegistry w.poller
    → AreKnown w.poller rs
    → AreDistinct rs
    → length rs ≤ w.poller.events_size
    → (w' : World) × (round (on_loop answer) (ready rs) w ≡ some w')
      × (w'.loop ≡ do_pending_functions (answer_ready answer w.poller rs w.loop))
      × IsRegistry w'.poller
unfolding round
round-ready answer w [] i k d room =
    (record w { loop = do_pending_functions w.loop }, unfold epoll handle_channels in refl, refl, i)
round-ready answer w (r ∷ rs) i k d room =
    let (active, p, e, _, _, i', _) = epoll-Kept w.poller (r ∷ rs) i k d room in
    let (q, filled, objects) = epoll-fill w.poller p r rs active e in
    let (p', handled, i'', channels) =
      handle_channels_lem answer active (record w { poller = p }) i' in
    let same : AgreeOn q p = λ b. ap (λ f. (handle_event (f b)).0) objects in
    let told : answer_all answer p active w.loop ≡ answer_ready answer w.poller (r ∷ rs) w.loop =
      answer_all-same answer q p active w.loop same
      ∙ fill_each-answers answer w.poller q (r ∷ rs) active w.loop i d filled in
    (
      record { loop = do_pending_functions (answer_all answer p active w.loop); poller = p' },
      ground (arith, e, handled),
      ap do_pending_functions told,
      i'',
    )

-- A round that ends with `quit_` set is the last one, whatever would be ready afterwards.
pub rounds-quit :
    (handler : Handler) (wait : Wait) (waits : List Wait) (w w' : World)
    → w.loop.quit ≡ false
    → round handler wait w ≡ some w'
    → w'.loop.quit ≡ true
    → rounds handler (wait ∷ waits) w
      ≡ some (record w' { loop = record (w'.loop) { looping = false } })
unfolding rounds
rounds-quit handler wait [] w w' running r asked = ground (arith, running, r, asked)
rounds-quit handler wait (x ∷ waits) w w' running r asked = ground (arith, running, r, asked)
