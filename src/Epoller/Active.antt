-- ===== src/Epoller/Active.antt =====
-- The channels that a poll makes active.
use learn_for_cpp.Base.{
  subst, ℕ, ◌*◌, ◌≤◌, ◌≡◌, ◌≢◌, refl, sym, ap, ◌∙◌, inl, inr, true, none, some, List, [], ◌∷◌,
  arith, All, Bool-cases, Option-cases, length, leb, le→leb, map, put, ◌==◌, if◌then◌else◌,
}
use learn_for_cpp.Channel.{Events, set_revents}
use learn_for_cpp.Epoller.{Epoller, Ready, ready, fill_each, fill_active_channels, epoll}
use learn_for_cpp.Epoller.Registry.{IsRegistry}

-- Every descriptor that is ready has a channel.
abbrev pub AreKnown : Epoller → List Ready → Type 0
AreKnown p rs = All (λ r. p.channels r.fd ≢ none) rs

pub set_revents-IsRegistry :
    (p : Epoller) (a : ℕ) (e : Events)
    → IsRegistry p
    → IsRegistry (record p { objects = put p.objects a (set_revents (p.objects a) e) })
unfolding set_revents
set_revents-IsRegistry p a e i = record {
  found = λ fd b h. grind (arith, i.found fd b, h);
  listed = λ fd b h. grind (arith, i.listed fd b, h);
  known = λ b h. grind (arith, i.known b, h);
}

-- No descriptor is reported twice.
abbrev pub AreDistinct : List Ready → Type 0
AreDistinct [] = Unit {0}
AreDistinct (r ∷ rs) = All (λ s. s.fd ≢ r.fd) rs × AreDistinct rs

pub fill_each_untouched :
    (p p' : Epoller) (rs : List Ready) (active : List ℕ) (a : ℕ)
    → IsRegistry p
    → All (λ s. s.fd ≢ (p.objects a).fd) rs
    → fill_each p rs ≡ some (active, p')
    → p'.objects a ≡ p.objects a
unfolding fill_each
fill_each_untouched p p' [] active a i away e = ground (arith, e)
fill_each_untouched p p' (r ∷ rs) active a i away e = elim (Option-cases (p.channels r.fd)) [
  | inl lost ↦ ground (arith, e, lost)
  | inr (b, here) ↦
      let p1 : Epoller = record p {
        objects = put p.objects b (set_revents (p.objects b) r.events);
      } in
      elim (Option-cases (fill_each p1 rs)) [
        | inl stuck ↦ ground (arith, e, here, stuck)
        | inr ((rest, q), r1) ↦
            let other : a ≢ b =
              λ ab. away.0 (sym (ap (λ x. (p.objects x).fd) ab ∙ i.found r.fd b here)) in
            let keep : p1.objects a ≡ p.objects a = ground (arith, other) in
            let away' : All (λ s. s.fd ≢ (p1.objects a).fd) rs =
              subst (λ c. All (λ s. s.fd ≢ c.fd) rs) (sym keep) away.1 in
            let whole : q ≡ p' = ground (arith, e, here, r1) in
            let same =
              fill_each_untouched p1 q rs rest a (set_revents-IsRegistry p b r.events i) away' r1 in
            ap (λ x. x.objects a) (sym whole) ∙ same ∙ keep
      ]
]

-- What stays the same while events are noted.
record Kept (p p' : Epoller) : Type 0 where
  registry : IsRegistry p'
  size : p'.events_size ≡ p.events_size

abbrev pub revents_of : Epoller → List ℕ → List Events
revents_of p = map λ a. (p.objects a).revents

fill_each-Kept :
    (p : Epoller) (rs : List Ready)
    → IsRegistry p
    → AreKnown p rs
    → AreDistinct rs
    → (active : List ℕ) × (p' : Epoller) × (fill_each p rs ≡ some (active, p'))
      × (map (λ r. p.channels r.fd) rs ≡ map some active)
      × (revents_of p' active ≡ map (λ r. r.events) rs)
      × Kept p p'
unfolding fill_each
fill_each-Kept p [] i k d = ([], p, refl, refl, refl, record { registry = i; size = refl })
fill_each-Kept p (r ∷ rs) i k (away, d) = elim (Option-cases (p.channels r.fd)) [
  | inl lost ↦ absurd (k.0 lost)
  | inr (a, here) ↦
      let p1 : Epoller = record p {
        objects = put p.objects a (set_revents (p.objects a) r.events);
      } in
      let i1 : IsRegistry p1 = set_revents-IsRegistry p a r.events i in
      let (active, p', e, names, noted, kept) = fill_each-Kept p1 rs i1 k.1 d in
      let away1 : All (λ s. s.fd ≢ (p1.objects a).fd) rs =
        subst (λ fd. All (λ s. s.fd ≢ fd) rs) (sym (i1.found r.fd a here)) away in
      let same : p'.objects a ≡ p1.objects a = fill_each_untouched p1 p' rs active a i1 away1 e in
      let set_now : (p1.objects a).revents ≡ r.events = unfold set_revents in grind arith in
      let head : (p'.objects a).revents ≡ r.events = ap (λ c. c.revents) same ∙ set_now in
      (
        a ∷ active,
        p',
        ground (arith, here, e),
        ap (λ o. o ∷ map (λ r. p.channels r.fd) rs) here ∙ ap (λ os. some a ∷ os) names,
        ap (λ x. x ∷ revents_of p' active) head ∙ ap (λ xs. r.events ∷ xs) noted,
        record { registry = kept.registry; size = kept.size },
      )
]

-- A poll that reports no more events than there is room for, each for a descriptor in the map and none
-- for the same descriptor as another, makes exactly the channels that the map has for them active, in
-- the order of the report, and each of them holds the events that were reported for it. The map and the
-- flags of the channels still agree, and the room doubles when it was full.
pub epoll-Kept :
    (p : Epoller) (rs : List Ready)
    → IsRegistry p
    → AreKnown p rs
    → AreDistinct rs
    → length rs ≤ p.events_size
    → (active : List ℕ) × (p' : Epoller) × (epoll p (ready rs) ≡ some (active, p'))
      × (map (λ r. p.channels r.fd) rs ≡ map some active)
      × (revents_of p' active ≡ map (λ r. r.events) rs)
      × IsRegistry p'
      × (p'.events_size ≡ (if length rs == p.events_size then p.events_size * 2 else p.events_size))
unfolding epoll fill_active_channels
epoll-Kept p [] i k d h = ([], p, refl, refl, refl, i, ground arith)
epoll-Kept p (r ∷ rs) i k d h =
    let (active, p', e, names, noted, kept) = fill_each-Kept p (r ∷ rs) i k d in
    let room : leb (length (r ∷ rs)) p.events_size ≡ true = le→leb _ _ h in
    elim (Bool-cases (length (r ∷ rs) == p.events_size)) [
      | inl full ↦ (
        active,
        record p' { events_size = p'.events_size * 2 },
        ground (arith, e, room, full),
        names,
        noted,
        record {
          found = kept.registry.found;
          listed = kept.registry.listed;
          known = kept.registry.known;
        },
        ground (arith, full, kept.size),
      )
      | inr more ↦ (
        active,
        p',
        ground (arith, e, room, more),
        names,
        noted,
        kept.registry,
        ground (arith, more, kept.size),
      )
    ]
