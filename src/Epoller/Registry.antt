-- ===== src/Epoller/Registry.antt =====
-- The map of the epoller and the flags of the channels agree.
use mathlib.Core.Bool.{true≢false}
use learn_for_cpp.Base.{
  ℕ, ◌≡◌, refl, sym, ap, ◌∙◌, inl, inr, Bool, true, false, none, some, arith, Bool-cases,
  Option-cases, ==_refl, put,
}
use learn_for_cpp.Channel.{Channel, is_none}
use learn_for_cpp.Epoller.{
  Epoller, new_epoller, epoll_add, epoll_mod, epoll_del, update_channel_map, remove_channel_map,
  set_registered, log_error,
}

-- A channel says that it is registered exactly when the map has it under its descriptor.
pub record IsRegistry (p : Epoller) : Type 0 where
  pub found : (fd a : ℕ) → p.channels fd ≡ some a → (p.objects a).fd ≡ fd
  pub listed : (fd a : ℕ) → p.channels fd ≡ some a → (p.objects a).registered ≡ true
  pub known : (a : ℕ) → (p.objects a).registered ≡ true → p.channels (p.objects a).fd ≡ some a

new_epoller-IsRegistry :
    (objects : ℕ → Channel)
    → ((a : ℕ) → (objects a).registered ≡ false)
    → IsRegistry (new_epoller objects)
unfolding new_epoller
new_epoller-IsRegistry objects fresh = record {
  found = λ fd a e. ground (arith, e);
  listed = λ fd a e. ground (arith, e);
  known = λ a e. ground (arith, e, fresh a);
}

add-IsRegistry :
    (p : Epoller) (a : ℕ)
    → IsRegistry p
    → p.channels (p.objects a).fd ≡ none
    → IsRegistry
        (set_registered (record p { channels = put p.channels (p.objects a).fd (some a) }) a true)
add-IsRegistry p a i free = record {
  found = λ fd b e. grind (arith, e, i.found fd b, i.found fd a, free);
  listed = λ fd b e. grind (arith, e, i.listed fd b, free);
  known = λ b e. grind (arith, e, i.known b, i.known a, i.found (p.objects a).fd b, free);
}

del-IsRegistry :
    (p : Epoller) (a : ℕ)
    → IsRegistry p
    → p.channels (p.objects a).fd ≡ some a
    → IsRegistry
        (set_registered (record p { channels = put p.channels (p.objects a).fd none }) a false)
del-IsRegistry p a i here = record {
  found = λ fd b e. grind (arith, e, i.found fd b, i.found fd a, here);
  listed = λ fd b e. grind (arith, e, i.listed fd b, i.found fd b, here);
  known = λ b e. grind (arith, e, i.known b, i.known a, i.found (p.objects a).fd b, here);
}

log_error-IsRegistry : (p : Epoller) → IsRegistry p → IsRegistry (log_error p)
log_error-IsRegistry p i = record { found = i.found; listed = i.listed; known = i.known }

-- No other channel is in the map under the descriptor of this one.
abbrev pub IsOwner : Epoller → ℕ → Type 0
IsOwner p a = (b : ℕ) → p.channels (p.objects a).fd ≡ some b → b ≡ a

not_listed :
    (p : Epoller) (a : ℕ)
    → IsRegistry p
    → IsOwner p a
    → (p.objects a).registered ≡ false
    → p.channels (p.objects a).fd ≡ none
not_listed p a i own out = elim (Option-cases (p.channels (p.objects a).fd)) [
  | inl free ↦ free
  | inr (b, e) ↦ absurd (true≢false (sym (i.listed _ a (e ∙ ap some (own b e))) ∙ out))
]

-- Where the map and the flags of the channels agree and no other channel has the descriptor,
-- `updateChannelMap` passes its assertions and they agree afterwards; a channel that asks for an event
-- is registered then, unless `epoll_ctl` failed to add it.
pub update_channel_map-IsRegistry :
    (p : Epoller) (a : ℕ) (ok : Bool)
    → IsRegistry p
    → IsOwner p a
    → (p' : Epoller) × (update_channel_map p a ok ≡ some p')
      × IsRegistry p'
      × (ok ≡ true → is_none (p.objects a).events ≡ false → (p'.objects a).registered ≡ true)
unfolding update_channel_map epoll_add epoll_mod
update_channel_map-IsRegistry p a ok i own = elim (Bool-cases (p.objects a).registered) [
  | inl known ↦
      let here = i.known a known in
      elim (Bool-cases ok) [
        | inl fine ↦ (p, ground (arith, known, here, fine, ==_refl a), i, λ _ _. known)
        | inr bad ↦ (
          log_error p,
          ground (arith, known, here, bad, ==_refl a),
          log_error-IsRegistry p i,
          λ _ _. known,
        )
      ]
  | inr unknown ↦
      let free = not_listed p a i own unknown in
      elim (Bool-cases (is_none (p.objects a).events)) [
        | inl idle ↦
            (p, ground (arith, unknown, idle), i, λ _ busy. absurd (true≢false (sym idle ∙ busy)))
        | inr busy ↦ elim (Bool-cases ok) [
          | inl fine ↦ (
            _,
            ground (arith, unknown, free, fine, busy),
            add-IsRegistry p a i free,
            λ _ _. rw (==_refl a) refl,
          )
          | inr bad ↦ (
            log_error p,
            ground (arith, unknown, free, bad, busy),
            log_error-IsRegistry p i,
            λ fine _. absurd (true≢false (sym fine ∙ bad)),
          )
        ]
      ]
]

-- Where the map and the flags agree, `removeChannelMap` of a registered channel that asks for no event
-- passes its assertions, and they agree afterwards; unless `epoll_ctl` failed, the descriptor is free.
pub remove_channel_map-IsRegistry :
    (p : Epoller) (a : ℕ) (ok : Bool)
    → IsRegistry p
    → (p.objects a).registered ≡ true
    → is_none (p.objects a).events ≡ true
    → (p' : Epoller) × (remove_channel_map p a ok ≡ some p')
      × IsRegistry p'
      × (ok ≡ true → p'.channels (p.objects a).fd ≡ none)
unfolding remove_channel_map epoll_del
remove_channel_map-IsRegistry p a ok i known idle =
    let here = i.known a known in
    elim (Bool-cases ok) [
      | inl fine ↦ (
        _,
        ground (arith, known, idle, here, fine, ==_refl a),
        del-IsRegistry p a i here,
        λ _. rw (==_refl (p.objects a).fd) refl,
      )
      | inr bad ↦ (
        log_error p,
        ground (arith, known, idle, here, bad, ==_refl a),
        log_error-IsRegistry p i,
        λ fine. absurd (true≢false (sym fine ∙ bad)),
      )
    ]
