-- ===== src/Thread/Holder/Exact.antt =====
-- What `holder_` says of the threads.
use learn_for_cpp.Base.{
  ℕ, ◌<◌, ◌≡◌, ◌↔◌, ◌⊎◌, refl, subst, inl, inr, Bool, true, false, none, some, List, [], ◌∷◌, arith,
  Option-cases, put,
}
use learn_for_cpp.Thread.Holder.{
  Place, outside, taking, inside, leaving, is_inside, MutexLock, new_mutex,
  is_locked_by_this_thread, take_mutex, set_holder, clear_holder, release_mutex, move, moves,
}

abbrev is_busy : Place → Bool
is_busy outside = false
is_busy _ = true

record Inv (m : MutexLock) : Type 0 where
  owned : (t : ℕ) → is_busy (m.places t) ≡ true → m.owner ≡ some t
  held : (t : ℕ) → is_inside (m.places t) ≡ true → m.holder ≡ t
  known : (m.holder ≡ 0) ⊎ (is_inside (m.places m.holder) ≡ true)

new_mutex-Inv : Inv new_mutex
unfolding new_mutex
new_mutex-Inv = record {
  owned = λ t h. ground (arith, h);
  held = λ t h. ground (arith, h);
  known = inl refl;
}

take-Inv :
    (m : MutexLock) (t : ℕ)
    → Inv m
    → m.owner ≡ none
    → m.places t ≡ outside
    → Inv (record m { owner = some t; places = put m.places t taking })
take-Inv m t i free at = record {
  owned = λ u h. grind (arith, h, i.owned u, free);
  held = λ u h. grind (arith, h, i.held u);
  known = elim i.known [ inl zero ↦ inl zero | inr held ↦ inr (grind (arith, held, at)) ];
}

set-Inv : (m : MutexLock) (t : ℕ) → Inv m → m.places t ≡ taking → Inv (set_holder m t)
unfolding set_holder
set-Inv m t i at = record {
  owned = λ u h. grind (arith, h, i.owned u, i.owned t, at);
  held = λ u h. grind (arith, h, i.held u, i.owned u, i.owned t, at);
  known = inr (grind (arith, at));
}

clear-Inv : (m : MutexLock) (t : ℕ) → Inv m → m.places t ≡ inside → Inv (clear_holder m t)
unfolding clear_holder
clear-Inv m t i at = record {
  owned = λ u h. grind (arith, h, i.owned u, i.owned t, at);
  held = λ u h. grind (arith, h, i.owned u, i.owned t, at);
  known = inl refl;
}

release-Inv : (m : MutexLock) (t : ℕ) → Inv m → m.places t ≡ leaving → Inv (release_mutex m t)
unfolding release_mutex
release-Inv m t i at = record {
  owned = λ u h. grind (arith, h, i.owned u, i.owned t, at);
  held = λ u h. grind (arith, h, i.held u);
  known = elim i.known [ inl zero ↦ inl zero | inr held ↦ inr (grind (arith, held, at)) ];
}

Place-cases : (p : Place) → (p ≡ outside) ⊎ ((p ≡ taking) ⊎ ((p ≡ inside) ⊎ (p ≡ leaving)))
Place-cases outside = inl refl
Place-cases taking = inr (inl refl)
Place-cases inside = inr (inr (inl refl))
Place-cases leaving = inr (inr (inr refl))

move-Inv : (m m' : MutexLock) (t : ℕ) → Inv m → move m t ≡ some m' → Inv m'
unfolding move take_mutex
move-Inv m m' t i r = elim (Place-cases (m.places t)) [
  | inl at ↦ elim (Option-cases m.owner) [
    | inl free ↦
        let after : MutexLock = record m { owner = some t; places = put m.places t taking } in
        let same : after ≡ m' = ground (arith, r, at, free) in
        subst Inv same (take-Inv m t i free at)
    | inr (u, taken) ↦ ground (arith, r, at, taken)
  ]
  | inr (inl at) ↦
      let same : set_holder m t ≡ m' = ground (arith, r, at) in subst Inv same (set-Inv m t i at)
  | inr (inr (inl at)) ↦
      let same : clear_holder m t ≡ m' = ground (arith, r, at) in
      subst Inv same (clear-Inv m t i at)
  | inr (inr (inr at)) ↦
      let same : release_mutex m t ≡ m' = ground (arith, r, at) in
      subst Inv same (release-Inv m t i at)
]

moves-Inv : (ts : List ℕ) (m m' : MutexLock) → Inv m → moves m ts ≡ some m' → Inv m'
unfolding moves
moves-Inv [] m m' i r = subst Inv (ground (arith, r)) i
moves-Inv (t ∷ ts) m m' i r = elim (Option-cases (move m t)) [
  | inl stuck ↦ ground (arith, r, stuck)
  | inr (n, one) ↦ moves-Inv ts n m' (move-Inv m n t i one) (ground (arith, r, one))
]

-- However the accesses of the threads interleave, `isLockedByThisThread` is true exactly for the thread
-- that is between the return of `lock` and its call of `unlock`.
pub is_locked-moves :
    (ts : List ℕ) (m : MutexLock) (t : ℕ)
    → moves new_mutex ts ≡ some m
    → 0 < t
    → (is_locked_by_this_thread m t ≡ true) ↔ (m.places t ≡ inside)
unfolding is_locked_by_this_thread
is_locked-moves ts m t r positive =
    let i = moves-Inv ts new_mutex m new_mutex-Inv r in
    (
      λ h.
          let here : m.holder ≡ t = ground (arith, h) in
          elim i.known [
            | inl zero ↦ absurd (omega (arith, zero, here, positive))
            | inr held ↦ ground (arith, held, here)
          ],
      λ at. ground (arith, i.held t (ground (arith, at))),
    )
