-- ===== src/Thread/Start/Released.antt =====
-- A pthread is created at most once, and joined or detached at most once.
use learn_for_cpp.Base.{
  ℕ, suc, ◌≤◌, ◌≡◌, ◌⊎◌, inl, inr, refl, true, false, none, some, List, [], ◌∷◌, arith, subst,
  Bool-cases,
}
use learn_for_cpp.Thread.Start.{
  Thread, Effect, created, joined, detached, new_thread, start, join, destroy,
}

-- What a program reaches by calls of `start` and `join` on one object, none of which aborts.
pub data Runs : Thread → Type 0 where
  begins : (name : List ℕ) (n : ℕ) → Runs (new_thread name n).0
  starts : {t t' : Thread} → Runs t → start t true ≡ some t' → Runs t'
  joins : {t t' : Thread} → Runs t → join t ≡ some t' → Runs t'

abbrev pub creations : List Effect → ℕ
creations [] = 0
creations (created ∷ es) = suc (creations es)
creations (joined ∷ es) = creations es
creations (detached ∷ es) = creations es

-- The calls that release a pthread.
abbrev pub releases : List Effect → ℕ
releases [] = 0
releases (created ∷ es) = releases es
releases (joined ∷ es) = suc (releases es)
releases (detached ∷ es) = suc (releases es)

-- The flags say what has been done.
pub record Inv (t : Thread) : Type 0 where
  pub fresh :
      t.started ≡ false → (t.joined ≡ false) × (creations t.effects ≡ 0) × (releases t.effects ≡ 0)
  pub live : t.started ≡ true → creations t.effects ≡ 1
  pub held : t.joined ≡ false → releases t.effects ≡ 0
  pub done : t.joined ≡ true → releases t.effects ≡ 1

start-Inv : (t t' : Thread) → Inv t → start t true ≡ some t' → Inv t'
unfolding start
start-Inv t t' v r =
    let after : Thread = record t { started = true; effects = created ∷ t.effects } in
    let same : after ≡ t' = ground (arith, r) in
    let off : t.started ≡ false = ground (arith, r) in
    let (unjoined, none_created, none_released) = v.fresh off in
    let inv : Inv after = record {
      fresh = λ h. cc;
      live = λ h. omega (arith, none_created);
      held = λ h. none_released;
      done = λ h. cc;
    } in
    subst Inv same inv

join-Inv : (t t' : Thread) → Inv t → join t ≡ some t' → Inv t'
unfolding join
join-Inv t t' v r =
    let after : Thread = record t { joined = true; effects = joined ∷ t.effects } in
    let same : after ≡ t' = ground (arith, r) in
    let on : t.started ≡ true = ground (arith, r) in
    let off : t.joined ≡ false = ground (arith, r) in
    let inv : Inv after = record {
      fresh = λ h. cc;
      live = λ h. v.live on;
      held = λ h. cc;
      done = λ h. omega (arith, v.held off);
    } in
    subst Inv same inv

Runs-Inv : (t : Thread) → Runs t → Inv t
unfolding new_thread
Runs-Inv t (begins name n) = record {
  fresh = λ h. (refl, refl, refl);
  live = λ h. cc;
  held = λ h. refl;
  done = λ h. cc;
}
Runs-Inv t (starts {t = s} run r) = start-Inv s t (Runs-Inv s run) r
Runs-Inv t (joins {t = s} run r) = join-Inv s t (Runs-Inv s run) r

restarts : (t : Thread) → (start t true ≡ none) ⊎ (t.started ≡ false)
unfolding start
restarts t = elim (Bool-cases t.started) [ inl on ↦ inl (ground arith) | inr off ↦ inr off ]

rejoins : (t : Thread) → (join t ≡ none) ⊎ ((t.started ≡ true) × (t.joined ≡ false))
unfolding join
rejoins t = elim (Bool-cases t.started) [
  | inl on ↦ (elim (Bool-cases t.joined) [
    | inl gone ↦ inl (ground arith)
    | inr left ↦ inr (on, left)
  ])
  | inr off ↦ inl (ground arith)
]

-- However `start` and `join` were called on a `Thread`: a second `start` and a second `join` abort, as
-- does a `join` before `start`; and when the object is destroyed, its pthread was created at most once
-- and has been released, by a join or by the destructor, as often as it was created.
pub releases-destroy :
    (t : Thread)
    → Runs t
    → (creations (destroy t).effects ≤ 1)
      × (releases (destroy t).effects ≡ creations (destroy t).effects)
      × ((start t true ≡ none) ⊎ (t.started ≡ false))
      × ((join t ≡ none) ⊎ ((t.started ≡ true) × (t.joined ≡ false)))
unfolding destroy start join
releases-destroy t run =
    let v = Runs-Inv t run in
    let counted : (creations (destroy t).effects ≤ 1)
        × (releases (destroy t).effects ≡ creations (destroy t).effects) =
      elim (Bool-cases t.started) [
        | inl on ↦ (elim (Bool-cases t.joined) [
          | inl gone ↦ (ground (arith, v.live on), ground (arith, v.live on, v.done gone))
          | inr left ↦ (ground (arith, v.live on), ground (arith, v.live on, v.held left))
        ])
        | inr off ↦
            let (unjoined, none_created, none_released) = v.fresh off in
            (ground (arith, none_created), ground (arith, none_created, none_released))
      ] in
    (counted.0, counted.1, restarts t, rejoins t)
