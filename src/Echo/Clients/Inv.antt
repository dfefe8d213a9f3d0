-- ===== src/Echo/Clients/Inv.antt =====
-- The counter of the client and the places of its sessions.
use learn_for_cpp.Base.{
  ℕ, zero, suc, ◌+◌, ◌≤◌, ◌<◌, ◌≡◌, refl, ◌⊎◌, inl, inr, Bool, true, false, arith, Bool-cases, put,
  ◌==◌, if◌then◌else◌,
}
use learn_for_cpp.Echo.Clients.{
  Place, leaving, left, is_playing, World, Totals, no_totals, add_session, summing,
}
use learn_for_cpp.Echo.{Session}
use mathlib.Core.List.{Mem}

-- The number of sessions, of the first `n`, whose connection is counted.
abbrev pub ups : (ℕ → Place) → ℕ → ℕ
ups p zero = 0
ups p (suc n) = ups p n + (if is_playing (p n) then 1 else 0)

abbrev pub is_over : Place → Bool
is_over leaving = true
is_over left = true
is_over (summing k t) = true
is_over _ = false

-- Every session was counted out.
abbrev pub AllOver : (ℕ → Place) → ℕ → Type 0
AllOver p n = (i : ℕ) → i < n → is_over (p i) ≡ true

pub ups_le : (p : ℕ → Place) (n : ℕ) → ups p n ≤ n
ups_le p zero = omega arith
ups_le p (suc n) = ground (arith, ups_le p n)

pub put_same : (p : ℕ → Place) (i : ℕ) (x : Place) → put p i x i ≡ x
put_same p i x = ground arith

put_beyond : (p : ℕ → Place) (i n : ℕ) (x : Place) → n ≤ i → ups (put p i x) n ≡ ups p n
put_beyond p i zero x h = refl
put_beyond p i (suc n) x h =
    let other : put p i x n ≡ p n = ground (arith, h) in
    ground (arith, other, put_beyond p i n x (omega (arith, h)))

-- A session that changes its place changes the count by itself.
pub ups-put :
    (p : ℕ → Place) (i n : ℕ) (x : Place)
    → i < n
    → ups (put p i x) n + (if is_playing (p i) then 1 else 0)
      ≡ ups p n + (if is_playing x then 1 else 0)
ups-put p i zero x h = absurd (omega (arith, h))
ups-put p i (suc n) x h = elim (Bool-cases (n == i)) [
  | inl last ↦
      let eq : n ≡ i = ground (arith, last) in
      let here : put p i x n ≡ x = ground (arith, last) in
      ground (arith, eq, here, put_beyond p i n x (omega (arith, eq)))
  | inr other ↦
      let there : put p i x n ≡ p n = ground (arith, other) in
      let below : i < n = ground (arith, other, h) in ground (arith, there, ups-put p i n x below)
]

pub AllOver-ups : (p : ℕ → Place) (n : ℕ) → AllOver p n → ups p n ≡ 0
AllOver-ups p zero h = refl
AllOver-ups p (suc n) h =
    let last = h n (omega arith) in
    ground (arith, last, AllOver-ups p n (λ i b. h i (omega (arith, b))))

-- What the first `n` sessions have read together.
unfoldable pub sum_totals : (ℕ → Session) → ℕ → Totals
sum_totals s zero = no_totals
sum_totals s (suc i) = add_session (sum_totals s i) (s i)

-- One of the sessions is still to read the counter, or has summed up some sessions rightly, or the sums
-- of all were printed and `quit` was called.
abbrev pub IsReported : ℕ → World → Type 0
IsReported count w =
    ((i : ℕ) × (i < count) × (w.places i ≡ leaving))
    ⊎ (((i : ℕ) × (k : ℕ) × (i < count)
          × (k ≤ count)
          × (w.places i ≡ summing k (sum_totals w.sessions k)))
        ⊎ (Mem (sum_totals w.sessions count) w.reports × (0 < w.quits)))

-- What holds between the moves; `complete` is whether all sessions were in `sessions_` from some moment
-- on at which not all were over.
pub record Inv (complete : Bool) (count : ℕ) (w : World) : Type 0 where
  pub within : w.started ≤ count
  pub counted : w.num_connected ≡ ups w.places count
  pub pushed : complete ≡ true → w.pushed ≡ count
  pub reported : complete ≡ true → AllOver w.places count → IsReported count w
