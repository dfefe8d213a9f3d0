-- ===== src/Echo/Clients/Moves.antt =====
-- What the moves of the constructor and of the sessions preserve.
use learn_for_cpp.Base.{
  ℕ, ◌+◌, ◌-◌, ◌%◌, ◌^◌, ◌<◌, ◌≡◌, Bool, false, refl, ap, subst, inl, inr, true, false, some, List,
  [], ◌∷◌, arith, Bool-cases, Option-cases, put, ◌==◌, ltb,
}
use learn_for_cpp.Thread.Counter.{get, get_and_add, add_and_get, increment_and_get, decrement}
use learn_for_cpp.TcpConnection.{Connection, Write, send}
use learn_for_cpp.Echo.{session_on_message}
use learn_for_cpp.Echo.Clients.{
  Place, awaited, playing, leaving, left, is_awaited, is_playing, is_leaving, World, on_connect,
  summing, summing_at, Totals, no_totals, add_session, sum_next, sums, leave, check_empty,
  on_connected, message, Event, starts_session, pushes_session, connects, reads, drops, checks,
  move, moves,
}
use learn_for_cpp.Echo.Clients.Inv.{
  ups, is_over, AllOver, ups_le, put_same, ups-put, AllOver-ups, Inv, sum_totals,
}
use learn_for_cpp.Echo.Clients.Sums.{AllOver-before, IsReported-more, IsReported-done}

increment_lem : (v : ℕ) → v < 2 ^ 31 → increment_and_get 32 v ≡ (v + 1, v + 1)
unfolding increment_and_get add_and_get get_and_add
increment_lem v h = let e : (v + 1) % 2 ^ 32 ≡ v + 1 = omega (arith, h) in ap (λ x. (x, x)) e

decrement_lem : (v : ℕ) → 0 < v → v < 2 ^ 31 → decrement 32 v ≡ v - 1
unfolding decrement get_and_add
decrement_lem v p h = omega (arith, p, h)

-- The world after `onConnect`, but for the log.
on_connect_lem :
    (count : ℕ) (w : World)
    → w.num_connected < 2 ^ 31
    → let w' = on_connect count w in
      (w'.num_connected ≡ w.num_connected + 1)
      × (w'.places ≡ w.places)
      × (w'.sessions ≡ w.sessions)
      × (w'.reports ≡ w.reports)
      × (w'.quits ≡ w.quits)
      × (w'.started ≡ w.started)
      × (w'.pushed ≡ w.pushed)
unfolding on_connect
on_connect_lem count w h =
    let e = increment_lem w.num_connected h in
    elim (Bool-cases (w.num_connected + 1 == count)) [
      | inl all ↦ rw e (rw all (refl, refl, refl, refl, refl, refl, refl))
      | inr some_left ↦ rw e (rw some_left (refl, refl, refl, refl, refl, refl, refl))
    ]

summing_at_lem : (p : Place) (k : ℕ) (t : Totals) → summing_at p ≡ some (k, t) → p ≡ summing k t
summing_at_lem awaited k t e = cc
summing_at_lem playing k t e = cc
summing_at_lem leaving k t e = cc
summing_at_lem left k t e = cc
summing_at_lem (summing m u) k t e = cc

module _ (complete : Bool) (count : ℕ) (bound : count < 2 ^ 31) where
  put-not-AllOver : (p : ℕ → Place) (i : ℕ) → i < count → is_over (p i) ≡ false → ¬ AllOver p count
  put-not-AllOver p i h e over = let o = over i h in ground (arith, e, o)

  connects-Inv :
      (w w' : World) (block_size i : ℕ) (c : Connection) (wr : Write)
      → Inv complete count w
      → move count block_size (connects i c wr) w ≡ some w'
      → Inv complete count w'
  unfolding move on_connected
  connects-Inv w w' block_size i c wr inv r =
      elim (Option-cases (send c true (message block_size) wr)) [
        | inl stuck ↦ ground (arith, r, stuck)
        | inr (c', sent) ↦
            let after : World = record (on_connect count w) {
              places = put (on_connect count w).places i playing;
            } in
            let h : i < count = ground (arith, r, inv.within) in
            let at : is_awaited (w.places i) ≡ true = ground (arith, r) in
            let same : after ≡ w' = ground (arith, r, sent) in
            let few : w.num_connected < 2 ^ 31 =
              omega (arith, inv.counted, ups_le w.places count, bound) in
            let (n, p, s, t, q, st, pu) = on_connect_lem count w few in
            let on : is_playing (w.places i) ≡ false = ground (arith, at) in
            let more = ups-put w.places i count playing h in
            let up : after.num_connected ≡ ups after.places count =
              ground (arith, n, p, inv.counted, more, on) in
            let inv' : Inv complete count after = record {
              within = ground (arith, st, inv.within);
              pushed = λ c. ground (arith, pu, inv.pushed c);
              counted = up;
              reported = λ c over. absurd (put-not-AllOver after.places i h (ground arith) over);
            } in
            subst (Inv complete count) same inv'
      ]

  reads-Inv :
      (w w' : World) (block_size i : ℕ) (c : Connection) (wr : Write)
      → Inv complete count w
      → move count block_size (reads i c wr) w ≡ some w'
      → Inv complete count w'
  unfolding move
  reads-Inv w w' block_size i c wr inv r =
      elim (Option-cases (session_on_message (w.sessions i) c wr)) [
        | inl stuck ↦ ground (arith, r, stuck)
        | inr ((s, c'), got) ↦
            let after : World = record w { sessions = put w.sessions i s } in
            let h : i < count = ground (arith, r, inv.within) in
            let at : is_playing (w.places i) ≡ true = ground (arith, r) in
            let same : after ≡ w' = ground (arith, r, got) in
            let inv' : Inv complete count after = record {
              within = inv.within;
              pushed = inv.pushed;
              counted = inv.counted;
              reported = λ c over. absurd (put-not-AllOver w.places i h (ground (arith, at)) over);
            } in
            subst (Inv complete count) same inv'
      ]

  drops-Inv :
      (w w' : World) (block_size i : ℕ)
      → Inv complete count w
      → move count block_size (drops i) w ≡ some w'
      → Inv complete count w'
  unfolding move leave
  drops-Inv w w' block_size i inv r =
      let after : World = record (leave w) { places = put w.places i leaving } in
      let h : i < count = ground (arith, r, inv.within) in
      let at : is_playing (w.places i) ≡ true = ground (arith, r) in
      let same : after ≡ w' = ground (arith, r) in
      let less = ups-put w.places i count leaving h in
      let some_up : 0 < w.num_connected = ground (arith, inv.counted, less, at) in
      let few : w.num_connected < 2 ^ 31 =
        omega (arith, inv.counted, ups_le w.places count, bound) in
      let down = decrement_lem w.num_connected some_up few in
      let inv' : Inv complete count after = record {
        within = inv.within;
        pushed = inv.pushed;
        counted = ground (arith, down, less, at, inv.counted);
        reported = λ c over. inl (i, h, put_same w.places i leaving);
      } in
      subst (Inv complete count) same inv'

  checks-Inv :
      (w w' : World) (block_size i : ℕ)
      → Inv complete count w
      → move count block_size (checks i) w ≡ some w'
      → Inv complete count w'
  unfolding move check_empty get sum_totals
  checks-Inv w w' block_size i inv r =
      let h : i < count = ground (arith, r, inv.within) in
      let at : is_leaving (w.places i) ≡ true = ground (arith, r) in
      let on : is_playing (w.places i) ≡ false = ground (arith, at) in
      elim (Bool-cases (w.num_connected == 0)) [
        | inl empty ↦
            let p : ℕ → Place = put w.places i (summing 0 no_totals) in
            let after : World = record w { places = p } in
            let same : after ≡ w' = ground (arith, r, empty) in
            let equal = ups-put w.places i count (summing 0 no_totals) h in
            let inv' : Inv complete count after = record {
              within = inv.within;
              pushed = inv.pushed;
              counted = ground (arith, equal, on, inv.counted);
              reported = λ c over.
                  inr (inl (i, 0, h, omega arith, put_same w.places i (summing 0 no_totals)));
            } in
            subst (Inv complete count) same inv'
        | inr full ↦
            let after : World = record w { places = put w.places i left } in
            let same : after ≡ w' = ground (arith, r, full) in
            let equal = ups-put w.places i count left h in
            let inv' : Inv complete count after = record {
              within = inv.within;
              pushed = inv.pushed;
              counted = ground (arith, equal, on, inv.counted);
              reported = λ c over.
                  let none_up = AllOver-ups after.places count over in
                  let zero_left : w.num_connected ≡ 0 =
                    ground (arith, none_up, equal, on, inv.counted) in
                  ground (arith, full, zero_left);
            } in
            subst (Inv complete count) same inv'
      ]

  sums-Inv :
      (w w' : World) (block_size i : ℕ)
      → Inv complete count w
      → move count block_size (sums i) w ≡ some w'
      → Inv complete count w'
  unfolding move sum_next
  sums-Inv w w' block_size i inv r = elim (Option-cases (summing_at (w.places i))) [
    | inl other ↦ ground (arith, r, other)
    | inr ((k, t), at) ↦
        let h : i < count = ground (arith, r, inv.within) in
        let here : w.places i ≡ summing k t = summing_at_lem (w.places i) k t at in
        let on : is_playing (w.places i) ≡ false = ground (arith, here) in
        let o : is_over (w.places i) ≡ true = ground (arith, here) in
        elim (Bool-cases (ltb k w.pushed)) [
          | inl more ↦
              let x = summing (k + 1) (add_session t (w.sessions k)) in
              let after : World = record w { places = put w.places i x } in
              let same : after ≡ w' = ground (arith, r, at, more) in
              let equal = ups-put w.places i count x h in
              let inv' : Inv complete count after = record {
                within = inv.within;
                pushed = inv.pushed;
                counted = ground (arith, equal, on, inv.counted);
                reported = λ c over.
                    IsReported-more count w i k t here (ground (arith, more, inv.pushed c))
                      (inv.reported c (AllOver-before count w.places i x o over));
              } in
              subst (Inv complete count) same inv'
          | inr done ↦
              let after : World = record w {
                reports = t ∷ w.reports;
                quits = w.quits + 1;
                places = put w.places i left;
              } in
              let same : after ≡ w' = ground (arith, r, at, done) in
              let equal = ups-put w.places i count left h in
              let inv' : Inv complete count after = record {
                within = inv.within;
                pushed = inv.pushed;
                counted = ground (arith, equal, on, inv.counted);
                reported = λ c over.
                    IsReported-done count w i k t here (ground (arith, done, inv.pushed c))
                      (inv.reported c (AllOver-before count w.places i left o over));
              } in
              subst (Inv complete count) same inv'
        ]
  ]

  starts-Inv :
      (w w' : World) (block_size : ℕ)
      → Inv complete count w
      → move count block_size starts_session w ≡ some w'
      → Inv complete count w'
  unfolding move
  starts-Inv w w' block_size inv r =
      let after : World = record w { started = w.started + 1 } in
      let same : after ≡ w' = ground (arith, r) in
      let inv' : Inv complete count after = record {
        within = ground (arith, r);
        pushed = inv.pushed;
        counted = inv.counted;
        reported = inv.reported;
      } in
      subst (Inv complete count) same inv'

  pushes-Inv :
      (w w' : World) (block_size : ℕ)
      → Inv complete count w
      → move count block_size pushes_session w ≡ some w'
      → Inv complete count w'
  unfolding move
  pushes-Inv w w' block_size inv r =
      let after : World = record w { pushed = w.pushed + 1 } in
      let same : after ≡ w' = ground (arith, r) in
      let inv' : Inv complete count after = record {
        within = inv.within;
        pushed = λ c. ground (arith, r, inv.within, inv.pushed c);
        counted = inv.counted;
        reported = inv.reported;
      } in
      subst (Inv complete count) same inv'

  move-Inv :
      (e : Event) (w w' : World) (block_size : ℕ)
      → Inv complete count w
      → move count block_size e w ≡ some w'
      → Inv complete count w'
  move-Inv starts_session w w' block_size = starts-Inv w w' block_size
  move-Inv pushes_session w w' block_size = pushes-Inv w w' block_size
  move-Inv (connects i c wr) w w' block_size = connects-Inv w w' block_size i c wr
  move-Inv (reads i c wr) w w' block_size = reads-Inv w w' block_size i c wr
  move-Inv (drops i) w w' block_size = drops-Inv w w' block_size i
  move-Inv (checks i) w w' block_size = checks-Inv w w' block_size i
  move-Inv (sums i) w w' block_size = sums-Inv w w' block_size i

  pub moves-Inv :
      (es : List Event) (w w' : World) (block_size : ℕ)
      → Inv complete count w
      → moves count block_size es w ≡ some w'
      → Inv complete count w'
  unfolding moves
  moves-Inv [] w w' block_size inv r = subst (Inv complete count) (ground (arith, r)) inv
  moves-Inv (e ∷ es) w w' block_size inv r = elim (Option-cases (move count block_size e w)) [
    | inl stuck ↦ ground (arith, r, stuck)
    | inr (m, one) ↦
        moves-Inv es m w' block_size (move-Inv e w m block_size inv one) (ground (arith, r, one))
  ]
