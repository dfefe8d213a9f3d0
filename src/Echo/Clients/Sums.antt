-- ===== src/Echo/Clients/Sums.antt =====
-- What `onDisconnect` has summed.
use learn_for_cpp.Base.{
  ℕ, suc, ◌+◌, ◌<◌, ◌≡◌, sym, ap, ◌∙◌, subst, inl, inr, true, ◌∷◌, arith, Bool-cases, put, ◌==◌,
  ◌≤◌,
}
use mathlib.Core.List.{Mem, mem-cons_self, mem-cons_of_mem}
use learn_for_cpp.Echo.Clients.{Place, left, World, summing, Totals, add_session}
use learn_for_cpp.Echo.Clients.Inv.{is_over, AllOver, put_same, IsReported, sum_totals}

module _ (count : ℕ) where
  pub AllOver-before :
      (p : ℕ → Place) (i : ℕ) (x : Place)
      → is_over (p i) ≡ true
      → AllOver (put p i x) count
      → AllOver p count
  AllOver-before p i x o over j b = elim (Bool-cases (j == i)) [
    | inl same ↦ let e : j ≡ i = ground (arith, same) in subst (λ n. is_over (p n) ≡ true) (sym e) o
    | inr other ↦
        let e : put p i x j ≡ p j = ground (arith, other) in
        subst (λ y. is_over y ≡ true) e (over j b)
  ]

  -- A session reads one more session for its sums.
  pub IsReported-more :
      (w : World) (i k : ℕ) (t : Totals)
      → w.places i ≡ summing k t
      → k < count
      → IsReported count w
      → IsReported count
          (record w { places = put w.places i (summing (k + 1) (add_session t (w.sessions k))) })
  unfolding sum_totals
  IsReported-more w i k t here more (inl (j, b, at)) = elim (Bool-cases (j == i)) [
    | inl same ↦ ground (arith, same, at, here)
    | inr other ↦ inl (j, b, ground (arith, other, at))
  ]
  IsReported-more w i k t here more (inr (inl (j, m, b, le, at))) = elim (Bool-cases (j == i)) [
    | inl same ↦
        let e : j ≡ i = ground (arith, same) in
        let both : summing m (sum_totals w.sessions m) ≡ summing k t =
          sym at ∙ ap w.places e ∙ here in
        let mk : m ≡ k = ground (arith, both) in
        let right : sum_totals w.sessions k ≡ t =
          ap (sum_totals w.sessions) (sym mk) ∙ ground (arith, both) in
        let x = summing (k + 1) (add_session t (w.sessions k)) in
        let next : sum_totals w.sessions (k + 1) ≡ add_session t (w.sessions k) =
          let shape : k + 1 ≡ suc k = omega arith in
          ap (sum_totals w.sessions) shape ∙ ap (λ u. add_session u (w.sessions k)) right in
        inr (
          inl (
            i,
            k + 1,
            omega (arith, b, e),
            omega (arith, more),
            put_same w.places i x ∙ ap (summing (k + 1)) (sym next),
          ))
    | inr other ↦ inr (inl (j, m, b, le, ground (arith, other, at)))
  ]
  IsReported-more w i k t here more (inr (inr done)) = inr (inr done)

  -- A session prints its sums.
  pub IsReported-done :
      (w : World) (i k : ℕ) (t : Totals)
      → w.places i ≡ summing k t
      → count ≤ k
      → IsReported count w
      → IsReported count
          (record w { reports = t ∷ w.reports; quits = w.quits + 1; places = put w.places i left })
  IsReported-done w i k t here over (inl (j, b, at)) = elim (Bool-cases (j == i)) [
    | inl same ↦ ground (arith, same, at, here)
    | inr other ↦ inl (j, b, ground (arith, other, at))
  ]
  IsReported-done w i k t here over (inr (inl (j, m, b, le, at))) = elim (Bool-cases (j == i)) [
    | inl same ↦
        let e : j ≡ i = ground (arith, same) in
        let both : summing m (sum_totals w.sessions m) ≡ summing k t =
          sym at ∙ ap w.places e ∙ here in
        let mk : m ≡ k = ground (arith, both) in
        let all : count ≡ m = omega (arith, mk, over, le) in
        let right : sum_totals w.sessions count ≡ t =
          ap (sum_totals w.sessions) all ∙ ground (arith, both) in
        inr (
          inr (
            subst (λ u. Mem (sum_totals w.sessions count) (u ∷ w.reports)) right mem-cons_self,
            omega arith,
          ))
    | inr other ↦ inr (inl (j, m, b, le, ground (arith, other, at)))
  ]
  IsReported-done w i k t here over (inr (inr (printed, quit))) =
      inr (inr (mem-cons_of_mem _ printed, omega (arith, quit)))
