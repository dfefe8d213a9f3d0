-- ===== src/Echo/Clients/Report.antt =====
-- What the client prints when every session is over.
use learn_for_cpp.Base.{
  ℕ, zero, suc, ◌^◌, ◌<◌, ◌≡◌, ◌⊎◌, false, refl, sym, ◌∙◌, inl, inr, true, false, some, List, arith,
}
use mathlib.Core.List.{Mem}
use learn_for_cpp.Thread.Counter.{new_counter}
use learn_for_cpp.Echo.Clients.{Place, awaited, leaving, left, World, new_world, Event, moves}
use learn_for_cpp.Echo.Clients.Inv.{ups, is_over, AllOver, AllOver-ups, Inv, sum_totals}
use learn_for_cpp.Echo.Clients.Moves.{moves-Inv}

none_up : (n : ℕ) → ups (λ i. awaited) n ≡ 0
none_up zero = refl
none_up (suc n) = ground (arith, none_up n)

new_world-Inv : (count : ℕ) → Inv false count new_world
unfolding new_world new_counter
new_world-Inv count = record {
  within = omega arith;
  pushed = λ c. cc;
  counted = sym (none_up count);
  reported = λ c. cc;
}

-- What is asked of the moment at which all sessions are pushed: one of them is up or not yet
-- connected, or is still to read the counter.
abbrev pub IsBusy : Place → Type 0
IsBusy p = (is_over p ≡ false) ⊎ (p ≡ leaving)

complete-Inv :
    (count i : ℕ) (w : World)
    → Inv false count w
    → w.pushed ≡ count
    → i < count
    → IsBusy (w.places i)
    → Inv true count w
complete-Inv count i w inv all h busy = record {
  within = inv.within;
  pushed = λ c. all;
  counted = inv.counted;
  reported = λ c over. elim busy [
    | inl still ↦ let o = over i h in ground (arith, o, still)
    | inr at ↦ inl (i, h, at)
  ];
}

-- However the constructor and the threads of the sessions interleave, with fewer than 2 ^ 31 sessions:
-- if at some moment all sessions are in `sessions_` and one of them has not yet read the counter in its
-- `onDisconnect`, then once `onDisconnect` has returned for every session, the counter is 0, `quit` of
-- the loop was called, and among the sums that were printed are those of what all sessions read.
pub report-moves :
    (count block_size i : ℕ) (es0 es : List Event) (w0 w : World)
    → count < 2 ^ 31
    → moves count block_size es0 new_world ≡ some w0
    → w0.pushed ≡ count
    → i < count
    → IsBusy (w0.places i)
    → moves count block_size es w0 ≡ some w
    → ((j : ℕ) → j < count → w.places j ≡ left)
    → (w.num_connected ≡ 0) × Mem (sum_totals w.sessions count) w.reports × (0 < w.quits)
report-moves count block_size i es0 es w0 w bound r0 pushed h busy r all =
    let start = moves-Inv false count bound es0 new_world w0 block_size (new_world-Inv count) r0 in
    let middle = complete-Inv count i w0 start pushed h busy in
    let inv = moves-Inv true count bound es w0 w block_size middle r in
    let over : AllOver w.places count = λ j b. ground (arith, all j b) in
    let empty : w.num_connected ≡ 0 = inv.counted ∙ AllOver-ups w.places count over in
    elim (inv.reported refl over) [
      | inl (j, b, at) ↦ ground (arith, all j b, at)
      | inr (inl (j, k, b, le, at)) ↦ ground (arith, all j b, at)
      | inr (inr (printed, quit)) ↦ (empty, printed, quit)
    ]
