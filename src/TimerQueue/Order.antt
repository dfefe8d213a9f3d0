-- ===== src/TimerQueue/Order.antt =====
-- The set of entries: its order, and what an insertion does.
use mathlib.Core.List.{Mem, Perm, mem-cons_self, mem-cons_of_mem, perm_middle}
use learn_for_cpp.Base.{
  ℕ, ◌≡◌, ◌≢◌, refl, ap, true, false, some, List, [], ◌∷◌, ◌++◌, map, All, arith, Bool-cases, inl,
  inr,
}
use learn_for_cpp.TimerQueue.{Entry, entry_ltb, set_insert}

-- Every entry stands before all that follow it.
abbrev pub IsSorted : List Entry → Type 0
IsSorted [] = Unit {0}
IsSorted (x ∷ xs) = All (λ y. entry_ltb x y ≡ true) xs × IsSorted xs

abbrev pub addresses : List Entry → List ℕ
addresses = map λ e. e.timer.address

entry_ltb_trans :
    (x y z : Entry) → entry_ltb x y ≡ true → entry_ltb y z ≡ true → entry_ltb x z ≡ true
entry_ltb_trans x y z h k = ground arith

entry_ltb_total :
    (x y : Entry) → entry_ltb x y ≡ false → x.timer.address ≢ y.timer.address → entry_ltb y x ≡ true
entry_ltb_total x y h k = ground arith

Before-mono :
    (x y : Entry) (zs : List Entry)
    → entry_ltb x y ≡ true
    → All (λ z. entry_ltb y z ≡ true) zs
    → All (λ z. entry_ltb x z ≡ true) zs
Before-mono x y [] h k = tt
Before-mono x y (z ∷ zs) h k = (entry_ltb_trans x y z h k.0, Before-mono x y zs h k.1)

-- An insertion puts the entry at one place and leaves the others in order.
pub record Inserted (e : Entry) (xs ys : List Entry) : Type 0 where
  pub front : List Entry
  pub back : List Entry
  pub before : xs ≡ front ++ back
  pub after : ys ≡ front ++ (e ∷ back)

pub All-insert {κ} :
    (P : Entry → Type κ) (e : Entry) (front back : List Entry)
    → P e
    → All P (front ++ back)
    → All P (front ++ (e ∷ back))
All-insert P e [] back h k = (h, k)
All-insert P e (x ∷ front) back h k = (k.0, All-insert P e front back h k.1)

pub All-Inserted {κ} :
    (P : Entry → Type κ) {e : Entry} {xs ys : List Entry}
    → Inserted e xs ys
    → P e
    → All P xs
    → All P ys
All-Inserted P {e} {xs} {ys} i h k =
    rw (i.after) (All-insert P e i.front i.back h (rw i.before at k))

pub perm-Inserted : {e : Entry} {xs ys : List Entry} → Inserted e xs ys → Perm ys (e ∷ xs)
perm-Inserted {e} {xs} {ys} i = rw (i.after, i.before) (perm_middle i.front i.back)

-- Inserting a timer that is not there keeps the set sorted; the assertion on the result holds.
pub set_insert_lem :
    (e : Entry) (xs : List Entry)
    → IsSorted xs
    → ¬ Mem e.timer.address (addresses xs)
    → (ys : List Entry) × (set_insert e xs ≡ some ys) × IsSorted ys × Inserted e xs ys
unfolding set_insert
set_insert_lem e [] s fresh =
    (e ∷ [], refl, (tt, tt), record { front = []; back = []; before = refl; after = refl })
set_insert_lem e (x ∷ xs) s fresh = elim (Bool-cases (entry_ltb e x)) [
  | inl here ↦ (
    e ∷ x ∷ xs,
    ground arith,
    ((here, Before-mono e x xs here s.0), s),
    record { front = []; back = x ∷ xs; before = refl; after = refl },
  )
  | inr later ↦
      let (ys, r, s', i) = set_insert_lem e xs s.1 (λ m. fresh (mem-cons_of_mem _ m)) in
      let after_x : entry_ltb x e ≡ true =
        entry_ltb_total e x later (λ same. fresh (subst_mem x xs same)) in
      (
        x ∷ ys,
        ground (arith, r),
        (All-Inserted (λ y. entry_ltb x y ≡ true) i after_x s.0, s'),
        record {
          front = x ∷ i.front;
          back = i.back;
          before = ap (λ l. x ∷ l) i.before;
          after = ap (λ l. x ∷ l) i.after;
        },
      )
]
  where
    subst_mem :
        (x : Entry) (xs : List Entry)
        → e.timer.address ≡ x.timer.address
        → Mem e.timer.address (addresses (x ∷ xs))
    subst_mem x xs same = rw same mem-cons_self
