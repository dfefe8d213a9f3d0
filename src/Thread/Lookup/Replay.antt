-- ===== src/Thread/Lookup/Replay.antt =====
-- Any sequence of calls of the table, against a map.
use native.Mathlib.Nat.{mod-lt}
use learn_for_cpp.Base.{
  ℕ, zero, suc, ◌%◌, ◌<◌, ◌≡◌, refl, sym, ap, ◌∙◌, Option, none, some, List, [], ◌∷◌, arith, length,
  length-replicate, get_elem?, replicate, put, ◌>>=◌,
}
use learn_for_cpp.Thread.Lookup.{
  Table, Bucket, new_table, value_for, add_or_update_mapping, bucket_value_for, bucket_index,
}
use learn_for_cpp.Thread.Lookup.Updates.{value_at, value_for-add_or_update_mapping}

-- `value_for` with a default, and `add_or_update_mapping`.
pub data Op : Type 0 where
  looks : ℕ → ℕ → Op
  updates : ℕ → ℕ → Op

-- What the calls of `value_for` gave, in order.
pub run : (ℕ → ℕ) → List Op → Table → Option (List ℕ)
run hasher [] t = some []
run hasher (looks key d ∷ ops) t = do
  v ← value_for hasher t key d
  vs ← run hasher ops t
  some (v ∷ vs)
run hasher (updates key value ∷ ops) t = do
  t' ← add_or_update_mapping hasher t key value
  run hasher ops t'

-- The same calls on a function from keys to values.
abbrev pub or_default : Option ℕ → ℕ → ℕ
or_default none d = d
or_default (some v) d = v

abbrev pub replay : List Op → (ℕ → Option ℕ) → List ℕ
replay [] f = []
replay (looks key d ∷ ops) f = or_default (f key) d ∷ replay ops f
replay (updates key value ∷ ops) f = replay ops (put f key (some value))

abbrev no_mappings : Bucket
no_mappings = []

abbrev ReadsAs : (ℕ → ℕ) → Table → (ℕ → Option ℕ) → Type 0
ReadsAs hasher t f = (key d : ℕ) → value_for hasher t key d ≡ some (or_default (f key) d)

empty_bucket : (n i : ℕ) → i < n → get_elem? (replicate n no_mappings) i ≡ some []
empty_bucket zero i h = absurd (omega (arith, h))
empty_bucket (suc n) zero h = refl
empty_bucket (suc n) (suc i) h = empty_bucket n i (omega (arith, h))

new_table-ReadsAs : (hasher : ℕ → ℕ) (n : ℕ) → 0 < n → ReadsAs hasher (new_table n) (λ key. none)
unfolding new_table bucket_value_for
new_table-ReadsAs hasher n h key d =
    let size = length-replicate n no_mappings in
    let same : hasher key % length (replicate n no_mappings) ≡ hasher key % n =
      ap (λ x. hasher key % x) size in
    let here : get_elem? (replicate n no_mappings) (bucket_index hasher (new_table n) key)
        ≡ some [] =
      ap (get_elem? (replicate n no_mappings)) same ∙ empty_bucket n _ (mod-lt (hasher key) h) in
    value_at hasher (new_table n) key d [] (omega (arith, size, h)) here

run-replay :
    (hasher : ℕ → ℕ) (ops : List Op) (t : Table) (f : ℕ → Option ℕ)
    → 0 < length t
    → ReadsAs hasher t f
    → run hasher ops t ≡ some (replay ops f)
unfolding run
run-replay hasher [] t f h same = refl
run-replay hasher (looks key d ∷ ops) t f h same =
    ground (arith, same key d, run-replay hasher ops t f h same)
run-replay hasher (updates key value ∷ ops) t f h same =
    let (t', r, size, _) = value_for-add_or_update_mapping hasher t key value key 0 h in
    let same' : ReadsAs hasher t' (put f key (some value)) = λ other d.
      let (u, q, _, after) = value_for-add_or_update_mapping hasher t key value other d h in
      let tu : some u ≡ some t' = sym q ∙ r in ground (arith, tu, after, same other d) in
    let rest = run-replay hasher ops t' (put f key (some value)) (omega (arith, h, size)) same' in
    ground (arith, r, rest)

-- A new table with at least one bucket, under any hash function, answers any sequence of calls exactly
-- as a function from keys to values does: no call fails, and each `value_for` gives the last value put
-- under its key, or the default if there is none.
pub run-new_table :
    (hasher : ℕ → ℕ) (n : ℕ) (ops : List Op)
    → 0 < n
    → run hasher ops (new_table n) ≡ some (replay ops (λ key. none))
run-new_table hasher n ops h =
    let size : length (new_table n) ≡ n = unfold new_table in length-replicate n no_mappings in
    run-replay hasher ops (new_table n) (λ key. none) (omega (arith, size, h))
      (new_table-ReadsAs hasher n h)
