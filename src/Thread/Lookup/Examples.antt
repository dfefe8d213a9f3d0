-- ===== src/Thread/Lookup/Examples.antt =====
-- An update of a table with three buckets.
use learn_for_cpp.Base.{List, none, ◌≡◌, refl, arith, some, [], ◌∷◌}
use learn_for_cpp.Thread.Lookup.{
  Table, new_table, value_for, add_or_update_mapping, get_bucket, bucket_value_for,
  bucket_add_or_update, index,
}
use learn_for_cpp.Thread.Lookup.Replay.{Op, looks, updates, replay, run, run-new_table}

-- The keys 1 and 4 share a bucket.
abbrev table : Table
table = [] ∷ (record { key = 1; value = 10 } ∷ record { key = 4; value = 40 } ∷ []) ∷ [] ∷ []

updated :
    add_or_update_mapping (λ k. k) table 4 50
    ≡ some ([] ∷ (record { key = 1; value = 10 } ∷ record { key = 4; value = 50 } ∷ []) ∷ [] ∷ [])
unfolding add_or_update_mapping get_bucket bucket_add_or_update
updated = refl

misses : value_for (λ k. k) (new_table 3) 4 9 ≡ some 9
unfolding value_for get_bucket new_table bucket_value_for
misses = refl

abbrev ops : List Op
ops = updates 1 10 ∷ looks 4 9 ∷ updates 4 40 ∷ updates 1 11 ∷ looks 4 9 ∷ looks 1 9 ∷ []

answers : replay ops (λ key. none) ≡ 9 ∷ 40 ∷ 11 ∷ []
answers = refl

run-new_table_example : run (λ k. k) ops (new_table 3) ≡ some (replay ops (λ key. none))
run-new_table_example = run-new_table (λ k. k) 3 ops (omega arith)

-- A key that is missing gets the default value.
put_default : (index (λ key. none) 5).0 ≡ 0
unfolding index
put_default = refl
