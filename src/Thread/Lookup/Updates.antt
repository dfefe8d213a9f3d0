-- ===== src/Thread/Lookup/Updates.antt =====
-- Looking up after an update.
use native.Mathlib.Nat.{mod-lt}
use learn_for_cpp.Base.{
  ℕ, zero, suc, ◌%◌, ◌<◌, ◌≡◌, ◌≢◌, refl, sym, ap, ◌∙◌, inl, inr, some, [], ◌∷◌, arith, Bool-cases,
  length, get_elem?, ◌==◌, if◌then◌else◌,
}
use learn_for_cpp.Thread.Lookup.{
  Bucket, Table, bucket_value_for, bucket_add_or_update, bucket_index, set_bucket, get_bucket,
  value_for, add_or_update_mapping,
}

bucket_update_lem :
    (b : Bucket) (key value other d : ℕ)
    → bucket_value_for (bucket_add_or_update b key value) other d
      ≡ (if key == other then value else bucket_value_for b other d)
unfolding bucket_value_for bucket_add_or_update
bucket_update_lem [] key value other d = refl
bucket_update_lem (m ∷ ms) key value other d =
    ground (arith, bucket_update_lem ms key value other d)

set_bucket-length : (t : Table) (i : ℕ) (b : Bucket) → length (set_bucket t i b) ≡ length t
set_bucket-length [] i b = refl
set_bucket-length (c ∷ cs) zero b = refl
set_bucket-length (c ∷ cs) (suc i) b = ap suc (set_bucket-length cs i b)

set_bucket-get :
    (t : Table) (i j : ℕ) (b : Bucket)
    → i < length t
    → get_elem? (set_bucket t i b) j ≡ (if i == j then some b else get_elem? t j)
set_bucket-get [] i j b h = absurd (omega (arith, h))
set_bucket-get (c ∷ cs) zero zero b h = refl
set_bucket-get (c ∷ cs) zero (suc j) b h = ground arith
set_bucket-get (c ∷ cs) (suc i) zero b h = ground arith
set_bucket-get (c ∷ cs) (suc i) (suc j) b h =
    ground (arith, set_bucket-get cs i j b (omega (arith, h)))

bucket_there : (t : Table) (i : ℕ) → i < length t → (b : Bucket) × (get_elem? t i ≡ some b)
bucket_there [] i h = absurd (omega (arith, h))
bucket_there (c ∷ cs) zero h = (c, refl)
bucket_there (c ∷ cs) (suc i) h = bucket_there cs i (omega (arith, h))

pub value_at :
    (hasher : ℕ → ℕ) (t : Table) (key d : ℕ) (b : Bucket)
    → 0 < length t
    → get_elem? t (bucket_index hasher t key) ≡ some b
    → value_for hasher t key d ≡ some (bucket_value_for b key d)
unfolding value_for get_bucket
value_at hasher t key d b h e = ground (arith, h, e)

-- In a table with at least one bucket, under any hash function, `add_or_update_mapping` succeeds, and
-- afterwards `value_for` gives the new value for its key and what it gave before for all other keys.
pub value_for-add_or_update_mapping :
    (hasher : ℕ → ℕ) (t : Table) (key value other d : ℕ)
    → 0 < length t
    → (t' : Table) × (add_or_update_mapping hasher t key value ≡ some t')
      × (length t' ≡ length t)
      × (value_for hasher t' other d
          ≡ (if key == other then some value else value_for hasher t other d))
unfolding add_or_update_mapping value_for get_bucket
value_for-add_or_update_mapping hasher t key value other d h =
    let i = bucket_index hasher t key in
    let j = bucket_index hasher t other in
    let (b, at_key) = bucket_there t i (mod-lt (hasher key) h) in
    let (c, at_other) = bucket_there t j (mod-lt (hasher other) h) in
    let b' = bucket_add_or_update b key value in
    let t' = set_bucket t i b' in
    let same = set_bucket-length t i b' in
    let get = set_bucket-get t i j b' (mod-lt (hasher key) h) in
    let index : bucket_index hasher t' other ≡ j = ap (λ n. hasher other % n) same in
    let some_bucket : 0 < length t' = omega (arith, h, same) in
    let before : value_for hasher t other d ≡ some (bucket_value_for c other d) =
      value_at hasher t other d c h at_other in
    let after : (e : Bucket)
        → get_elem? t' j ≡ some e
        → value_for hasher t' other d ≡ some (bucket_value_for e other d) =
      λ e at. value_at hasher t' other d e some_bucket (ap (get_elem? t') index ∙ at) in
    (
      t',
      ground (arith, h, at_key),
      same,
      elim (Bool-cases (i == j)) [
        | inl eq ↦
            let ij : i ≡ j = ground (arith, eq) in
            let bc : some b ≡ some c = sym at_key ∙ ap (get_elem? t) ij ∙ at_other in
            let new = after b' (get ∙ rw eq refl) in
            ground (arith, new, before, bc, bucket_update_lem b key value other d)
        | inr ne ↦
            let new = after c (get ∙ rw ne at_other) in
            let apart : key ≢ other =
              λ k. let e : i ≡ j = ap (λ x. hasher x % length t) k in ground (arith, e, ne) in
            ground (arith, new, before, apart)
      ],
    )
