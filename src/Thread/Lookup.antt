-- ===== src/Thread/Lookup.antt =====
-- `threadsafe_lookup_table` of thread/threadsafe_lookup_table.cc, with keys and values as numbers, as in
-- its program. The hash function is a parameter; the lock of a bucket makes each operation one step. A
-- table without buckets is the fault `none`: the code takes a remainder by 0.
pub mod Updates
pub mod Replay
mod Examples
use learn_for_cpp.Base.{
  ℕ, zero, suc, ◌%◌, Bool, true, false, Option, none, some, List, [], ◌∷◌, length, get_elem?,
  replicate, put, ◌==◌, if◌then◌else◌, ◌>>=◌,
}

-- `bucket_value`, and `bucket_data` in its order.
pub record Mapping : Type 0 where
  pub key : ℕ
  pub value : ℕ

abbrev pub Bucket : Type 0
Bucket = List Mapping

-- `value_for` of a bucket: the first entry of the key, or the default.
pub bucket_value_for : Bucket → ℕ → ℕ → ℕ
bucket_value_for [] key default_value = default_value
bucket_value_for (m ∷ ms) key default_value =
    if m.key == key then m.value else bucket_value_for ms key default_value

-- The first entry of the key gets the value; with none, one is put at the end.
pub bucket_add_or_update : Bucket → ℕ → ℕ → Bucket
bucket_add_or_update [] key value = record { key = key; value = value } ∷ []
bucket_add_or_update (m ∷ ms) key value =
    if m.key == key then record m { value = value } ∷ ms else m ∷ bucket_add_or_update ms key value

abbrev pub Table : Type 0
Table = List Bucket

pub new_table : ℕ → Table
new_table num_buckets = replicate num_buckets []

-- The index of a bucket, and the vector with another bucket at an index.
abbrev pub bucket_index : (ℕ → ℕ) → Table → ℕ → ℕ
bucket_index hasher t key = hasher key % length t

abbrev pub set_bucket : Table → ℕ → Bucket → Table
set_bucket [] i b = []
set_bucket (c ∷ cs) zero b = b ∷ cs
set_bucket (c ∷ cs) (suc i) b = c ∷ set_bucket cs i b

pub get_bucket : (ℕ → ℕ) → Table → ℕ → Option Bucket
get_bucket hasher t key = if length t == 0 then none else get_elem? t (bucket_index hasher t key)

pub value_for : (ℕ → ℕ) → Table → ℕ → ℕ → Option ℕ
value_for hasher t key default_value = do
  bucket ← get_bucket hasher t key
  some (bucket_value_for bucket key default_value)

pub add_or_update_mapping : (ℕ → ℕ) → Table → ℕ → ℕ → Option Table
add_or_update_mapping hasher t key value = do
  bucket ← get_bucket hasher t key
  some (set_bucket t (bucket_index hasher t key) (bucket_add_or_update bucket key value))

-- `threadsafe_unordered_map`: `operator[]` puts the default value, 0, under a key that is missing, and
-- gives the value. `value_for` returns a reference; for a missing key it refers to a temporary that is
-- gone, the fault `none`.
pub index : (ℕ → Option ℕ) → ℕ → ℕ × (ℕ → Option ℕ)
index m key = elim (m key) [ none ↦ (0, put m key (some 0)) | some v ↦ (v, m) ]

pub unordered_value_for : (ℕ → Option ℕ) → ℕ → Option ℕ
unordered_value_for m key = m key
