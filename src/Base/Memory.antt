-- ===== src/Base/Memory.antt =====
-- Bytes in an array: reading and writing a range, with a fault outside the array.
use Prim.Native.Nat.{ℕ, ◌+◌, ◌≤◌}
use mathlib.Core.Path.{◌≡◌, refl, ap}
use mathlib.Core.List.{List, [], ◌∷◌, ◌++◌}
use mathlib.Core.Option.{Option, none, some}
use native.Mathlib.Omega.{arith}
use learn_for_cpp.Base.Tests.{leb, le→leb, if◌then◌else◌}
use learn_for_cpp.Base.Lists.{length, take, drop, length-append, drop-drop}

-- The `n` bytes from index `i` on, for `std::string(p, n)` and the source range of `std::copy`.
unfoldable pub read_range : List ℕ → ℕ → ℕ → Option (List ℕ)
read_range xs i n = if leb (i + n) (length xs) then some (take n (drop i xs)) else none

-- `std::copy` of some bytes to index `i`.
unfoldable pub write_range : List ℕ → ℕ → List ℕ → Option (List ℕ)
write_range xs i d =
    if leb (i + length d) (length xs)
    then some (take i xs ++ (d ++ drop (i + length d) xs))
    else none

module _ {ℓ} {A : Type ℓ} where
  pub drop-append_length : (xs ys : List A) → drop (length xs) (xs ++ ys) ≡ ys
  drop-append_length [] ys = refl
  drop-append_length (x ∷ xs) ys = drop-append_length xs ys

  pub take-append_length : (xs ys : List A) → take (length xs) (xs ++ ys) ≡ xs
  take-append_length [] ys = refl
  take-append_length (x ∷ xs) ys = ap (λ r. x ∷ r) (take-append_length xs ys)

pub read_range-parts : (p c r : List ℕ) → read_range (p ++ (c ++ r)) (length p) (length c) ≡ some c
unfolding read_range
read_range-parts p c r = rw (
  le→leb (length p + length c) (length (p ++ (c ++ r)))
      (omega (arith, length-append p (c ++ r), length-append c r)),
  drop-append_length p (c ++ r),
  take-append_length c r,
)

pub write_range-parts :
    (x d y : List ℕ)
    → length d ≤ length y
    → write_range (x ++ y) (length x) d ≡ some (x ++ (d ++ drop (length d) y))
unfolding write_range
write_range-parts x d y h = rw (
  le→leb (length x + length d) (length (x ++ y)) (omega (arith, length-append x y)),
  take-append_length x y,
  ← drop-drop (length d) (length x) (x ++ y),
  drop-append_length x y,
)
