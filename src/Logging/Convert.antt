-- ===== src/Logging/Convert.antt =====
-- `convert` and `convertHex` of logging/LoggingStream.cc: digits are taken off at the low end through
-- a table, and the text is reversed. The fuel of a loop is the largest number of digits of a 64-bit
-- word; running out of it is the fault `none`.
pub mod Value
mod Examples
use learn_for_cpp.Base.{
  ℕ, zero, suc, ◌+◌, ◌/◌, ◌%◌, Bool, true, false, Option, none, some, List, [], ◌∷◌, ◌++◌, reverse,
  get_elem?, ◌==◌, if◌then◌else◌, ◌>>=◌, ◌>>◌,
}
use learn_for_cpp.Base.Int.{ℤ, pos, negsuc, ◌+ℤ◌}

-- `digits`, the bytes of "9876543210123456789".
abbrev pub digits : List ℕ
digits =
    57 ∷ 56 ∷ 55 ∷ 54 ∷ 53 ∷ 52 ∷ 51 ∷ 50 ∷ 49 ∷ 48 ∷ 49 ∷ 50 ∷ 51 ∷ 52 ∷ 53 ∷ 54 ∷ 55 ∷ 56 ∷ 57
    ∷ []

-- `digitsHex`, the bytes of "0123456789abcdef".
abbrev pub digits_hex : List ℕ
digits_hex = 48 ∷ 49 ∷ 50 ∷ 51 ∷ 52 ∷ 53 ∷ 54 ∷ 55 ∷ 56 ∷ 57 ∷ 97 ∷ 98 ∷ 99 ∷ 100 ∷ 101 ∷ 102 ∷ []

-- `zero[i]`, where `zero` points at the tenth byte of `digits`.
pub zero_at : ℤ → Option ℕ
unfolding ◌+ℤ◌
zero_at i = elim (pos 9 +ℤ i) [ pos k ↦ get_elem? digits k | negsuc k ↦ none ]

abbrev pub neg : ℕ → ℤ
neg zero = pos 0
neg (suc n) = negsuc n

-- `i / 10` and `i % 10` round towards 0.
abbrev pub quot10 : ℤ → ℤ
quot10 (pos n) = pos (n / 10)
quot10 (negsuc n) = neg (suc n / 10)

abbrev pub rem10 : ℤ → ℤ
rem10 (pos n) = pos (n % 10)
rem10 (negsuc n) = neg (suc n % 10)

abbrev pub is_zero : ℤ → Bool
is_zero (pos n) = n == 0
is_zero (negsuc n) = false

abbrev pub is_negative : ℤ → Bool
is_negative (pos n) = false
is_negative (negsuc n) = true

-- The `do` loop, lowest digit first.
pub convert_loop : ℕ → ℤ → Option (List ℕ)
convert_loop zero i = none
convert_loop (suc fuel) i =
    let rest = convert_loop fuel (quot10 i) in
    do
      digit ← zero_at (rem10 i)
      digits ← (if is_zero (quot10 i) then some [] else rest)
      some (digit ∷ digits)

abbrev pub max_digits : ℕ
max_digits = 20

-- The bytes that `convert` leaves in `buf`, without the zero byte behind them.
pub convert : ℤ → Option (List ℕ)
convert v = do
  digits ← convert_loop max_digits v
  some (reverse (digits ++ (if is_negative v then 45 ∷ [] else [])))

pub convert_hex_loop : ℕ → ℕ → Option (List ℕ)
convert_hex_loop zero i = none
convert_hex_loop (suc fuel) i =
    let rest = convert_hex_loop fuel (i / 16) in
    do
      digit ← get_elem? digits_hex (i % 16)
      digits ← (if i / 16 == 0 then some [] else rest)
      some (digit ∷ digits)

abbrev pub max_hex_digits : ℕ
max_hex_digits = 16

pub convert_hex : ℕ → Option (List ℕ)
convert_hex value = do digits ← convert_hex_loop max_hex_digits value; some (reverse digits)
