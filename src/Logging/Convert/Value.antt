-- ===== src/Logging/Convert/Value.antt =====
-- The texts of `convert` and `convertHex` denote the numbers that they were made from.
use learn_for_cpp.Base.{
  ℕ, zero, suc, ◌+◌, ◌-◌, ◌*◌, ◌/◌, ◌%◌, ◌^◌, ◌≤◌, ◌<◌, ◌≡◌, ◌≢◌, refl, ap, ◌∙◌, some, List, [],
  ◌∷◌, ◌++◌, reverse, get_elem?, All, ◌==◌, leb, if◌then◌else◌, length, inl, inr, Bool-cases,
  length-append, append-nil, arith,
}
use learn_for_cpp.Base.Int.{ℤ, pos, negsuc}
use learn_for_cpp.Logging.Convert.{
  zero_at, digits_hex, neg, quot10, rem10, is_zero, convert_loop, convert, convert_hex_loop,
  convert_hex,
}
use native.Mathlib.Nat.{pow-suc, pow-zero}
use mathlib.Core.List.{reverse-cons, reverse-append}

-- The number that a text of decimal digits denotes, read from the left.
abbrev pub decimal : ℕ → List ℕ → ℕ
decimal acc [] = acc
decimal acc (c ∷ cs) = decimal (acc * 10 + (c - 48)) cs

-- The integer that a text denotes: a minus sign may stand first.
abbrev pub signed_decimal : List ℕ → ℤ
signed_decimal [] = pos 0
signed_decimal (c ∷ cs) = if c == 45 then neg (decimal 0 cs) else pos (decimal 0 (c ∷ cs))

-- The table has every digit, whichever side of `zero` it is looked up.
zero_at-pos : (k : ℕ) → k < 10 → zero_at (pos k) ≡ some (48 + k)
unfolding zero_at
zero_at-pos zero h = refl
zero_at-pos (suc zero) h = refl
zero_at-pos (suc (suc zero)) h = refl
zero_at-pos (suc (suc (suc zero))) h = refl
zero_at-pos (suc (suc (suc (suc zero)))) h = refl
zero_at-pos (suc (suc (suc (suc (suc zero))))) h = refl
zero_at-pos (suc (suc (suc (suc (suc (suc zero)))))) h = refl
zero_at-pos (suc (suc (suc (suc (suc (suc (suc zero))))))) h = refl
zero_at-pos (suc (suc (suc (suc (suc (suc (suc (suc zero)))))))) h = refl
zero_at-pos (suc (suc (suc (suc (suc (suc (suc (suc (suc zero))))))))) h = refl
zero_at-pos (suc (suc (suc (suc (suc (suc (suc (suc (suc (suc k)))))))))) h = absurd (omega arith)

zero_at-neg : (k : ℕ) → k < 10 → zero_at (neg k) ≡ some (48 + k)
unfolding zero_at
zero_at-neg zero h = refl
zero_at-neg (suc zero) h = refl
zero_at-neg (suc (suc zero)) h = refl
zero_at-neg (suc (suc (suc zero))) h = refl
zero_at-neg (suc (suc (suc (suc zero)))) h = refl
zero_at-neg (suc (suc (suc (suc (suc zero))))) h = refl
zero_at-neg (suc (suc (suc (suc (suc (suc zero)))))) h = refl
zero_at-neg (suc (suc (suc (suc (suc (suc (suc zero))))))) h = refl
zero_at-neg (suc (suc (suc (suc (suc (suc (suc (suc zero)))))))) h = refl
zero_at-neg (suc (suc (suc (suc (suc (suc (suc (suc (suc zero))))))))) h = refl
zero_at-neg (suc (suc (suc (suc (suc (suc (suc (suc (suc (suc k)))))))))) h = absurd (omega arith)

quot10-neg : (n : ℕ) → quot10 (neg n) ≡ neg (n / 10)
quot10-neg zero = refl
quot10-neg (suc n) = refl

rem10-neg : (n : ℕ) → rem10 (neg n) ≡ neg (n % 10)
rem10-neg zero = refl
rem10-neg (suc n) = refl

is_zero-neg : (n : ℕ) → is_zero (neg n) ≡ (n == 0)
is_zero-neg zero = refl
is_zero-neg (suc n) = ground arith

-- The number that digits denote, lowest first.
abbrev low_value : List ℕ → ℕ
low_value [] = 0
low_value (c ∷ cs) = c - 48 + 10 * low_value cs

abbrev AreDigits : List ℕ → Type 0
AreDigits = All (λ c. (48 ≤ c) × (c ≤ 57))

fuel_left : (base fuel n : ℕ) → n < base ^ fuel → n ≢ 0 → 0 < fuel
fuel_left base zero n h k = absurd (k (omega (arith, pow-zero base)))
fuel_left base (suc fuel) n h k = omega arith

-- What the loop leaves for `n`, and for `-n`.
record Converted (fuel n : ℕ) : Type 0 where
  text : List ℕ
  from_pos : convert_loop fuel (pos n) ≡ some text
  from_neg : convert_loop fuel (neg n) ≡ some text
  denotes : low_value text ≡ n
  are_digits : AreDigits text
  short : length text ≤ fuel

convert_loop-Converted : (fuel n : ℕ) → n < 10 ^ fuel → 0 < fuel → Converted fuel n
unfolding convert_loop
convert_loop-Converted zero n h k = absurd (omega arith)
convert_loop-Converted (suc fuel) n h k = elim (Bool-cases (n / 10 == 0)) [
  | inl stops ↦ record {
    text = (48 + n % 10) ∷ [];
    from_pos = ground (arith, zero_at-pos (n % 10));
    from_neg = rw (
      quot10-neg n,
      rem10-neg n,
      is_zero-neg (n / 10),
      stops,
      zero_at-neg (n % 10) (omega arith),
    );
    denotes = ground arith;
    are_digits = omega arith;
    short = omega arith;
  }
  | inr goes_on ↦
      let left : n / 10 < 10 ^ fuel = omega (arith, pow-suc 10 fuel) in
      let rest : Converted fuel (n / 10) =
        convert_loop-Converted fuel (n / 10) left
          (fuel_left 10 fuel (n / 10) left (ground arith)) in
      record {
        text = (48 + n % 10) ∷ rest.text;
        from_pos = ground (arith, goes_on, zero_at-pos (n % 10), rest.from_pos);
        from_neg = rw (
          quot10-neg n,
          rem10-neg n,
          is_zero-neg (n / 10),
          goes_on,
          zero_at-neg (n % 10) (omega arith),
          rest.from_neg,
        );
        denotes = omega (arith, rest.denotes);
        are_digits = (omega arith, rest.are_digits);
        short = omega (arith, rest.short);
      }
]

decimal-append :
    (acc c : ℕ) (xs : List ℕ) → decimal acc (xs ++ (c ∷ [])) ≡ decimal acc xs * 10 + (c - 48)
decimal-append acc c [] = refl
decimal-append acc c (x ∷ xs) = decimal-append (acc * 10 + (x - 48)) c xs

decimal-reverse : (xs : List ℕ) → decimal 0 (reverse xs) ≡ low_value xs
decimal-reverse [] = refl
decimal-reverse (x ∷ xs) =
    rw (reverse-cons x xs, decimal-append 0 x (reverse xs), decimal-reverse xs) (omega arith)

module _ {κ} (P : ℕ → Type κ) where
  All-append : (xs ys : List ℕ) → All P xs → All P ys → All P (xs ++ ys)
  All-append [] ys h k = k
  All-append (x ∷ xs) ys h k = (h.0, All-append xs ys h.1 k)

  All-reverse : (xs : List ℕ) → All P xs → All P (reverse xs)
  All-reverse [] h = h
  All-reverse (x ∷ xs) h =
      rw (reverse-cons x xs) (All-append (reverse xs) (x ∷ []) (All-reverse xs h.1) (h.0, tt))

length-reverse : (xs : List ℕ) → length (reverse xs) ≡ length xs
length-reverse [] = refl
length-reverse (x ∷ xs) =
    rw (reverse-cons x xs, length-append (reverse xs) (x ∷ []), length-reverse xs) (omega arith)

signed_decimal-digits : (xs : List ℕ) → AreDigits xs → signed_decimal xs ≡ pos (decimal 0 xs)
signed_decimal-digits [] h = refl
signed_decimal-digits (c ∷ cs) h = ground arith

abbrev pub magnitude : ℤ → ℕ
magnitude (pos n) = n
magnitude (negsuc n) = suc n

-- Every integer of at most twenty digits, so every value of the source's integer types, is converted:
-- the loop ends, no digit is looked up outside the table, the text read as a decimal number with a
-- sign is the integer again, and it takes at most 21 bytes.
pub signed_decimal-convert :
    (v : ℤ)
    → magnitude v < 10 ^ 20
    → (t : List ℕ) × (convert v ≡ some t) × (signed_decimal t ≡ v) × (length t ≤ 21)
unfolding convert
signed_decimal-convert (pos n) h =
    let c : Converted 20 n = convert_loop-Converted 20 n h (omega arith) in
    (
      reverse (c.text ++ []),
      rw (c.from_pos),
      rw (append-nil c.text) (
          signed_decimal-digits (reverse c.text) (All-reverse _ c.text c.are_digits)
          ∙ ap pos (decimal-reverse c.text ∙ c.denotes)),
      rw (append-nil c.text) (omega (arith, length-reverse c.text, c.short)),
    )
signed_decimal-convert (negsuc n) h =
    let c : Converted 20 (suc n) = convert_loop-Converted 20 (suc n) h (omega arith) in
    (
      reverse (c.text ++ (45 ∷ [])),
      rw (c.from_neg),
      rw (reverse-append c.text (45 ∷ [])) (ap neg (decimal-reverse c.text ∙ c.denotes)),
      rw (reverse-append c.text (45 ∷ [])) (omega (arith, length-reverse c.text, c.short)),
    )

-- The number that a text of hexadecimal digits in lower case denotes, read from the left.
abbrev pub hexadecimal : ℕ → List ℕ → ℕ
hexadecimal acc [] = acc
hexadecimal acc (c ∷ cs) = hexadecimal (acc * 16 + (if leb c 57 then c - 48 else c - 87)) cs

abbrev hex_digit : ℕ → ℕ
hex_digit k = if leb k 9 then 48 + k else 87 + k

digits_hex-get : (k : ℕ) → k < 16 → get_elem? digits_hex k ≡ some (hex_digit k)
digits_hex-get zero h = refl
digits_hex-get (suc zero) h = refl
digits_hex-get (suc (suc zero)) h = refl
digits_hex-get (suc (suc (suc zero))) h = refl
digits_hex-get (suc (suc (suc (suc zero)))) h = refl
digits_hex-get (suc (suc (suc (suc (suc zero))))) h = refl
digits_hex-get (suc (suc (suc (suc (suc (suc zero)))))) h = refl
digits_hex-get (suc (suc (suc (suc (suc (suc (suc zero))))))) h = refl
digits_hex-get (suc (suc (suc (suc (suc (suc (suc (suc zero)))))))) h = refl
digits_hex-get (suc (suc (suc (suc (suc (suc (suc (suc (suc zero))))))))) h = refl
digits_hex-get (suc (suc (suc (suc (suc (suc (suc (suc (suc (suc zero)))))))))) h = refl
digits_hex-get (suc (suc (suc (suc (suc (suc (suc (suc (suc (suc (suc zero))))))))))) h = refl
digits_hex-get (suc (suc (suc (suc (suc (suc (suc (suc (suc (suc (suc (suc zero)))))))))))) h = refl
digits_hex-get (suc (suc (suc (suc (suc (suc (suc (suc (suc (suc (suc (suc (suc zero)))))))))))))
      h =
    refl
digits_hex-get
      (suc (suc (suc (suc (suc (suc (suc (suc (suc (suc (suc (suc (suc (suc zero)))))))))))))) h =
    refl
digits_hex-get
      (suc (suc (suc (suc (suc (suc (suc (suc (suc (suc (suc (suc (suc (suc (suc zero)))))))))))))))
      h =
    refl
digits_hex-get
      (suc
        (suc (suc (suc (suc (suc (suc (suc (suc (suc (suc (suc (suc (suc (suc (suc k))))))))))))))))
      h =
    absurd (omega arith)

low_hex : List ℕ → ℕ
low_hex [] = 0
low_hex (c ∷ cs) = (if leb c 57 then c - 48 else c - 87) + 16 * low_hex cs

hexadecimal-append :
    (acc c : ℕ) (xs : List ℕ)
    → hexadecimal acc (xs ++ (c ∷ []))
      ≡ hexadecimal acc xs * 16 + (if leb c 57 then c - 48 else c - 87)
hexadecimal-append acc c [] = refl
hexadecimal-append acc c (x ∷ xs) =
    hexadecimal-append (acc * 16 + (if leb x 57 then x - 48 else x - 87)) c xs

hexadecimal-reverse : (xs : List ℕ) → hexadecimal 0 (reverse xs) ≡ low_hex xs
unfolding low_hex
hexadecimal-reverse [] = refl
hexadecimal-reverse (x ∷ xs) =
    rw (reverse-cons x xs, hexadecimal-append 0 x (reverse xs), hexadecimal-reverse xs)
      (ground arith)

convert_hex_loop_lem :
    (fuel n : ℕ)
    → n < 16 ^ fuel
    → 0 < fuel
    → (t : List ℕ) × (convert_hex_loop fuel n ≡ some t) × (low_hex t ≡ n) × (length t ≤ fuel)
unfolding convert_hex_loop low_hex
convert_hex_loop_lem zero n h k = absurd (omega arith)
convert_hex_loop_lem (suc fuel) n h k = elim (Bool-cases (n / 16 == 0)) [
  | inl stops ↦
      (hex_digit (n % 16) ∷ [], ground (arith, digits_hex-get (n % 16)), ground arith, omega arith)
  | inr goes_on ↦
      let left : n / 16 < 16 ^ fuel = omega (arith, pow-suc 16 fuel) in
      let (t, e, d, l) =
        convert_hex_loop_lem fuel (n / 16) left (fuel_left 16 fuel (n / 16) left (ground arith)) in
      (
        hex_digit (n % 16) ∷ t,
        ground (arith, goes_on, digits_hex-get (n % 16), e),
        ground (arith, d),
        omega (arith, l),
      )
]

-- Every 64-bit word is converted to at most sixteen hexadecimal digits that denote it.
pub hexadecimal-convert_hex :
    (value : ℕ)
    → value < 2 ^ 64
    → (t : List ℕ) × (convert_hex value ≡ some t) × (hexadecimal 0 t ≡ value) × (length t ≤ 16)
unfolding convert_hex
hexadecimal-convert_hex value h =
    let (t, e, d, l) = convert_hex_loop_lem 16 value h (omega arith) in
    (reverse t, rw e, hexadecimal-reverse t ∙ d, omega (arith, length-reverse t))
