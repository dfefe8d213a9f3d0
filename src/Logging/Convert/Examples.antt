-- ===== src/Logging/Convert/Examples.antt =====
-- Conversions at a negative number and at an address.
use learn_for_cpp.Base.{ℕ, ◌≤◌, ◌≡◌, refl, List, [], ◌∷◌, some, length, arith}
use learn_for_cpp.Base.Int.{negsuc}
use learn_for_cpp.Logging.Convert.{convert, convert_loop, convert_hex, convert_hex_loop, zero_at}
use learn_for_cpp.Logging.Convert.Value.{signed_decimal, signed_decimal-convert}

signed_decimal-convert_example :
    (t : List ℕ) × (convert (negsuc 41) ≡ some t) × (signed_decimal t ≡ negsuc 41) × (length t ≤ 21)
signed_decimal-convert_example = signed_decimal-convert (negsuc 41) (omega arith)

-- "-42" and "0xff".
convert_runs : convert (negsuc 41) ≡ some (45 ∷ 52 ∷ 50 ∷ [])
unfolding convert convert_loop zero_at
convert_runs = refl

convert_hex_runs : convert_hex 255 ≡ some (102 ∷ 102 ∷ [])
unfolding convert_hex convert_hex_loop
convert_hex_runs = refl
