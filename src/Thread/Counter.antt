-- ===== src/Thread/Counter.antt =====
-- `AtomicIntegerT` of thread/Atomic.h: an integer of `w` bits as its unsigned value, so that -1 is
-- `2 ^ w - 1`. Each operation has one access to the integer, a built-in of the compiler.
use learn_for_cpp.Base.{ℕ, ◌+◌, ◌-◌, ◌%◌, ◌^◌}

unfoldable pub new_counter : ℕ
new_counter = 0

-- The operations give what they return, and the new value.
unfoldable pub get : ℕ → ℕ
get value = value

unfoldable pub get_and_add : ℕ → ℕ → ℕ → ℕ × ℕ
get_and_add w value x = (value, (value + x) % 2 ^ w)

unfoldable pub add_and_get : ℕ → ℕ → ℕ → ℕ × ℕ
add_and_get w value x = let (old, value') = get_and_add w value x in ((old + x) % 2 ^ w, value')

unfoldable pub increment_and_get : ℕ → ℕ → ℕ × ℕ
increment_and_get w value = add_and_get w value 1

unfoldable pub add : ℕ → ℕ → ℕ → ℕ
add w value x = (get_and_add w value x).1

unfoldable pub increment : ℕ → ℕ → ℕ
increment w value = (increment_and_get w value).1

unfoldable pub decrement : ℕ → ℕ → ℕ
decrement w value = (get_and_add w value (2 ^ w - 1)).1

unfoldable pub decrement_and_get : ℕ → ℕ → ℕ × ℕ
decrement_and_get w value = get_and_add w value (2 ^ w - 1)

unfoldable pub get_and_set : ℕ → ℕ → ℕ → ℕ × ℕ
get_and_set w value new_value = (value, new_value)
