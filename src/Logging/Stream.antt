-- ===== src/Logging/Stream.antt =====
-- `FixedBuffer` and `LoggingStream` of logging/LoggingStream.h and .cc: the 4000 bytes in which a log
-- line is put together. A write outside `data_` is the fault `none`. `snprintf` for a `double` is the C
-- library's: its text is an argument. A `char`, a string and a `T` are the bytes that they append.
pub mod Bounds
mod Examples
use learn_for_cpp.Base.{
  ℕ, ◌+◌, ◌-◌, ◌%◌, ◌^◌, Bool, true, false, Option, none, some, List, [], ◌∷◌, ◌++◌, length,
  replicate, take, if◌then◌else◌, ◌>>=◌, ◌>>◌, write_range, read_range, ltb, assert,
}
use learn_for_cpp.Base.Int.{ℤ, pos, negsuc, sub_ℕ, ltb_ℤ}
use learn_for_cpp.Logging.Convert.{convert, convert_hex}

abbrev pub min_buffer_size : ℕ
min_buffer_size = 4000

abbrev pub max_numeric_size : ℕ
max_numeric_size = 32

-- `cur` is the offset of `cur_` from `data_`.
pub record FixedBuffer : Type 0 where
  pub data_ : List ℕ
  pub cur : ℕ

-- A pointer difference, so it has a sign.
abbrev pub avail : FixedBuffer → ℤ
avail b = sub_ℕ (length b.data_) b.cur

-- A `size_t` as an `int`: from 2 ^ 31 on it is negative, and from 2 ^ 32 on it starts again.
abbrev pub int_of : ℕ → ℤ
int_of n = if ltb (n % 2 ^ 32) (2 ^ 31) then pos (n % 2 ^ 32) else negsuc (2 ^ 32 - 1 - n % 2 ^ 32)

-- `memcpy` and the move of `cur_`. A negative length is a huge `size_t` for `memcpy`, which then writes
-- outside the bytes.
abbrev pub copy : FixedBuffer → List ℕ → ℤ → Option FixedBuffer
copy b buf (pos n) = do
  text ← read_range buf 0 n
  bytes ← write_range b.data_ b.cur text
  some (record { data_ = bytes; cur = b.cur + n })
copy b buf (negsuc n) = none

unfoldable pub append : FixedBuffer → List ℕ → ℤ → Option FixedBuffer
append b buf len = if ltb_ℤ len (avail b) then copy b buf len else some b

abbrev pub add : FixedBuffer → ℕ → FixedBuffer
add b len = record b { cur = b.cur + len }

unfoldable pub reset : FixedBuffer → FixedBuffer
reset b = record b { cur = 0 }

-- `tostring`: the bytes before `cur_`.
unfoldable pub to_string : FixedBuffer → Option (List ℕ)
to_string b = read_range b.data_ 0 b.cur

-- The constructor of `LoggingStream` zeroes its buffer.
unfoldable pub new_stream : FixedBuffer
new_stream = record { data_ = replicate min_buffer_size 0; cur = 0 }

-- A text and the zero byte behind it are written at `current()`, and `cur_` moves by the text.
pub write_number : FixedBuffer → List ℕ → Option FixedBuffer
write_number b text = do
  bytes ← write_range b.data_ b.cur (text ++ (0 ∷ []))
  some (add (record b { data_ = bytes }) (length text))

-- `avail() >= kMaxNumericSize`.
abbrev pub has_numeric_room : FixedBuffer → Bool
has_numeric_room b = ltb_ℤ (pos 31) (avail b)

pub format_integer : FixedBuffer → ℤ → Option FixedBuffer
format_integer b v =
    if has_numeric_room b then (do text ← convert v; write_number b text) else some b

pub put_pointer : FixedBuffer → ℕ → Option FixedBuffer
put_pointer b v =
    if has_numeric_room b
    then (do text ← convert_hex v; write_number b (48 ∷ 120 ∷ text))
    else some b

-- The overload for `double`; `text` is what `snprintf` makes of the value.
pub put_double : FixedBuffer → List ℕ → Option FixedBuffer
put_double b text = if has_numeric_room b then write_number b text else some b

-- The values that `operator<<` is overloaded for.
pub data Item : Type 0 where
  boolean : Bool → Item
  character : ℕ → Item
  integer : ℤ → Item
  real : List ℕ → Item
  text : List ℕ → Item
  pointer : ℕ → Item

-- `operator<<`.
pub put : FixedBuffer → Item → Option FixedBuffer
put b (boolean v) = append b (if v then 49 ∷ [] else 48 ∷ []) (pos 1)
put b (character v) = append b (v ∷ []) (pos 1)
put b (integer v) = format_integer b v
put b (real v) = put_double b v
put b (text v) = append b v (int_of (length v))
put b (pointer v) = put_pointer b v

-- A chain `s << a << b << …`.
unfoldable pub put_all : FixedBuffer → List Item → Option FixedBuffer
put_all b [] = some b
put_all b (i ∷ is) = do b' ← put b i; put_all b' is

-- A `Fmt` from the text that `snprintf` makes: the assertion that its 32 bytes were enough.
pub make_fmt : List ℕ → Option (List ℕ)
make_fmt bytes = do assert (ltb (length bytes) 32); some bytes

-- `operator<<` of a `Fmt`.
pub put_fmt : FixedBuffer → List ℕ → Option FixedBuffer
put_fmt b bytes = do fmt ← make_fmt bytes; append b fmt (int_of (length fmt))
