-- ===== src/Logging/Logger/Lines.antt =====
-- What a line of the log looks like.
use learn_for_cpp.Base.{
  ℕ, ◌^◌, ◌≤◌, ◌≡◌, ◌≢◌, ◌<◌, ◌⊎◌, List, [], ◌∷◌, ◌++◌, length, ◌==◌, if◌then◌else◌,
}
use learn_for_cpp.Base.Int.{pos}
use learn_for_cpp.Logging.Stream.{FixedBuffer, Item, text, integer, new_stream}
use learn_for_cpp.Logging.Stream.Bounds.{line}
use learn_for_cpp.Logging.Logger.{
  LogLevel, Cache, Context, Macro, level_name, errno_of, func_items, errno_items, base_name,
}
use learn_for_cpp.Logging.Logger.Growth.{Grown}

-- The time of this second, put together now or before in the same second.
abbrev pub time_of : Cache → Context → List ℕ
time_of t c = if c.second == t.last_second then t.time else c.time

-- The texts that the C library makes have the lengths that the source asserts.
pub record AreFormatted (t : Cache) (c : Context) : Type 0 where
  pub time : length (time_of t c) ≡ 20
  pub us : length c.us ≡ 10
  pub tid : length c.tid ≡ 9

-- The one length that is not the asserted one.
abbrev pub IsMisformatted : Cache → Context → Type 0
IsMisformatted t c = ((length (time_of t c) ≢ 20) ⊎ (length c.us ≢ 10)) ⊎ (length c.tid ≢ 9)

-- The numbers are numbers of 64 bits, and no text has 2 ^ 31 bytes.
pub record AreSmall (c : Context) : Type 0 where
  pub errno : c.errno ≤ 2 ^ 64
  pub line : c.line ≤ 2 ^ 64
  pub error_text : length c.error_text < 2 ^ 31
  pub func : length c.func < 2 ^ 31
  pub file : length c.file < 2 ^ 31

-- The beginning of each line, which is never left out.
abbrev pub head_of : Cache → Context → LogLevel → List ℕ
head_of t c level = (time_of t c ++ c.us) ++ (c.tid ++ level_name level)

-- The values behind the beginning.
abbrev IsHeaded : Cache → Context → LogLevel → FixedBuffer → List ℕ → Type 0
IsHeaded t c level s ts = Grown new_stream s (head_of t c level ++ ts)

-- The place in the source, and the end of the line.
abbrev pub place_items : List ℕ → ℕ → List Item
place_items name n =
    text (b'-' ∷ []) ∷ text name ∷ text (b':' ∷ []) ∷ integer (pos n) ∷ text (10 ∷ []) ∷ []

-- All values of a line, in their order.
abbrev pub all_items : Macro → Context → List Item → List Item
all_items m c items =
    (errno_items c (errno_of m c) ++ (func_items m c ++ items))
    ++ place_items (base_name c.file) c.line
