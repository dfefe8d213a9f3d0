-- ===== src/Logging/Stream/Examples.antt =====
-- The stream's theorems at a fresh stream, and a run.
use learn_for_cpp.Base.{ℕ, ◌≡◌, List, [], ◌∷◌, ◌++◌, some, length, arith, true}
use learn_for_cpp.Base.Int.{pos}
use learn_for_cpp.Logging.Stream.{
  FixedBuffer, Item, boolean, integer, text, pointer, put_all, new_stream,
}
use learn_for_cpp.Logging.Stream.Bounds.{IsValid, Shown, line, put_all-Shown}

abbrev values : List Item
values = text (97 ∷ []) ∷ boolean true ∷ integer (pos 7) ∷ pointer 255 ∷ []

new_stream-IsValid : IsValid new_stream
unfolding new_stream
new_stream-IsValid = omega arith

put_all-Shown_example :
    (b : FixedBuffer) × (ts : List ℕ) × (put_all new_stream values ≡ some b)
    × IsValid b
    × (length b.data_ ≡ length new_stream.data_)
    × Shown values ts
    × (line b ≡ line new_stream ++ ts)
put_all-Shown_example = put_all-Shown new_stream values new_stream-IsValid (omega arith)
