-- ===== src/Buffer/Examples.antt =====
-- The buffer's theorems at small buffers, and runs of its operations.
use learn_for_cpp.Base.{◌<◌, ◌≡◌, refl, some, none, [], ◌∷◌, length, arith, read_range, write_range}
use learn_for_cpp.Buffer.{
  Buffer, got, readable_bytes, writable_bytes, prependable_bytes, has_written, compact, make_space,
  ensure_writable_bytes, append, shrink, read_fd,
}
use learn_for_cpp.Buffer.Parts.{IsValid, content}
use learn_for_cpp.Buffer.Content.{content-append}
use learn_for_cpp.Buffer.ReadFd.{content-read_fd, shrink-not-IsValid}

-- Ten bytes, of which the two at index 8 are readable.
abbrev full_buffer : Buffer
full_buffer = record {
  buffer = 0 ∷ 0 ∷ 0 ∷ 0 ∷ 0 ∷ 0 ∷ 0 ∷ 0 ∷ 65 ∷ 66 ∷ [];
  reader_index = 8;
  writer_index = 10;
}

-- Twelve bytes, of which the one at index 11 is readable.
abbrev late_buffer : Buffer
late_buffer = record {
  buffer = 0 ∷ 0 ∷ 0 ∷ 0 ∷ 0 ∷ 0 ∷ 0 ∷ 0 ∷ 0 ∷ 0 ∷ 0 ∷ 67 ∷ [];
  reader_index = 11;
  writer_index = 12;
}

full_buffer-IsValid : IsValid full_buffer
full_buffer-IsValid = omega arith

late_buffer-IsValid : IsValid late_buffer
late_buffer-IsValid = omega arith

-- The vector grows in the first run, and the content moves to index 8 in the second.
append_grows :
    append full_buffer (67 ∷ [])
    ≡ some (record {
      buffer = 0 ∷ 0 ∷ 0 ∷ 0 ∷ 0 ∷ 0 ∷ 0 ∷ 0 ∷ 65 ∷ 66 ∷ 67 ∷ [];
      reader_index = 8;
      writer_index = 11;
    })
unfolding append ensure_writable_bytes make_space compact write_range read_range readable_bytes
    writable_bytes prependable_bytes has_written
append_grows = refl

append_moves :
    append late_buffer (68 ∷ [])
    ≡ some (record {
      buffer = 0 ∷ 0 ∷ 0 ∷ 0 ∷ 0 ∷ 0 ∷ 0 ∷ 0 ∷ 67 ∷ 68 ∷ 0 ∷ 67 ∷ [];
      reader_index = 8;
      writer_index = 10;
    })
unfolding append ensure_writable_bytes make_space compact write_range read_range readable_bytes
    writable_bytes prependable_bytes has_written
append_moves = refl

content-append_example :
    (b : Buffer) × (append full_buffer (67 ∷ []) ≡ some b)
    × IsValid b
    × (content b ≡ 65 ∷ 66 ∷ 67 ∷ [])
content-append_example = content-append full_buffer full_buffer-IsValid (67 ∷ []) (omega arith)

content-read_fd_example :
    (b : Buffer) × (read_fd full_buffer (got (7 ∷ 8 ∷ [])) ≡ some (b, none))
    × IsValid b
    × (content b ≡ 65 ∷ 66 ∷ 7 ∷ 8 ∷ [])
content-read_fd_example =
    content-read_fd full_buffer full_buffer-IsValid (got (7 ∷ 8 ∷ [])) (omega arith)

shrink-not-IsValid_example :
    (b : Buffer) × (shrink late_buffer 0 ≡ some b) × (length b.buffer < b.writer_index)
shrink-not-IsValid_example =
    shrink-not-IsValid late_buffer late_buffer-IsValid 0 (omega arith) (omega arith)
