-- ===== src/Buffer/Growth.antt =====
-- Where the reader index stands after reading: where it stood, or at the eighth byte.
use learn_for_cpp.Base.{
  ℕ, ◌≡◌, ◌⊎◌, Option, some, List, arith, inl, inr, Bool-cases, Option-cases, leb, ltb, length,
  drop, take, write_range,
}
use learn_for_cpp.Buffer.{
  Buffer, Readv, failed, got, compact, make_space, ensure_writable_bytes, append, has_written,
  read_fd, retrieve_as_string, retrieve_all, writable_bytes,
}

abbrev pub IsNear : Buffer → Buffer → Type 0
IsNear b b' = (b'.reader_index ≡ b.reader_index) ⊎ (b'.reader_index ≡ 8)

make_space-IsNear : (b b' : Buffer) (len : ℕ) → make_space b len ≡ some b' → IsNear b b'
unfolding make_space compact
make_space-IsNear b b' len e = ground (arith, e)

ensure-IsNear : (b b' : Buffer) (len : ℕ) → ensure_writable_bytes b len ≡ some b' → IsNear b b'
unfolding ensure_writable_bytes
ensure-IsNear b b' len e = elim (Bool-cases (ltb (writable_bytes b) len)) [
  | inr fits ↦ let same : b ≡ b' = ground (arith, e, fits) in inl (ground (arith, same))
  | inl wants ↦ make_space-IsNear b b' len (ground (arith, e, wants))
]

append-IsNear : (b b' : Buffer) (d : List ℕ) → append b d ≡ some b' → IsNear b b'
unfolding append has_written
append-IsNear b b' d e = elim (Option-cases (ensure_writable_bytes b (length d))) [
  | inl bad ↦ ground (arith, e, bad)
  | inr (c, r) ↦ ground (arith, ensure-IsNear b c (length d) r, e, r)
]

pub read_fd-IsNear :
    (b b' : Buffer) (r : Readv) (errno : Option ℕ) → read_fd b r ≡ some (b', errno) → IsNear b b'
unfolding read_fd
read_fd-IsNear b b' (failed n) errno e = ground (arith, e)
read_fd-IsNear b b' (got bytes) errno e =
    elim (Option-cases (write_range b.buffer b.writer_index (take (writable_bytes b) bytes))) [
      | inl bad ↦ ground (arith, e, bad)
      | inr (filled, f) ↦ elim (Bool-cases (leb (length bytes) (writable_bytes b))) [
        | inl fits ↦ ground (arith, e, f, fits)
        | inr more ↦
            let b1 : Buffer = record b { buffer = filled; writer_index = length filled } in
            elim (Option-cases (append b1 (drop (writable_bytes b) bytes))) [
              | inl bad ↦ ground (arith, e, f, more, bad)
              | inr (c, r) ↦
                  let near : IsNear b1 c = append-IsNear b1 c (drop (writable_bytes b) bytes) r in
                  let same : c ≡ b' = ground (arith, e, f, more, r) in ground (arith, near, same)
            ]
      ]
    ]

pub retrieve_as_string-near :
    (b b' : Buffer) (s : List ℕ) → retrieve_as_string b ≡ some (s, b') → b'.reader_index ≡ 8
unfolding retrieve_as_string retrieve_all
retrieve_as_string-near b b' s e = ground (arith, e)
