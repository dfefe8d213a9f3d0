-- ===== src/Buffer/ReadFd.antt =====
-- Reading from the socket into a buffer, and giving memory back.
use learn_for_cpp.Base.{
  ℕ, ◌+◌, ◌-◌, ◌≤◌, ◌<◌, ◌^◌, ◌≡◌, sym, ap, refl, ◌∙◌, Option, none, some, List, [], ◌++◌, length,
  take, drop, replicate, arith, append_assoc, append-nil, length-append, length-take, length-drop,
  length-replicate, take_all, drop_all, leb, leb→le, Bool-cases, inl, inr, take-append-drop,
  write_range-parts, read_range, write_range,
}
use learn_for_cpp.Buffer.{
  Buffer, Readv, failed, got, readable_bytes, writable_bytes, shrink, read_fd,
}
use learn_for_cpp.Buffer.Parts.{IsValid, by_parts, content, of_parts, content-of_parts}
use learn_for_cpp.Buffer.Space.{readable_lem, of_parts-IsValid, length-of_parts, writable-of_parts}
use learn_for_cpp.Buffer.Content.{append-of_parts, length-content}

-- What `readv` took from the socket, and the error number that it left.
abbrev pub received : Readv → List ℕ
received (failed e) = []
received (got bytes) = bytes

abbrev pub saved_errno : Readv → Option ℕ
saved_errno (failed e) = some e
saved_errno (got bytes) = none

-- Writing at the writer index, where the bytes fit.
fill-of_parts :
    (p c r d : List ℕ)
    → length d ≤ length r
    → write_range (p ++ (c ++ r)) (length p + length c) d
      ≡ some (p ++ ((c ++ d) ++ drop (length d) r))
fill-of_parts p c r d h = ground (
  arith,
  write_range-parts (p ++ c) d r h,
  append_assoc p c r,
  length-append p c,
  append_assoc p c (d ++ drop (length d) r),
  append_assoc c d (drop (length d) r),
)

read_fd-of_parts :
    (p c r bytes : List ℕ)
    → length p + length c + length r < 2 ^ 63
    → length p + length c + length r + length bytes + 8 < 2 ^ 63
    → (b' : Buffer) × (read_fd (of_parts p c r) (got bytes) ≡ some (b', none))
      × IsValid b'
      × (content b' ≡ c ++ bytes)
unfolding read_fd
read_fd-of_parts p c r bytes h k = elim (Bool-cases (leb (length bytes) (length r))) [
  | inl fits ↦
      let le : length bytes ≤ length r = leb→le (length bytes) (length r) fits in
      let all : take (length r) bytes ≡ bytes = take_all (length r) bytes le in
      (
        of_parts p (c ++ bytes) (drop (length bytes) r),
        ground (
          arith,
          writable-of_parts p c r h,
          all,
          fill-of_parts p c r bytes le,
          length-append c bytes,
        ),
        of_parts-IsValid p (c ++ bytes) (drop (length bytes) r)
            (omega (arith, length-append c bytes, length-drop (length bytes) r)),
        content-of_parts p (c ++ bytes) (drop (length bytes) r),
      )
  | inr spills ↦
      let first : List ℕ = take (length r) bytes in
      let len : length first ≡ length r = ground (arith, length-take (length r) bytes) in
      let rest : drop (length first) r ≡ [] = drop_all (length first) r (omega arith) in
      let (b', e, v, eq) =
        append-of_parts p (c ++ first) [] (drop (length r) bytes)
          (omega (arith, length-append c first))
          (omega (arith, length-append c first, length-drop (length r) bytes)) in
      (
        b',
        ground (
          arith,
          writable-of_parts p c r h,
          fill-of_parts p c r first,
          rest,
          e,
          length-append c first,
          length-of_parts p (c ++ first) [],
        ),
        v,
        eq
            ∙ append_assoc c first (drop (length r) bytes)
            ∙ ap (λ x. c ++ x) (take-append-drop (length r) bytes),
      )
]

-- `readFd` appends exactly the bytes that `readv` took, whichever side of the writable space they end,
-- and on an error leaves the content alone and reports the error number. No assertion fails.
pub content-read_fd :
    (b : Buffer)
    → IsValid b
    → (r : Readv) → length b.buffer + length (received r) + 8 < 2 ^ 63
    → (b' : Buffer) × (read_fd b r ≡ some (b', saved_errno r))
      × IsValid b'
      × (content b' ≡ content b ++ received r)
content-read_fd b v (failed e) h = (b, unfold read_fd in refl, v, sym (append-nil (content b)))
content-read_fd b v (got bytes) h =
    by_parts
      (λ b.
        length b.buffer + length bytes + 8 < 2 ^ 63
        → (b' : Buffer) × (read_fd b (got bytes) ≡ some (b', none))
          × IsValid b'
          × (content b' ≡ content b ++ bytes))
      (λ p c r small k.
        let (b', e, v', eq) =
          read_fd-of_parts p c r bytes small (omega (arith, length-of_parts p c r)) in
        (b', e, v', eq ∙ ap (λ x. x ++ bytes) (sym (content-of_parts p c r))))
      b v h

-- The vector that `shrink` makes: eight bytes, the content, and `reserve` bytes.
shrink_vector :
    (b : Buffer)
    → IsValid b
    → (reserve : ℕ) → 8 + length (content b) + reserve < 2 ^ 63
    → (front : List ℕ) × (back : List ℕ) × (shrink b reserve
        ≡ some (record b { buffer = front ++ (content b ++ back) }))
      × (length front ≡ 8)
      × (length back ≡ reserve)
unfolding shrink
shrink_vector b v reserve h = (
  take 8 zeros,
  drop (8 + length (content b)) zeros,
  ground (arith, v, readable, whole, read, written, size),
  omega (arith, length-take 8 zeros, size),
  omega (arith, length-drop (8 + length (content b)) zeros, size),
)
  where
    zeros : List ℕ
    zeros = replicate (8 + length (content b) + reserve) 0

    size : length zeros ≡ 8 + length (content b) + reserve
    size = length-replicate (8 + length (content b) + reserve) 0

    readable : readable_bytes b ≡ b.writer_index - b.reader_index
    readable = omega (arith, v, readable_lem b)

    whole : length (content b) ≡ b.writer_index - b.reader_index
    whole = length-content b v

    read : read_range b.buffer b.reader_index (b.writer_index - b.reader_index) ≡ some (content b)
    read = unfold read_range in ground (arith, v)

    written :
        write_range zeros 8 (content b)
        ≡ some (take 8 zeros ++ (content b ++ drop (8 + length (content b)) zeros))
    written = unfold write_range in ground (arith, size)

-- `shrink` on a buffer whose content starts at index 8 keeps the content and leaves a vector with
-- exactly `reserve` writable bytes.
pub content-shrink :
    (b : Buffer)
    → IsValid b
    → b.reader_index ≡ 8
    → (reserve : ℕ) → 8 + length (content b) + reserve < 2 ^ 63
    → (b' : Buffer) × (shrink b reserve ≡ some b')
      × IsValid b'
      × (content b' ≡ content b)
      × (writable_bytes b' ≡ reserve)
content-shrink b v at8 reserve h =
    let (front, back, e, len8, room) = shrink_vector b v reserve h in
    let small : length front + length (content b) + length back < 2 ^ 63 = omega arith in
    (
      of_parts front (content b) back,
      ground (arith, e, len8, v, length-content b v),
      of_parts-IsValid front (content b) back small,
      content-of_parts front (content b) back,
      writable-of_parts front (content b) back small ∙ room,
    )

-- The defect: on a valid buffer whose content starts further back than the space that `shrink` leaves
-- behind it, `shrink` returns a buffer whose writer index is outside the vector.
pub shrink-not-IsValid :
    (b : Buffer)
    → IsValid b
    → (reserve : ℕ) → 8 + length (content b) + reserve < 2 ^ 63
    → 8 + reserve < b.reader_index
    → (b' : Buffer) × (shrink b reserve ≡ some b') × (length b'.buffer < b'.writer_index)
shrink-not-IsValid b v reserve h far =
    let (front, back, e, len8, room) = shrink_vector b v reserve h in
    (
      record b { buffer = front ++ (content b ++ back) },
      e,
      omega (arith, v, length-of_parts front (content b) back, length-content b v),
    )
