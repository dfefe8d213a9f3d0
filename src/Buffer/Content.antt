-- ===== src/Buffer/Content.antt =====
-- What the operations of a buffer do to its readable bytes, and that they fault nowhere else.
use learn_for_cpp.Base.{
  ℕ, ◌+◌, ◌-◌, ◌≤◌, ◌<◌, ◌^◌, ◌≡◌, sym, ap, refl, ◌∙◌, none, some, List, [], ◌++◌, length, take,
  drop, arith, append_assoc, length-append, length-take, length-drop, le→leb, leb→le, ◌⊎◌,
  drop-drop, drop-take, leb, Bool-cases, inl, inr, take-append-drop, write_range-parts, read_range,
  write_range, drop-append_length,
}
use learn_for_cpp.Buffer.{
  readable_bytes, Buffer, prependable_bytes, has_written, retrieve, retrieve_all,
  retrieve_as_string, append, prepend,
}
use learn_for_cpp.Buffer.Parts.{IsValid, by_parts, content, of_parts, content-of_parts}
use learn_for_cpp.Buffer.Space.{readable_lem, of_parts-IsValid, length-of_parts, ensure-of_parts}

pub append-of_parts :
    (p c r d : List ℕ)
    → length p + length c + length r < 2 ^ 63
    → length p + length c + length d + 8 < 2 ^ 63
    → (b' : Buffer) × (append (of_parts p c r) d ≡ some b') × IsValid b' × (content b' ≡ c ++ d)
unfolding append has_written
append-of_parts p c r d h k =
    let (p', r', e, room, small) = ensure-of_parts p c r (length d) h k in
    let rest : List ℕ = drop (length d) r' in
    (
      of_parts p' (c ++ d) rest,
      ground (
        arith,
        e,
        write_range-parts (p' ++ c) d r' room,
        append_assoc p' c r',
        append_assoc p' c (d ++ rest),
        append_assoc c d rest,
        length-append p' c,
        length-append c d,
      ),
      of_parts-IsValid p' (c ++ d) rest
          (omega (arith, length-append c d, length-drop (length d) r')),
      content-of_parts p' (c ++ d) rest,
    )

pub length-content : (b : Buffer) → IsValid b → length (content b) ≡ b.writer_index - b.reader_index
length-content b v = omega (
  arith,
  v,
  length-take (b.writer_index - b.reader_index) (drop b.reader_index b.buffer),
  length-drop b.reader_index b.buffer,
)

pub readable-content : (b : Buffer) → IsValid b → readable_bytes b ≡ length (content b)
readable-content b v = omega (arith, v, readable_lem b, length-content b v)

pub read_range-content :
    (b : Buffer)
    → IsValid b
    → read_range b.buffer b.reader_index (readable_bytes b) ≡ some (content b)
unfolding read_range
read_range-content b v = ground (arith, v, readable_lem b)

-- Appending to a valid buffer, whose vector stays below 2 ^ 63 bytes, passes every assertion and
-- stays inside the vector; the bytes come behind the old content, and the buffer is valid again.
pub content-append :
    (b : Buffer)
    → IsValid b
    → (d : List ℕ) → length b.buffer + length d + 8 < 2 ^ 63
    → (b' : Buffer) × (append b d ≡ some b') × IsValid b' × (content b' ≡ content b ++ d)
content-append =
    by_parts
      (λ b.
        (d : List ℕ)
        → length b.buffer + length d + 8 < 2 ^ 63
        → (b' : Buffer) × (append b d ≡ some b') × IsValid b' × (content b' ≡ content b ++ d))
      λ p c r h d k.
        let (b', e, v, eq) = append-of_parts p c r d h (omega (arith, length-of_parts p c r)) in
        (b', e, v, eq ∙ ap (λ x. x ++ d) (sym (content-of_parts p c r)))

-- `retrieve` drops exactly the first `len` readable bytes and keeps the buffer valid, or else fewer
-- are readable and its assertion fails.
pub content-retrieve :
    (b : Buffer)
    → IsValid b
    → (len : ℕ)
    → ((len ≤ length (content b))
        × (b' : Buffer) × (retrieve b len ≡ some b')
        × IsValid b'
        × (content b' ≡ drop len (content b)))
      ⊎ ((length (content b) < len) × (retrieve b len ≡ none))
unfolding retrieve
content-retrieve b v len = elim (Bool-cases (leb len (length (content b)))) [
  | inl enough ↦
      let n : ℕ = b.writer_index - b.reader_index in
      let b' : Buffer = record b { reader_index = b.reader_index + len } in
      let k : len ≤ n = omega (arith, leb→le len (length (content b)) enough, content-length) in
      inl (
        omega (arith, k, content-length),
        b',
        ground (arith, readable_lem b, v, k),
        omega (arith, v, k),
        ap (λ i. take i (drop (b.reader_index + len) b.buffer)) (omega arith)
            ∙ ap (λ xs. take (n - len) xs) (sym (drop-drop len b.reader_index b.buffer))
            ∙ sym (drop-take len n (drop b.reader_index b.buffer)),
      )
  | inr less ↦ inr (ground arith, ground (arith, readable_lem b, v, content-length))
]
  where
    content-length : length (content b) ≡ b.writer_index - b.reader_index
    content-length = length-content b v

-- `retrieveAsString` returns exactly the readable bytes and leaves an empty valid buffer, if the
-- vector has at least the eight bytes that the indices are reset to.
pub retrieve_as_string_lem :
    (b : Buffer)
    → IsValid b
    → 8 ≤ length b.buffer
    → (b' : Buffer) × (retrieve_as_string b ≡ some (content b, b')) × IsValid b' × (content b' ≡ [])
unfolding retrieve_as_string retrieve_all read_range
retrieve_as_string_lem b v k = (
  record b { reader_index = 8; writer_index = 8 },
  ground (arith, readable_lem b, v),
  omega (arith, v),
  refl,
)

prepend-of_parts :
    (p c r d : List ℕ)
    → length p + length c + length r < 2 ^ 63
    → length d ≤ length p
    → prepend (of_parts p c r) d ≡ some (of_parts (take (length p - length d) p) (d ++ c) r)
unfolding prepend prependable_bytes
prepend-of_parts p c r d h k =
    ground
      (arith, le→leb (length d) (length p) k, written, first, length-append d c, append_assoc d c r)
  where
    start : ℕ
    start = length p - length d

    first : length (take start p) ≡ start
    first = omega (arith, length-take start p)

    second : length (drop start p) ≡ length d
    second = omega (arith, length-drop start p)

    whole : p ++ (c ++ r) ≡ take start p ++ (drop start p ++ (c ++ r))
    whole = rw (← append_assoc (take start p) (drop start p) (c ++ r), take-append-drop start p)

    rest : drop (length d) (drop start p ++ (c ++ r)) ≡ c ++ r
    rest =
        ap (λ n. drop n (drop start p ++ (c ++ r))) (sym second)
        ∙ drop-append_length (drop start p) (c ++ r)

    written : write_range (p ++ (c ++ r)) start d ≡ some (take start p ++ (d ++ (c ++ r)))
    written = rw (whole) (
        ap (λ n. write_range (take start p ++ (drop start p ++ (c ++ r))) n d) (sym first)
        ∙ write_range-parts (take start p) d (drop start p ++ (c ++ r))
            (omega (arith, second, length-append (drop start p) (c ++ r)))
        ∙ ap (λ xs. some (take start p ++ (d ++ xs))) rest)

-- Prepending puts the bytes before the content, or else there is no room for them before the reader
-- index and the assertion fails.
pub content-prepend :
    (b : Buffer)
    → IsValid b
    → (d : List ℕ)
    → ((length d ≤ b.reader_index)
        × (b' : Buffer) × (prepend b d ≡ some b')
        × IsValid b'
        × (content b' ≡ d ++ content b))
      ⊎ ((b.reader_index < length d) × (prepend b d ≡ none))
content-prepend =
    by_parts
      (λ b.
        (d : List ℕ)
        → ((length d ≤ b.reader_index)
            × (b' : Buffer) × (prepend b d ≡ some b')
            × IsValid b'
            × (content b' ≡ d ++ content b))
          ⊎ ((b.reader_index < length d) × (prepend b d ≡ none)))
      λ p c r h d. elim (Bool-cases (leb (length d) (length p))) [
        | inl room ↦
            let k : length d ≤ length p = leb→le (length d) (length p) room in
            let front : List ℕ = take (length p - length d) p in
            inl (
              k,
              of_parts front (d ++ c) r,
              prepend-of_parts p c r d h k,
              of_parts-IsValid front (d ++ c) r
                  (omega (arith, length-take (length p - length d) p, length-append d c)),
              content-of_parts front (d ++ c) r ∙ ap (λ x. d ++ x) (sym (content-of_parts p c r)),
            )
        | inr full ↦ inr (ground arith, unfold prepend prependable_bytes in rw full)
      ]
