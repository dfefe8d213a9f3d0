-- ===== src/Buffer/Parts.antt =====
-- A valid buffer as three lists: the bytes before the reader index, the readable bytes, and the
-- bytes from the writer index on.
use learn_for_cpp.Base.{
  ℕ, ◌+◌, ◌-◌, ◌≤◌, ◌<◌, ◌^◌, ◌≡◌, sym, subst, ap, ◌∙◌, List, ◌++◌, length, take, drop, arith,
  length-append, length-take, length-drop, take-append-drop, drop-drop, take-append_length,
  drop-append_length,
}
use learn_for_cpp.Buffer.{Buffer}

-- The indices are in order and inside the vector, which is smaller than half the address space.
pub record IsValid (b : Buffer) : Type 0 where
  pub ordered : b.reader_index ≤ b.writer_index
  pub inside : b.writer_index ≤ length b.buffer
  pub small : length b.buffer < 2 ^ 63

-- The readable bytes.
abbrev pub content : Buffer → List ℕ
content b = take (b.writer_index - b.reader_index) (drop b.reader_index b.buffer)

abbrev pub of_parts : List ℕ → List ℕ → List ℕ → Buffer
of_parts p c r = record {
  buffer = p ++ (c ++ r);
  reader_index = length p;
  writer_index = length p + length c;
}

pub content-of_parts : (p c r : List ℕ) → content (of_parts p c r) ≡ c
content-of_parts p c r =
    let e : length p + length c - length p ≡ length c = omega arith in
    rw (e, drop-append_length p (c ++ r)) (take-append_length c r)

-- Every valid buffer has this form, with its content in the middle.
pub IsValid-parts :
    (b : Buffer) → IsValid b → (p : List ℕ) × (r : List ℕ) × (b ≡ of_parts p (content b) r)
IsValid-parts b v =
    (p, r, λ i. record { buffer = whole i; reader_index = first i; writer_index = second i })
  where
    p : List ℕ
    p = take b.reader_index b.buffer

    r : List ℕ
    r = drop b.writer_index b.buffer

    first : b.reader_index ≡ length p
    first = omega (arith, v, length-take b.reader_index b.buffer)

    second : b.writer_index ≡ length p + length (content b)
    second = omega (
      arith,
      v,
      length-take b.reader_index b.buffer,
      length-take (b.writer_index - b.reader_index) (drop b.reader_index b.buffer),
      length-drop b.reader_index b.buffer,
    )

    tail : r ≡ drop (b.writer_index - b.reader_index) (drop b.reader_index b.buffer)
    tail =
        ap (λ k. drop k b.buffer) (omega (arith, v))
        ∙ sym (drop-drop (b.writer_index - b.reader_index) b.reader_index b.buffer)

    whole : b.buffer ≡ p ++ (content b ++ r)
    whole = rw (
      tail,
      take-append-drop (b.writer_index - b.reader_index) (drop b.reader_index b.buffer),
      take-append-drop b.reader_index b.buffer,
    )

-- To prove something of a valid buffer, prove it of the three parts.
pub by_parts {ℓ} :
    (P : Buffer → Type ℓ)
    → ((p c r : List ℕ) → length p + length c + length r < 2 ^ 63 → P (of_parts p c r))
    → (b : Buffer) → IsValid b
    → P b
by_parts P f b v =
    let (p, r, e) = IsValid-parts b v in
    let size : length p + length (content b) + length r ≡ length b.buffer = omega (
      arith,
      ap (λ x. length x.buffer) e,
      length-append p (content b ++ r),
      length-append (content b) r,
    ) in
    subst P (sym e) (f p (content b) r (omega (arith, v)))
