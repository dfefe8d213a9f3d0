-- ===== src/Buffer/Space.antt =====
-- The space of a valid buffer: moving the content, growing the vector.
use learn_for_cpp.Base.{
  ℕ, ◌+◌, ◌-◌, ◌≤◌, ◌<◌, ◌^◌, ◌≡◌, some, List, ◌++◌, length, take, drop, replicate, arith,
  append_assoc, length-append, length-take, length-drop, length-replicate, take_all, ltb,
  Bool-cases, inl, inr, read_range-parts, write_range,
}
use learn_for_cpp.Buffer.{
  Buffer, resize, readable_bytes, writable_bytes, prependable_bytes, compact, make_space,
  ensure_writable_bytes,
}
use learn_for_cpp.Buffer.Parts.{IsValid, of_parts}

pub readable_lem :
    (b : Buffer)
    → b.reader_index ≤ b.writer_index
    → b.writer_index < 2 ^ 64
    → readable_bytes b ≡ b.writer_index - b.reader_index
unfolding readable_bytes
readable_lem b h k = omega arith

pub writable_lem :
    (b : Buffer)
    → b.writer_index ≤ length b.buffer
    → length b.buffer < 2 ^ 64
    → writable_bytes b ≡ length b.buffer - b.writer_index
unfolding writable_bytes
writable_lem b h k = omega arith

pub of_parts-IsValid :
    (p c r : List ℕ) → length p + length c + length r < 2 ^ 63 → IsValid (of_parts p c r)
of_parts-IsValid p c r h = record {
  ordered = omega arith;
  inside = omega (arith, length-append p (c ++ r), length-append c r);
  small = omega (arith, length-append p (c ++ r), length-append c r);
}

pub length-of_parts : (p c r : List ℕ) → length (p ++ (c ++ r)) ≡ length p + length c + length r
length-of_parts p c r = omega (arith, length-append p (c ++ r), length-append c r)

module _ (p c r : List ℕ) (h : length p + length c + length r < 2 ^ 63) where
  pub readable-of_parts : readable_bytes (of_parts p c r) ≡ length c
  readable-of_parts = omega (arith, readable_lem (of_parts p c r))

  pub writable-of_parts : writable_bytes (of_parts p c r) ≡ length r
  writable-of_parts = omega (arith, length-of_parts p c r, writable_lem (of_parts p c r))

  -- Moving the content to index 8 gives the space before it to the end.
  compact-of_parts :
      8 < length p
      → (p' : List ℕ) × (r' : List ℕ) × (compact (of_parts p c r) ≡ some (of_parts p' c r'))
        × (length p' ≡ 8)
        × (length r' + 8 ≡ length p + length r)
  unfolding compact
  compact-of_parts k = (
    take 8 whole,
    drop (8 + length c) whole,
    done,
    len8,
    omega (arith, length-drop (8 + length c) whole, size),
  )
    where
      whole : List ℕ
      whole = p ++ (c ++ r)

      size : length whole ≡ length p + length c + length r
      size = length-of_parts p c r

      len8 : length (take 8 whole) ≡ 8
      len8 = omega (arith, length-take 8 whole, size)

      moved : write_range whole 8 c ≡ some (take 8 whole ++ (c ++ drop (8 + length c) whole))
      moved = unfold write_range in ground (arith, size)

      b' : Buffer
      b' = record {
        buffer = take 8 whole ++ (c ++ drop (8 + length c) whole);
        reader_index = 8;
        writer_index = 8 + length c;
      }

      done : compact (of_parts p c r) ≡ some (of_parts (take 8 whole) c (drop (8 + length c) whole))
      done = ground (arith, readable-of_parts, read_range-parts p c r, moved, len8, readable_lem b')

  -- Growing the vector.
  grow-of_parts :
      (n : ℕ)
      → length r < n
      → resize (p ++ (c ++ r)) (length p + length c + n)
        ≡ p ++ (c ++ (r ++ replicate (n - length r) 0))
  grow-of_parts n k =
      rw
        (
          take_all (length p + length c + n) (p ++ (c ++ r)) (omega (arith, length-of_parts p c r)),
          length-of_parts p c r,
          append_assoc,
          append_assoc,
        )
        same
    where
      gap : length p + length c + n - (length p + length c + length r) ≡ n - length r
      gap = omega arith

      same :
          p
            ++ (c
                ++ (r ++ replicate (length p + length c + n - (length p + length c + length r)) 0))
          ≡ p ++ (c ++ (r ++ replicate (n - length r) 0))
      same = rw gap

module _ (p c r : List ℕ) (n : ℕ) (h : length p + length c + length r < 2 ^ 63)
    (k : length p + length c + n + 8 < 2 ^ 63) where
  -- After `ensure_writable_bytes` there is room for `n` bytes behind the same content.
  pub ensure-of_parts :
      (p' : List ℕ) × (r' : List ℕ) × (ensure_writable_bytes (of_parts p c r) n
        ≡ some (of_parts p' c r'))
      × (n ≤ length r')
      × (length p' + length c + length r' < 2 ^ 63)
  unfolding ensure_writable_bytes make_space prependable_bytes
  ensure-of_parts = elim (Bool-cases (ltb (length r) n)) [
    | inr enough ↦ (p, r, ground (arith, writable-of_parts p c r h), ground arith, h)
    | inl short ↦ elim (Bool-cases (ltb (length r + length p) (n + 8))) [
      | inl grows ↦
          let r' : List ℕ = r ++ replicate (n - length r) 0 in
          let len : length r' ≡ n = ground (
            arith,
            length-append r (replicate (n - length r) 0),
            length-replicate {0} {A = ℕ} (n - length r) 0,
          ) in
          (
            p,
            r',
            ground (
              arith,
              writable-of_parts p c r h,
              grow-of_parts p c r h n,
              writable-of_parts p c r',
            ),
            omega arith,
            omega arith,
          )
      | inr moves ↦
          let (p', r', e, lp, lr) = compact-of_parts p c r h (ground arith) in
          (
            p',
            r',
            ground (arith, writable-of_parts p c r h, writable-of_parts p' c r'),
            ground arith,
            omega arith,
          )
    ]
  ]
