-- ===== src/Logging/Stream/Bounds.antt =====
-- No value put into a stream writes outside its bytes, and each is put whole or left out.
use learn_for_cpp.Base.{
  ℕ, ◌+◌, ◌^◌, ◌≤◌, ◌<◌, ◌≡◌, ◌⊎◌, inl, inr, refl, sym, ap, ◌∙◌, true, false, Option, some, List,
  [], ◌∷◌, ◌++◌, length, take, drop, All, if◌then◌else◌, write_range, read_range, take_all, arith,
  Bool-cases, length-take, length-drop, length-append, append_assoc, append-nil, take-append_length,
}
use learn_for_cpp.Base.Int.{pos, ltb_ℤ}
use learn_for_cpp.Logging.Convert.Value.{
  magnitude, signed_decimal, signed_decimal-convert, hexadecimal, hexadecimal-convert_hex,
}
use learn_for_cpp.Logging.Stream.{
  int_of, put_fmt, make_fmt, FixedBuffer, avail, append, has_numeric_room, write_number,
  format_integer, put_pointer, put_double, Item, boolean, character, integer, real, text, pointer,
  put, put_all,
}

-- The text so far is inside the bytes.
abbrev pub IsValid : FixedBuffer → Type 0
IsValid b = b.cur ≤ length b.data_

-- The line so far.
abbrev pub line : FixedBuffer → List ℕ
line b = take b.cur b.data_

-- What a value may look like in the line: for a number, any text of at most 31 bytes that denotes it.
abbrev pub Shows : Item → List ℕ → Type 0
Shows (boolean v) t = t ≡ (if v then 49 ∷ [] else 48 ∷ [])
Shows (character v) t = t ≡ v ∷ []
Shows (integer v) t = signed_decimal t ≡ v
Shows (real v) t = t ≡ v
Shows (text v) t = t ≡ v
Shows (pointer v) t = (h : List ℕ) × (t ≡ 48 ∷ 120 ∷ h) × (hexadecimal 0 h ≡ v)

-- The values that the source's types and `snprintf` allow.
abbrev pub Fits : Item → Type 0
Fits (integer v) = magnitude v ≤ 2 ^ 64
Fits (real v) = length v < 32
Fits (text v) = length v < 2 ^ 31
Fits (pointer v) = v < 2 ^ 64
Fits _ = Unit

-- The values whose text is put only where 32 bytes are left.
abbrev pub room : Item → List ℕ → ℕ
room (integer v) t = 32
room (real v) t = 32
room (pointer v) t = 32
room _ t = length t + 1

-- The line after a step: the same line, or the line with `t` behind it.
record Extended (b b' : FixedBuffer) (t : List ℕ) : Type 0 where
  valid : IsValid b'
  size : length b'.data_ ≡ length b.data_
  ends : line b' ≡ line b ++ t

-- Writing a text at `cur`, with more bytes that count for nothing.
write-Extended :
    (b : FixedBuffer) (t more : List ℕ)
    → b.cur + length t + length more ≤ length b.data_
    → (bytes : List ℕ) × (write_range b.data_ b.cur (t ++ more) ≡ some bytes)
      × Extended b (record { data_ = bytes; cur = b.cur + length t }) t
write-Extended b t more h = (
  bytes,
  written,
  record {
    valid = omega (arith, size);
    size = size;
    ends =
        ap (λ n. take n bytes) at
        ∙ ap (take (length (line b ++ t))) seam
        ∙ take-append_length (line b ++ t) (more ++ rest);
  },
)
  where
    rest : List ℕ
    rest = drop (b.cur + length (t ++ more)) b.data_

    bytes : List ℕ
    bytes = take b.cur b.data_ ++ ((t ++ more) ++ rest)

    written : write_range b.data_ b.cur (t ++ more) ≡ some bytes
    written = unfold write_range in ground (arith, length-append t more)

    first : length (line b) ≡ b.cur
    first = omega (arith, length-take b.cur b.data_)

    size : length bytes ≡ length b.data_
    size = omega (
      arith,
      first,
      length-append (line b) ((t ++ more) ++ rest),
      length-append (t ++ more) rest,
      length-append t more,
      length-drop (b.cur + length (t ++ more)) b.data_,
    )

    at : b.cur + length t ≡ length (line b ++ t)
    at = omega (arith, first, length-append (line b) t)

    seam : bytes ≡ (line b ++ t) ++ (more ++ rest)
    seam = rw (append_assoc (line b) t (more ++ rest), append_assoc t more rest)

room_true : (n : ℕ) (b : FixedBuffer) → ltb_ℤ (pos n) (avail b) ≡ true → b.cur + n < length b.data_
room_true n b h = ground arith

room_false :
    (n : ℕ) (b : FixedBuffer) → ltb_ℤ (pos n) (avail b) ≡ false → length b.data_ ≤ b.cur + n
room_false n b h = ground arith

-- What putting a value does: its text comes behind the line, or there was no room for any text of it
-- and nothing changes.
abbrev pub Put : FixedBuffer → Item → FixedBuffer → Type 0
Put b i b' =
    ((t : List ℕ) × Shows i t × (b.cur + room i t ≤ length b.data_) × (line b' ≡ line b ++ t))
    ⊎ ((b' ≡ b) × ((t : List ℕ) → Shows i t → length b.data_ < b.cur + room i t))

-- The result of a step that does not fault.
abbrev pub Puts : FixedBuffer → Item → Option FixedBuffer → Type 0
Puts b i r =
    (b' : FixedBuffer) × (r ≡ some b')
    × IsValid b'
    × (length b'.data_ ≡ length b.data_)
    × Put b i b'

append-Puts :
    (b : FixedBuffer) (t : List ℕ) (i : Item)
    → IsValid b
    → Shows i t
    → ((u : List ℕ) → Shows i u → room i u ≡ length t + 1)
    → Puts b i (append b t (pos (length t)))
unfolding append
append-Puts b t i v shows room = elim (Bool-cases (ltb_ℤ (pos (length t)) (avail b))) [
  | inl fits ↦
      let enough : b.cur + length t < length b.data_ = room_true (length t) b fits in
      let (bytes, written, e) = write-Extended b t [] (omega arith) in
      let exact : write_range b.data_ b.cur t ≡ some bytes = rw (append-nil t) at written in
      let whole : read_range t 0 (length t) ≡ some t =
        unfold read_range in ground (arith, take_all (length t) t (omega arith)) in
      (
        record { data_ = bytes; cur = b.cur + length t },
        rw (fits, whole, exact),
        e.valid,
        e.size,
        inl (t, shows, omega (arith, room t shows), e.ends),
      )
  | inr full ↦ (
    b,
    rw full,
    v,
    refl,
    inr (refl, λ u s. omega (arith, room u s, room_false (length t) b full)),
  )
]

int_of_small : (n : ℕ) → n < 2 ^ 31 → int_of n ≡ pos n
int_of_small n h = ground arith

number-Puts :
    (b : FixedBuffer) (t : List ℕ) (i : Item)
    → IsValid b
    → Shows i t
    → length t < 32
    → ((u : List ℕ) → room i u ≡ 32)
    → Puts b i (if has_numeric_room b then write_number b t else some b)
unfolding write_number
number-Puts b t i v shows short room = elim (Bool-cases (has_numeric_room b)) [
  | inl fits ↦
      let enough : b.cur + 31 < length b.data_ = room_true 31 b fits in
      let (bytes, written, e) = write-Extended b t (0 ∷ []) (omega arith) in
      (
        record { data_ = bytes; cur = b.cur + length t },
        rw (fits, written),
        e.valid,
        e.size,
        inl (t, shows, omega (arith, room t), e.ends),
      )
  | inr full ↦ (b, rw full, v, refl, inr (refl, λ u s. omega (arith, room u, room_false 31 b full)))
]

-- Putting any value into a valid stream does not write outside its bytes, leaves it valid, and puts
-- the whole text of the value behind the line exactly when there is room for it.
pub put-Puts : (b : FixedBuffer) (i : Item) → IsValid b → Fits i → Puts b i (put b i)
unfolding put format_integer put_pointer put_double
put-Puts b (boolean true) v f = append-Puts b (49 ∷ []) (boolean true) v refl (λ u s. rw s)
put-Puts b (boolean false) v f = append-Puts b (48 ∷ []) (boolean false) v refl (λ u s. rw s)
put-Puts b (character c) v f = append-Puts b (c ∷ []) (character c) v refl (λ u s. rw s)
put-Puts b (text t) v f =
    rw (int_of_small (length t) f) (append-Puts b t (text t) v refl (λ u s. rw s))
put-Puts b (real t) v f = number-Puts b t (real t) v refl f (λ u. refl)
put-Puts b (integer n) v f =
    let (t, e, d, l) = signed_decimal-convert n (omega arith) in
    rw e (number-Puts b t (integer n) v d (omega arith) (λ u. refl))
put-Puts b (pointer n) v f =
    let (t, e, d, l) = hexadecimal-convert_hex n f in
    rw e (number-Puts b (48 ∷ 120 ∷ t) (pointer n) v (t, refl, d) (omega arith) (λ u. refl))

-- The texts of some values, with the values that were left out.
pub data Shown : List Item → List ℕ → Type 0 where
  nothing : Shown [] []
  shown :
      {i : Item} {is : List Item} (t : List ℕ) {ts : List ℕ}
      → Shows i t
      → Shown is ts
      → Shown (i ∷ is) (t ++ ts)
  left_out : {i : Item} {is : List Item} {ts : List ℕ} → Shown is ts → Shown (i ∷ is) ts

-- A chain of `operator<<` on a valid stream, of values whose texts are shorter than 2 ^ 31 bytes, never
-- writes outside its bytes and extends the line by the texts of some of the values, whole and in order.
pub put_all-Shown :
    (b : FixedBuffer) (is : List Item)
    → IsValid b
    → All Fits is
    → (b' : FixedBuffer) × (ts : List ℕ) × (put_all b is ≡ some b')
      × IsValid b'
      × (length b'.data_ ≡ length b.data_)
      × Shown is ts
      × (line b' ≡ line b ++ ts)
unfolding put_all
put_all-Shown b [] v f = (b, [], refl, v, refl, nothing, sym (append-nil (line b)))
put_all-Shown b (i ∷ is) v f =
    let (b', e, v', size, p) = put-Puts b i v f.0 in
    let (b'', ts, e', v'', size', s, l) = put_all-Shown b' is v' f.1 in
    elim p [
      | inl (t, shows, room, ends) ↦ (
        b'',
        t ++ ts,
        rw e e',
        v'',
        size' ∙ size,
        shown t shows s,
        l ∙ ap (λ x. x ++ ts) ends ∙ append_assoc (line b) t ts,
      )
      | inr (same, none_fits) ↦
          (b'', ts, rw e e', v'', size' ∙ size, left_out s, l ∙ ap (λ x. line x ++ ts) same)
    ]

-- A `Fmt` whose text fits its buffer is put as that text.
pub put_fmt_lem :
    (b : FixedBuffer) (bytes : List ℕ) → length bytes < 32 → put_fmt b bytes ≡ put b (text bytes)
unfolding put_fmt make_fmt put
put_fmt_lem b bytes h = ground (arith, h)
