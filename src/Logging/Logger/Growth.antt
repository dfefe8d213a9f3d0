-- ===== src/Logging/Logger/Growth.antt =====
-- How the values of a line extend its stream.
use learn_for_cpp.Base.{
  ℕ, ◌+◌, ◌^◌, ◌≤◌, ◌<◌, ◌≡◌, inl, inr, refl, sym, ap, ◌∙◌, subst, some, List, [], ◌∷◌, ◌++◌,
  length, drop, All, ◌==◌, arith, Bool-cases, length-take, length-drop, Option-cases, length-append,
  append_assoc, read_range,
}
use learn_for_cpp.Logging.Stream.{FixedBuffer, Item, text, put, put_all, to_string}
use learn_for_cpp.Logging.Stream.Bounds.{
  IsValid, line, Fits, Shown, nothing, shown, left_out, put-Puts, put_all-Shown,
}
use learn_for_cpp.Logging.Logger.{
  Context, Impl, errno_items, finish_items, strrchr, base_name, slash,
}

-- The stream after some values, with the text that they added.
pub record Grown (b b' : FixedBuffer) (ts : List ℕ) : Type 0 where
  pub valid : IsValid b'
  pub size : length b'.data_ ≡ length b.data_
  pub ends : line b' ≡ line b ++ ts

pub line_length : (b : FixedBuffer) → IsValid b → length (line b) ≡ b.cur
line_length b v = omega (arith, v, length-take b.cur b.data_)

pub Grown-cur :
    (b b' : FixedBuffer) (ts : List ℕ) → IsValid b → Grown b b' ts → b'.cur ≡ b.cur + length ts
Grown-cur b b' ts v g =
    omega
      (arith, line_length b v, line_length b' g.valid, ap length g.ends, length-append (line b) ts)

-- A text that there is room for is put whole.
pub put-Grown :
    (b : FixedBuffer) (t : List ℕ)
    → IsValid b
    → length t < 2 ^ 31
    → b.cur + length t < length b.data_
    → (b' : FixedBuffer) × (put b (text t) ≡ some b') × Grown b b' t
put-Grown b t v short room =
    let (b', r, v', size, p) = put-Puts b (text t) v short in
    elim p [
      | inl (t', same, _, ends) ↦
          (b', r, record { valid = v'; size = size; ends = ends ∙ ap (λ x. line b ++ x) same })
      | inr (_, full) ↦ absurd (omega (arith, full t refl, room))
    ]

pub Shown-append :
    (is js : List Item) (ts us : List ℕ) → Shown is ts → Shown js us → Shown (is ++ js) (ts ++ us)
Shown-append is js ts us nothing s = s
Shown-append is js ts us (shown {i} {is = is'} t {ts = ts'} e r) s =
    subst (Shown (i ∷ (is' ++ js))) (sym (append_assoc t ts' us))
      (shown t e (Shown-append is' js ts' us r s))
Shown-append is js ts us (left_out {i} {is = is'} r) s = left_out (Shown-append is' js ts us r s)

pub All-append : (is js : List Item) → All Fits is → All Fits js → All Fits (is ++ js)
All-append [] js f g = g
All-append (i ∷ is) js f g = (f.0, All-append is js f.1 g)

pub put_all-Grown :
    (b : FixedBuffer) (is : List Item)
    → IsValid b
    → All Fits is
    → (b' : FixedBuffer) × (ts : List ℕ) × (put_all b is ≡ some b') × Shown is ts × Grown b b' ts
put_all-Grown b is v f =
    let (b', ts, r, v', size, s, ends) = put_all-Shown b is v f in
    (b', ts, r, s, record { valid = v'; size = size; ends = ends })

pub Grown-trans :
    (a b c : FixedBuffer) (ts us : List ℕ) → Grown a b ts → Grown b c us → Grown a c (ts ++ us)
Grown-trans a b c ts us g h = record {
  valid = h.valid;
  size = h.size ∙ g.size;
  ends = h.ends ∙ ap (λ x. x ++ us) g.ends ∙ append_assoc (line a) ts us;
}

-- Two texts that there is room for, and some values.
pub put_all-Grown_two :
    (b : FixedBuffer) (t u : List ℕ) (is : List Item)
    → IsValid b
    → All Fits is
    → length t < 2 ^ 31
    → length u < 2 ^ 31
    → b.cur + length t + length u < length b.data_
    → (b' : FixedBuffer) × (ts : List ℕ) × (put_all b (text t ∷ text u ∷ is) ≡ some b')
      × Shown is ts
      × Grown b b' (t ++ (u ++ ts))
unfolding put_all
put_all-Grown_two b t u is v f short short1 room =
    let (b1, r1, g1) = put-Grown b t v short (omega (arith, room)) in
    let c1 = Grown-cur b b1 t v g1 in
    let (b2, r2, g2) = put-Grown b1 u g1.valid short1 (omega (arith, room, c1, g1.size)) in
    let (b3, ts, r3, s, g3) = put_all-Grown b2 is g2.valid f in
    (
      b3,
      ts,
      ground (arith, r1, r2, r3),
      s,
      Grown-trans b b1 b3 t (u ++ ts) g1 (Grown-trans b1 b2 b3 u ts g2 g3),
    )

pub errno_fit :
    (c : Context) (n : ℕ) → length c.error_text < 2 ^ 31 → n ≤ 2 ^ 64 → All Fits (errno_items c n)
errno_fit c n s h = elim (Bool-cases (n == 0)) [
  | inl none_saved ↦ rw none_saved tt
  | inr saved ↦ rw saved (s, (omega arith, (h, (omega arith, tt))))
]

pub finish_fit :
    (l : Impl) → length l.base_name < 2 ^ 31 → l.line ≤ 2 ^ 64 → All Fits (finish_items l)
finish_fit l s h = (omega arith, (s, (omega arith, (h, (omega arith, tt)))))

length-strrchr : (xs s : List ℕ) (c : ℕ) → strrchr xs c ≡ some s → length s ≤ length xs
unfolding strrchr
length-strrchr [] s c e = ground (arith, e)
length-strrchr (x ∷ xs) s c e = elim (Option-cases (strrchr xs c)) [
  | inl lost ↦ ground (arith, e, lost)
  | inr (u, there) ↦
      let same : u ≡ s = ground (arith, e, there) in
      omega (arith, length-strrchr xs u c there, ap length same)
]

pub length-base_name : (path : List ℕ) → length (base_name path) ≤ length path
unfolding base_name
length-base_name path = elim (Option-cases (strrchr path slash)) [
  | inl lost ↦
      let whole : base_name path ≡ path = ground (arith, lost) in omega (arith, ap length whole)
  | inr (s, there) ↦
      let rest : base_name path ≡ drop 1 s = ground (arith, there) in
      omega (arith, ap length rest, length-strrchr path s slash there, length-drop 1 s)
]

pub to_string-line : (b : FixedBuffer) → IsValid b → to_string b ≡ some (line b)
unfolding to_string read_range
to_string-line b v = ground arith
