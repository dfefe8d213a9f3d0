-- ===== src/Thread/Mutex/Hierarchy.antt =====
-- The mutexes that a thread holds form a stack of falling hierarchy values.
use mathlib.Core.List.{Mem, not-mem-nil, mem_of_ne_of_mem}
use learn_for_cpp.Base.{
  put, ℕ, ◌<◌, ◌≡◌, ◌≢◌, sym, ap, ◌∙◌, subst, inl, inr, some, List, [], ◌∷◌, arith, All, Bool-cases,
  ◌==◌, ==_refl,
}
use learn_for_cpp.Thread.Mutex.{
  Thread, Mutex, ulong_max, check_for_hierarchy_violation, update_hierarchy_value, lock, unlock,
}

-- The value of the mutex that was locked last.
abbrev pub level : (ℕ → ℕ) → List ℕ → ℕ
level values [] = ulong_max
level values (m ∷ ms) = values m

-- The mutexes held, the last one first: each keeps the value before it, which is larger.
abbrev pub IsStack : (ℕ → ℕ) → (ℕ → Mutex) → List ℕ → Type 0
IsStack values mutexes [] = Unit {0}
IsStack values mutexes (m ∷ ms) =
    ((mutexes m).previous_hierarchy_value ≡ level values ms)
    × (values m < level values ms)
    × IsStack values mutexes ms

pub record Holds (values : ℕ → ℕ) (t : Thread) (held : List ℕ) : Type 0 where
  pub now : t.this_thread_hierarchy_value ≡ level values held
  pub fixed : (m : ℕ) → (t.mutexes m).hierarchy_value ≡ values m
  pub stack : IsStack values t.mutexes held

abbrev pub AreAbove : (ℕ → ℕ) → ℕ → List ℕ → Type 0
AreAbove values v held = All (λ h. v < values h) held

pub above_lower :
    (values : ℕ → ℕ) (v : ℕ) (mutexes : ℕ → Mutex) (held : List ℕ)
    → v < level values held
    → IsStack values mutexes held
    → AreAbove values v held
above_lower values v mutexes [] h s = tt
above_lower values v mutexes (m ∷ ms) h s =
    (h, above_lower values v mutexes ms (omega (arith, h, s.1)) s.2)

-- A mutex outside the stack does not matter for it.
put_other :
    (values : ℕ → ℕ) (mutexes : ℕ → Mutex) (m : ℕ) (x : Mutex) (held : List ℕ)
    → AreAbove values (values m) held
    → IsStack values mutexes held
    → IsStack values (put mutexes m x) held
put_other values mutexes m x [] a s = tt
put_other values mutexes m x (n ∷ ns) a s = elim (Bool-cases (n == m)) [
  | inl same ↦ (let e : n ≡ m = ground (arith, same) in absurd (omega (arith, ap values e, a.0)))
  | inr other ↦ (rw other s.0, s.1, put_other values mutexes m x ns a.1 s.2)
]

update-Holds :
    (values : ℕ → ℕ) (t : Thread) (m : ℕ) (held : List ℕ)
    → Holds values t held
    → values m < level values held
    → Holds values (update_hierarchy_value t m) (m ∷ held)
unfolding update_hierarchy_value
update-Holds values t m held h below = record {
  now = h.fixed m;
  fixed = λ n. put_value n;
  stack = (
    rw (==_refl m) (h.now),
    below,
    put_other values t.mutexes m _ held (above_lower values (values m) t.mutexes held below h.stack)
        h.stack,
  );
}
  where
    put_value :
        (n : ℕ)
        → (put t.mutexes m
            (record (t.mutexes m) { previous_hierarchy_value = t.this_thread_hierarchy_value })
            n).hierarchy_value
          ≡ values n
    put_value n = elim (Bool-cases (n == m)) [
      | inl same ↦ rw same (h.fixed m ∙ ap values (sym (ground (arith, same))))
      | inr other ↦ rw other (h.fixed n)
    ]

-- Locking succeeds exactly when the mutex lies below all that are held, and puts it on the stack.
pub lock-Holds :
    (values : ℕ → ℕ) (t t' : Thread) (m : ℕ) (held : List ℕ)
    → Holds values t held
    → lock t m ≡ some t'
    → Holds values t' (m ∷ held) × AreAbove values (values m) held
unfolding lock check_for_hierarchy_violation
lock-Holds values t t' m held h r =
    let below : values m < level values held = ground (arith, r, h.now, h.fixed m) in
    let same : update_hierarchy_value t m ≡ t' = ground (arith, r) in
    (
      subst (λ x. Holds values x (m ∷ held)) same (update-Holds values t m held h below),
      above_lower values (values m) t.mutexes held below h.stack,
    )

pub above_mem :
    (values : ℕ → ℕ) (v m : ℕ) (held : List ℕ) → AreAbove values v held → Mem m held → v < values m
above_mem values v m [] a i = absurd (not-mem-nil i)
above_mem values v m (n ∷ ns) a i = elim (Bool-cases (m == n)) [
  | inl same ↦ let e : m ≡ n = ground (arith, same) in omega (arith, ap values e, a.0)
  | inr other ↦
      let ne : m ≢ n = ground (arith, other) in above_mem values v m ns a.1 (mem_of_ne_of_mem ne i)
]

-- Unlocking one of the mutexes that are held succeeds only for the last one.
pub unlock-Holds :
    (values : ℕ → ℕ) (t t' : Thread) (m n : ℕ) (ns : List ℕ)
    → Holds values t (n ∷ ns)
    → Mem m (n ∷ ns)
    → unlock t m ≡ some t'
    → (m ≡ n) × Holds values t' ns
unfolding unlock
unlock-Holds values t t' m n ns h i r = elim (Bool-cases (m == n)) [
  | inl same ↦
      let e : m ≡ n = ground (arith, same) in
      let d : Thread = record t {
        this_thread_hierarchy_value = (t.mutexes m).previous_hierarchy_value;
      } in
      let out : d ≡ t' = ground (arith, r) in
      let before = ap (λ x. (t.mutexes x).previous_hierarchy_value) e in
      let held : Holds values d ns = record {
        now = before ∙ h.stack.0;
        fixed = h.fixed;
        stack = h.stack.2;
      } in
      (e, subst (λ x. Holds values x ns) out held)
  | inr other ↦
      let ne : m ≢ n = ground (arith, other) in
      let above = above_lower values (values n) t.mutexes ns h.stack.1 h.stack.2 in
      let more = above_mem values (values n) m ns above (mem_of_ne_of_mem ne i) in
      let level : t.this_thread_hierarchy_value ≡ (t.mutexes m).hierarchy_value =
        ground (arith, r) in
      absurd (omega (arith, level, h.now, h.fixed m, more))
]
