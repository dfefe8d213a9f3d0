-- ===== src/TcpServer/Pool.antt =====
-- The pool hands out its loops in turn.
use native.Mathlib.Nat.{suc-mod, mod-lt, mod_self, mod-eq_of_lt}
use learn_for_cpp.Base.{
  ℕ, zero, suc, ◌+◌, ◌%◌, ◌<◌, ◌≡◌, refl, sym, ap, ◌∙◌, inl, inr, Option, some, List, [], ◌∷◌,
  arith, Bool-cases, length, get_elem?, leb, if◌then◌else◌,
}
use learn_for_cpp.TcpServer.{ThreadPool, get_next_loop}

-- The loop at index `k`, counted round and round.
abbrev pub turn : List ℕ → ℕ → Option ℕ
turn loops k = get_elem? loops (k % length loops)

get_elem?-some : (xs : List ℕ) (i : ℕ) → i < length xs → (x : ℕ) × (get_elem? xs i ≡ some x)
get_elem?-some [] i h = absurd (omega (arith, h))
get_elem?-some (x ∷ xs) zero h = (x, refl)
get_elem?-some (x ∷ xs) (suc i) h = get_elem?-some xs i (omega (arith, h))

next_turn : (n k : ℕ) → 0 < n → (if leb n (k % n + 1) then 0 else k % n + 1) ≡ suc k % n
next_turn n k h = elim (Bool-cases (leb n (k % n + 1))) [
  | inl wrap ↦
      let last : n ≡ suc (k % n) = ground (arith, wrap, mod-lt k h) in
      rw wrap (sym (suc-mod k n ∙ ap (λ x. x % n) (sym last) ∙ mod_self n))
  | inr step ↦
      let below : suc (k % n) < n = ground (arith, step) in
      rw step (omega arith ∙ sym (suc-mod k n ∙ mod-eq_of_lt below))
]

-- With loops in the pool and `next_` at turn `k`, `getNextLoop` hands out the loop of turn `k`, and
-- `next_` is at turn `k + 1`: the loops come round and round.
pub get_next_loop_lem :
    (p : ThreadPool) (k : ℕ)
    → 0 < length p.loops
    → p.next ≡ k % length p.loops
    → (loop : ℕ) × (turn p.loops k ≡ some loop)
      × (get_next_loop p ≡ some (loop, record p { next = suc k % length p.loops }))
unfolding get_next_loop
get_next_loop_lem p k h at =
    let (loop, e) = get_elem?-some p.loops (k % length p.loops) (mod-lt k h) in
    let here : get_elem? p.loops p.next ≡ some loop = ap (get_elem? p.loops) at ∙ e in
    let after =
      ap (λ x. if leb (length p.loops) (x + 1) then 0 else x + 1) at
      ∙ next_turn (length p.loops) k h in
    (loop, e, ground (arith, h, here, after))
