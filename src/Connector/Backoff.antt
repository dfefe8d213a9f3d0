-- ===== src/Connector/Backoff.antt =====
-- The delays between attempts.
use native.Mathlib.Nat.{mul-suc, mul_assoc, pow-suc, pow-succ'}
use learn_for_cpp.Base.{
  ℕ, zero, suc, ◌+◌, ◌*◌, ◌^◌, ◌≤◌, ◌≡◌, refl, ap, ◌∙◌, sym, true, List, [], ◌∷◌, arith, length,
  Bool-cases, leb, inl, inr, min,
}
use learn_for_cpp.Connector.{Connector, Effect, run_after, retry, max_retry_delay_ms}

-- Attempts that fail one after the other, with their sockets.
abbrev pub retry_each : List ℕ → Connector → Connector
retry_each [] c = c
retry_each (fd ∷ fds) c = retry_each fds (retry c fd)

-- The delays that were asked for, the last one first.
abbrev pub delays : List Effect → List ℕ
delays [] = []
delays (run_after d ∷ es) = d ∷ delays es
delays (_ ∷ es) = delays es

capped :
    (m k : ℕ)
    → min (min m max_retry_delay_ms * suc k) max_retry_delay_ms ≡ min (m * suc k) max_retry_delay_ms
capped m k = elim (Bool-cases (leb m max_retry_delay_ms)) [
  | inl small ↦
      let e : min m max_retry_delay_ms ≡ m = ground (arith, small) in
      ap (λ x. min (x * suc k) max_retry_delay_ms) e
  | inr large ↦
      let e : min m max_retry_delay_ms ≡ max_retry_delay_ms = ground (arith, large) in
      let up : m * suc k ≡ m * k + m = mul-suc m k in
      ap (λ x. min (x * suc k) max_retry_delay_ms) e ∙ ground (arith, large, up)
]

power : (n : ℕ) → (k : ℕ) × (2 ^ n ≡ suc k)
power zero = (0, refl)
power (suc n) = let (k, e) = power n in (suc (k + k), rw (pow-suc 2 n, e) (omega arith))

-- While a connection is wanted, each failed attempt closes its socket, asks for a new one after the
-- present delay, and doubles the delay up to 30 seconds: after n failures the delay is the first one
-- times 2 ^ n, or 30 seconds if that is less.
pub retry_each-delay :
    (fds : List ℕ) (c : Connector)
    → c.connect ≡ true
    → c.retry_delay_ms ≤ max_retry_delay_ms
    → (retry_each fds c).retry_delay_ms ≡ min (c.retry_delay_ms * 2 ^ length fds) max_retry_delay_ms
unfolding retry
retry_each-delay [] c on h = ground arith
retry_each-delay (fd ∷ fds) c on h =
    let on' : (retry c fd).connect ≡ true = ground (arith, on) in
    let next : (retry c fd).retry_delay_ms ≡ min (c.retry_delay_ms * 2) 30000 =
      ground (arith, on) in
    let (k, e) = power (length fds) in
    retry_each-delay fds (retry c fd) on' (ground (arith, next))
    ∙ ap (λ d. min (d * 2 ^ length fds) max_retry_delay_ms) next
    ∙ ap (λ p. min (min (c.retry_delay_ms * 2) max_retry_delay_ms * p) max_retry_delay_ms) e
    ∙ capped (c.retry_delay_ms * 2) k
    ∙ ap (λ x. min x max_retry_delay_ms)
        (ap (λ p. c.retry_delay_ms * 2 * p) (sym e)
          ∙ mul_assoc c.retry_delay_ms 2 (2 ^ length fds)
          ∙ ap (λ p. c.retry_delay_ms * p) (sym (pow-succ' 2 (length fds))))
