-- ===== src/Thread/Plain/Fifo.antt =====
-- Producers and consumers of a `BlockingQueue`, in any interleaving of their calls.
use learn_for_cpp.Base.{
  ℕ, ◌≡◌, sym, ap, ◌∙◌, some, List, [], ◌∷◌, ◌++◌, arith, append_assoc, append-nil,
}
use learn_for_cpp.Thread.Plain.{Queue, put_item, take_item}

-- From `q` to the last queue, with all values put and all values taken on the way.
pub data Runs (q : Queue) : Queue → List ℕ → List ℕ → Type 0 where
  here : Runs q q [] []
  puts :
      {r : Queue} {ps ts : List ℕ} (x : ℕ)
      → Runs q r ps ts
      → Runs q (put_item r x) (ps ++ (x ∷ [])) ts
  takes :
      {r r' : Queue} {ps ts : List ℕ} (x : ℕ)
      → Runs q r ps ts
      → take_item r ≡ some (x, r')
      → Runs q r' ps (ts ++ (x ∷ []))

took : (r r' : Queue) (x : ℕ) → take_item r ≡ some (x, r') → r ≡ x ∷ r'
unfolding take_item
took [] r' x e = ground (arith, e)
took (y ∷ r) r' x e = ground (arith, e)

-- However the calls of producers and consumers interleave, the values taken, with those that are left
-- behind them, are the values that were there with those that were put, in order: none is lost, doubled
-- or overtaken.
pub put-take-Runs : (q r : Queue) (ps ts : List ℕ) → Runs q r ps ts → ts ++ r ≡ q ++ ps
unfolding put_item
put-take-Runs q r ps ts here = sym (append-nil q)
put-take-Runs q r ps ts (puts {r = s} {ps = ms} x run) =
    sym (append_assoc ts s (x ∷ []))
    ∙ ap (λ l. l ++ (x ∷ [])) (put-take-Runs q s ms ts run)
    ∙ append_assoc q ms (x ∷ [])
put-take-Runs q r ps ts (takes {r = s} {ts = us} x run e) =
    append_assoc us (x ∷ []) r
    ∙ ap (λ l. us ++ l) (sym (took s r x e))
    ∙ put-take-Runs q s ps us run
