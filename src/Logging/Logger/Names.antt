-- ===== src/Logging/Logger/Names.antt =====
-- The name of the source file in a line.
use learn_for_cpp.Base.{
  ℕ, ◌≡◌, ◌⊎◌, inl, inr, refl, subst, sym, ap, ◌∙◌, false, Option, none, some, List, [], ◌∷◌, ◌++◌,
  drop, All, ◌==◌, if◌then◌else◌, arith, Bool-cases,
}
use learn_for_cpp.Logging.Logger.{strrchr, base_name, slash}

abbrev pub IsAbsent : ℕ → List ℕ → Type 0
IsAbsent c xs = All (λ x. (x == c) ≡ false) xs

-- What `strrchr` finds: the last such byte, or that there is none.
abbrev Finds : List ℕ → ℕ → Option (List ℕ) → Type 0
Finds xs c none = IsAbsent c xs
Finds xs c (some s) =
    (pre : List ℕ) × (rest : List ℕ) × (xs ≡ pre ++ (c ∷ rest)) × (s ≡ c ∷ rest) × IsAbsent c rest

strrchr-Finds : (xs : List ℕ) (c : ℕ) → Finds xs c (strrchr xs c)
unfolding strrchr
strrchr-Finds [] c = tt
strrchr-Finds (x ∷ xs) c = go (strrchr xs c) (strrchr-Finds xs c)
  where
    go :
        (o : Option (List ℕ))
        → Finds xs c o
        → Finds
            (x ∷ xs)
            c
            (elim o [ some s ↦ some s | none ↦ if x == c then some (x ∷ xs) else none ])
    go (some s) (pre, rest, e, f, a) = (x ∷ pre, rest, ap (λ l. x ∷ l) e, f, a)
    go none a = elim (Bool-cases (x == c)) [
      | inl same ↦ rw same ([], xs, ground (arith, same), ground (arith, same), a)
      | inr other ↦ rw other (other, a)
    ]

-- The name shown is what follows the last slash of the path: it has no slash itself, and the path is it
-- alone or ends in a slash and it.
pub base_name-IsAbsent :
    (path : List ℕ)
    → IsAbsent slash (base_name path)
      × ((path ≡ base_name path) ⊎ ((dir : List ℕ) × (path ≡ dir ++ (slash ∷ base_name path))))
unfolding base_name
base_name-IsAbsent path = go (strrchr path slash) (strrchr-Finds path slash)
  where
    go :
        (o : Option (List ℕ))
        → Finds path slash o
        → let name : List ℕ = elim o [ some s ↦ drop 1 s | none ↦ path ] in
          IsAbsent slash name × ((path ≡ name) ⊎ ((dir : List ℕ) × (path ≡ dir ++ (slash ∷ name))))
    go none a = (a, inl refl)
    go (some s) (pre, rest, e, f, a) =
        let n : drop 1 s ≡ rest = ap (drop 1) f in
        (subst (IsAbsent slash) (sym n) a, inr (pre, e ∙ ap (λ l. pre ++ (slash ∷ l)) (sym n)))
