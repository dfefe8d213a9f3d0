-- ===== src/LogFile/Writing.antt =====
-- What reaches a file.
use learn_for_cpp.Base.{
  ℕ, zero, suc, ◌+◌, ◌-◌, ◌<◌, ◌≤◌, ◌≡◌, sym, ap, ◌∙◌, subst, Bool, true, false, some, List, [],
  ◌∷◌, ◌++◌, arith, length, take, drop, take-append-drop, length-drop, append_assoc, append-nil,
}
use learn_for_cpp.LogFile.{File, Writes, write_rest, file_append}

-- The calls of `fwrite_unlocked` write `len` bytes in all, each at least one and no more than it was
-- asked for.
abbrev pub Completes : ℕ → Writes → Type 0
Completes zero ws = Unit {0}
Completes (suc len) [] = Path Bool true false
Completes (suc len) (x ∷ ws) = (0 < x) × (x ≤ suc len) × Completes (suc len - x) ws

write_rest-Completes :
    (ws : Writes) (f : File) (rest : List ℕ) (failed : Bool)
    → Completes (length rest) ws
    → write_rest f rest ws failed ≡ some (record f { content = f.content ++ rest })
unfolding write_rest
write_rest-Completes ws f [] failed c =
    ap (λ x. some (record f { content = x })) (sym (append-nil f.content))
write_rest-Completes [] f (b ∷ bs) failed c = ground (arith, c)
write_rest-Completes (x ∷ ws) f (b ∷ bs) failed (some_byte, fits, c) =
    let f1 : File = record f { content = f.content ++ take x (b ∷ bs) } in
    let left : Completes (length (drop x (b ∷ bs))) ws =
      subst (λ n. Completes n ws) (sym (length-drop x (b ∷ bs))) c in
    let go = write_rest-Completes ws f1 (drop x (b ∷ bs)) failed left in
    let whole : (f.content ++ take x (b ∷ bs)) ++ drop x (b ∷ bs) ≡ f.content ++ (b ∷ bs) =
      append_assoc f.content (take x (b ∷ bs)) (drop x (b ∷ bs))
      ∙ ap (λ y. f.content ++ y) (take-append-drop x (b ∷ bs)) in
    ground (arith, some_byte, go, whole)

-- Where the calls of `fwrite_unlocked` write the whole line, in any number of pieces, `File::append`
-- comes to its end with the line behind what the file had, and its length added to `writtenBytes_`.
pub file_append-Completes :
    (f : File) (line : List ℕ) (n : ℕ) (ws : Writes) (failed : Bool)
    → n ≤ length line
    → Completes (length line - n) ws
    → file_append f line n ws failed
      ≡ some
          (record f { content = f.content ++ line; written_bytes = f.written_bytes + length line })
unfolding file_append
file_append-Completes f line n ws failed h c =
    let f1 : File = record f { content = f.content ++ take n line } in
    let left : Completes (length (drop n line)) ws =
      subst (λ m. Completes m ws) (sym (length-drop n line)) c in
    let go = write_rest-Completes ws f1 (drop n line) failed left in
    let whole : (f.content ++ take n line) ++ drop n line ≡ f.content ++ line =
      append_assoc f.content (take n line) (drop n line)
      ∙ ap (λ y. f.content ++ y) (take-append-drop n line) in
    ground (arith, go, whole)
