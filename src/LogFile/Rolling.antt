-- ===== src/LogFile/Rolling.antt =====
-- When a new file is begun, and what the files have together.
use learn_for_cpp.Base.{
  ℕ, ◌+◌, ◌-◌, ◌≤◌, ◌≡◌, ◌⊎◌, refl, sym, ◌∙◌, inl, inr, Bool, some, List, [], ◌∷◌, ◌++◌, arith,
  Bool-cases, length, append_assoc, append-nil, ◌==◌, ltb,
}
use learn_for_cpp.LogFile.{
  File, LogFile, Writes, new_file, file_append, roll_file, check_time, check_time_roll, period_of,
  append_unlocked,
}
use learn_for_cpp.LogFile.Writing.{Completes, file_append-Completes}

-- All that was logged, through all files.
abbrev pub text_of : List File → List ℕ
text_of [] = []
text_of (f ∷ fs) = text_of fs ++ f.content

abbrev pub text : LogFile → List ℕ
text l = text_of (l.file ∷ l.closed)

-- The text stays the same, and the current file gets no longer.
record Kept (l l' : LogFile) : Type 0 where
  same_text : text l' ≡ text l
  shrinks : l'.file.written_bytes ≤ l.file.written_bytes

roll_file-Kept : (l : LogFile) (now : ℕ) → Kept l (roll_file l now)
unfolding roll_file new_file
roll_file-Kept l now = elim (Bool-cases (ltb l.last_roll now)) [
  | inl later ↦ rw later (record { same_text = append-nil (text l); shrinks = omega arith })
  | inr now_or_before ↦ rw now_or_before (record { same_text = refl; shrinks = omega arith })
]

-- A file is begun anew, unless no second has passed.
roll_file-small :
    (l : LogFile) (now : ℕ)
    → ((roll_file l now).file.written_bytes ≤ l.roll_size) ⊎ (now ≤ l.last_roll)
unfolding roll_file new_file
roll_file-small l now = elim (Bool-cases (ltb l.last_roll now)) [
  | inl later ↦ inl (rw later (omega arith))
  | inr now_or_before ↦ inr (ground (arith, now_or_before))
]

check_time-Kept : (l : LogFile) (now roll_now : ℕ) → Kept l (check_time l now roll_now)
unfolding check_time
check_time-Kept l now roll_now = elim (Bool-cases (period_of now == l.start_of_period)) [
  | inr other ↦
      let k = roll_file-Kept (record l { count = 0 }) roll_now in
      rw other (record { same_text = k.same_text; shrinks = k.shrinks })
  | inl this ↦ elim (Bool-cases (ltb (l.last_flush + l.flush_interval) now)) [
    | inl due ↦ rw (this, due) (record { same_text = refl; shrinks = omega arith })
    | inr soon ↦ rw (this, soon) (record { same_text = refl; shrinks = omega arith })
  ]
]

-- Where the calls of `fwrite_unlocked` write the whole line, `append_unlocked` comes to its end: the
-- line stands whole behind all that was logged before, whether or not a new file is begun; and the
-- current file is not over the roll size then, unless no second has passed since the last roll.
pub append_unlocked-text :
    (l : LogFile) (line : List ℕ) (n : ℕ) (ws : Writes) (failed : Bool) (now roll_now : ℕ)
    → n ≤ length line
    → Completes (length line - n) ws
    → (l' : LogFile) × (append_unlocked l line n ws failed now roll_now ≡ some l')
      × (text l' ≡ text l ++ line)
      × ((l'.file.written_bytes ≤ l.roll_size) ⊎ (roll_now ≤ l.last_roll))
unfolding append_unlocked
append_unlocked-text l line n ws failed now roll_now h c =
    let f : File = record (l.file) {
      content = l.file.content ++ line;
      written_bytes = l.file.written_bytes + length line;
    } in
    let wrote : file_append l.file line n ws failed ≡ some f =
      file_append-Completes l.file line n ws failed h c in
    let l1 : LogFile = record l { file = f } in
    let behind : text l1 ≡ text l ++ line =
      sym (append_assoc (text_of l.closed) l.file.content line) in
    elim (Bool-cases (ltb l.roll_size f.written_bytes)) [
      | inl over ↦
          let k = roll_file-Kept l1 roll_now in
          (
            roll_file l1 roll_now,
            ground (arith, wrote, over),
            k.same_text ∙ behind,
            roll_file-small l1 roll_now,
          )
      | inr fits ↦
          let low : f.written_bytes ≤ l.roll_size = ground (arith, fits) in
          elim (Bool-cases (ltb check_time_roll l.count)) [
            | inl check ↦
                let k = check_time-Kept l1 now roll_now in
                (
                  check_time l1 now roll_now,
                  ground (arith, wrote, fits, check),
                  k.same_text ∙ behind,
                  inl (omega (arith, k.shrinks, low)),
                )
            | inr next ↦ (
              record l1 { count = l.count + 1 },
              ground (arith, wrote, fits, next),
              behind,
              inl low,
            )
          ]
    ]
