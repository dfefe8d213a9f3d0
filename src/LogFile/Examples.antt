-- ===== src/LogFile/Examples.antt =====
-- A log file that is full after a line, written in two pieces.
use learn_for_cpp.Base.{ℕ, ◌+◌, ◌≤◌, ◌≡◌, ◌⊎◌, refl, true, false, some, List, [], ◌∷◌, ◌++◌, arith}
use learn_for_cpp.LogFile.{
  File, LogFile, new_file, new_log_file, file_append, write_rest, append_unlocked, roll_file,
}
use learn_for_cpp.LogFile.Writing.{file_append-Completes}
use learn_for_cpp.LogFile.Rolling.{text, append_unlocked-text}

abbrev empty : File
empty = record { content = []; written_bytes = 0; flushed = 0; errors = 0 }

abbrev log : LogFile
log = record {
  roll_size = 2;
  flush_interval = 3;
  count = 0;
  start_of_period = 86400;
  last_roll = 90000;
  last_flush = 90000;
  file = empty;
  closed = [];
}

abbrev line : List ℕ
line = 65 ∷ 66 ∷ 67 ∷ []

opens : new_log_file 2 3 90000 ≡ some log
unfolding new_log_file new_file
opens = refl

rolls :
    append_unlocked log line 1 (2 ∷ []) false 90001 90001
    ≡ some (record log {
      last_roll = 90001;
      last_flush = 90001;
      closed = record { content = line; written_bytes = 3; flushed = 0; errors = 0 } ∷ [];
    })
unfolding append_unlocked file_append write_rest roll_file new_file
rolls = refl

-- A call that writes nothing ends the loop, and the whole line is counted all the same.
counts_unwritten :
    file_append empty line 1 (0 ∷ []) true
    ≡ some (record { content = 65 ∷ []; written_bytes = 3; flushed = 0; errors = 1 })
unfolding file_append write_rest
counts_unwritten = refl

file_append_example :
    file_append empty line 1 (2 ∷ []) false
    ≡ some (record empty { content = [] ++ line; written_bytes = 0 + 3 })
file_append_example =
    file_append-Completes empty line 1 (2 ∷ []) false (omega arith) (omega arith, omega arith, tt)

append_unlocked_example :
    (l' : LogFile) × (append_unlocked log line 1 (2 ∷ []) false 90001 90001 ≡ some l')
    × (text l' ≡ text log ++ line)
    × ((l'.file.written_bytes ≤ log.roll_size) ⊎ (90001 ≤ log.last_roll))
append_unlocked_example =
    append_unlocked-text log line 1 (2 ∷ []) false 90001 90001 (omega arith)
      (omega arith, omega arith, tt)
