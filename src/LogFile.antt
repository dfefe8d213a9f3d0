-- ===== src/LogFile.antt =====
-- logging/LogFile.h and LogFile.cc. A file is a number, the order in which it was opened; `time` and
-- what `fwrite_unlocked` writes are arguments, and `errors` counts the complaints on stderr. The name
-- of a file is put together by the C library. The mutex makes a call one step.
pub mod Writing
pub mod Rolling
mod Examples
use learn_for_cpp.Base.{
  ℕ, zero, suc, ◌+◌, ◌-◌, ◌*◌, ◌/◌, ◌≤◌, Bool, true, false, not, Option, none, some, List, [], ◌∷◌,
  ◌++◌, length, take, drop, ltb, leb, ◌==◌, if◌then◌else◌, ◌>>=◌,
}

-- `LogFile::File`: the bytes that reached the stream, and `writtenBytes_`.
pub record File : Type 0 where
  pub content : List ℕ
  pub written_bytes : ℕ
  pub flushed : ℕ
  pub errors : ℕ

pub new_file : File
new_file = record { content = []; written_bytes = 0; flushed = 0; errors = 0 }

-- What the calls of `fwrite_unlocked` return, one after the other, and `ferror` where it is 0.
abbrev pub Writes : Type 0
Writes = List ℕ

-- The loop of `File::append`: `rest` is what is left, and `n` bytes of it go out at a time. It ends when
-- all is written or a call writes nothing; with no more results of calls it does not go on (`none`).
pub write_rest : File → List ℕ → Writes → Bool → Option File
write_rest f [] ws failed = some f
write_rest f (b ∷ bs) [] failed = none
write_rest f (b ∷ bs) (x ∷ ws) failed =
    let go =
      write_rest (record f { content = f.content ++ take x (b ∷ bs) }) (drop x (b ∷ bs)) ws
        failed in
    if x == 0 then some (if failed then record f { errors = f.errors + 1 } else f) else go

-- The first `write` comes before the loop; `writtenBytes_` counts the whole line.
pub file_append : File → List ℕ → ℕ → Writes → Bool → Option File
file_append f line n ws failed = do
  f' ← write_rest (record f { content = f.content ++ take n line }) (drop n line) ws failed
  some (record f' { written_bytes = f'.written_bytes + length line })

abbrev pub file_flush : File → File
file_flush f = record f { flushed = length f.content }

abbrev pub check_time_roll : ℕ
check_time_roll = 1024

abbrev pub roll_per_seconds : ℕ
roll_per_seconds = 60 * 60 * 24

pub record LogFile : Type 0 where
  pub roll_size : ℕ
  pub flush_interval : ℕ
  pub count : ℕ
  pub start_of_period : ℕ
  pub last_roll : ℕ
  pub last_flush : ℕ
  pub file : File
  -- The files closed before this one, the last one first.
  pub closed : List File

-- `now / kRollPerSeconds_ * kRollPerSeconds_`.
abbrev pub period_of : ℕ → ℕ
period_of now = now / roll_per_seconds * roll_per_seconds

pub roll_file : LogFile → ℕ → LogFile
unfolding new_file
roll_file l now =
    if ltb l.last_roll now
    then record l {
      last_roll = now;
      last_flush = now;
      start_of_period = period_of now;
      file = new_file;
      closed = l.file ∷ l.closed;
    }
    else l

-- The constructor; with no file yet, `none`, where `rollFile` opens none.
pub new_log_file : ℕ → ℕ → ℕ → Option LogFile
unfolding new_file
new_log_file roll_size flush_interval now =
    if ltb 0 now
    then some (record {
      roll_size = roll_size;
      flush_interval = flush_interval;
      count = 0;
      start_of_period = period_of now;
      last_roll = now;
      last_flush = now;
      file = new_file;
      closed = [];
    })
    else none

-- The periodic check of `append_unlocked`; `rollFile` reads the clock again, as `roll_now`.
pub check_time : LogFile → ℕ → ℕ → LogFile
check_time l now roll_now =
    if not (period_of now == l.start_of_period)
    then roll_file (record l { count = 0 }) roll_now
    else if ltb (l.last_flush + l.flush_interval) now
    then record l { count = 0; last_flush = now; file = file_flush l.file }
    else record l { count = 0 }

-- `append_unlocked`, with the results of the writes, and the times that it and `rollFile` read.
pub append_unlocked : LogFile → List ℕ → ℕ → Writes → Bool → ℕ → ℕ → Option LogFile
append_unlocked l line n ws failed now roll_now = do
  file ← file_append l.file line n ws failed
  let l' : LogFile = record l { file = file }
  some (
      if ltb l'.roll_size file.written_bytes
      then roll_file l' roll_now
      else if ltb check_time_roll l'.count
      then check_time l' now roll_now
      else record l' { count = l'.count + 1 })
