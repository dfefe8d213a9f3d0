-- ===== src/Logging/Logger.antt =====
-- The class `Logger` of logging/Logging.h and Logging.cc: one line of the log, from its macro to its
-- output. What `gmtime_r` and `snprintf` make of the time and of the thread's id, the error number with
-- its text, and the global level are arguments. A failed assertion is `none`; texts are lists of bytes.
mod Growth
pub mod Lines
pub mod Names
mod Examples
use learn_for_cpp.Base.{
  ℕ, Bool, true, false, Option, none, some, List, [], ◌∷◌, ◌++◌, length, drop, leb, ◌==◌, not,
  if◌then◌else◌, ◌>>=◌, ◌>>◌, assert,
}
use learn_for_cpp.Base.Int.{pos}
use learn_for_cpp.Logging.Stream.{
  FixedBuffer, Item, text, integer, character, new_stream, put_all, to_string,
}

-- `LogLevel`, in the order of the source.
pub data LogLevel : Type 0 where
  trace debug info warn error fatal : LogLevel

abbrev pub level_number : LogLevel → ℕ
level_number trace = 0
level_number debug = 1
level_number info = 2
level_number warn = 3
level_number error = 4
level_number fatal = 5

-- `LogLevelname`.
abbrev pub level_name : LogLevel → List ℕ
level_name trace = b'[' ∷ b'T' ∷ b'R' ∷ b'A' ∷ b'C' ∷ b'E' ∷ b']' ∷ b' ' ∷ []
level_name debug = b'[' ∷ b'D' ∷ b'E' ∷ b'B' ∷ b'U' ∷ b'G' ∷ b']' ∷ b' ' ∷ []
level_name info = b'[' ∷ b'I' ∷ b'N' ∷ b'F' ∷ b'O' ∷ b' ' ∷ b']' ∷ b' ' ∷ []
level_name warn = b'[' ∷ b'W' ∷ b'A' ∷ b'R' ∷ b'N' ∷ b' ' ∷ b']' ∷ b' ' ∷ []
level_name error = b'[' ∷ b'E' ∷ b'R' ∷ b'R' ∷ b'O' ∷ b'R' ∷ b']' ∷ b' ' ∷ []
level_name fatal = b'[' ∷ b'F' ∷ b'A' ∷ b'T' ∷ b'A' ∷ b'L' ∷ b']' ∷ b' ' ∷ []

-- `initLogLevel`, with whether JIANGBO_LOG_TRACE is set.
pub init_log_level : Bool → LogLevel
init_log_level has_env = if has_env then trace else debug

abbrev pub slash : ℕ
slash = b'/'

-- `strrchr`: from the last such byte on.
pub strrchr : List ℕ → ℕ → Option (List ℕ)
strrchr [] c = none
strrchr (x ∷ xs) c = elim (strrchr xs c) [
  | some s ↦ some s
  | none ↦ if x == c then some (x ∷ xs) else none
]

pub base_name : List ℕ → List ℕ
base_name fullname = elim (strrchr fullname slash) [ some s ↦ drop 1 s | none ↦ fullname ]

-- `t_lastSecond` and `t_time`.
pub record Cache : Type 0 where
  pub last_second : ℕ
  pub time : List ℕ

-- Of one line: the second, what `snprintf` makes of it, of the microseconds and of the thread's id,
-- the error number with `strerror_tl`, the function's name, and the place in the source.
pub record Context : Type 0 where
  pub second : ℕ
  pub time : List ℕ
  pub us : List ℕ
  pub tid : List ℕ
  pub errno : ℕ
  pub error_text : List ℕ
  pub func : List ℕ
  pub file : List ℕ
  pub line : ℕ

pub record Impl : Type 0 where
  pub stream : FixedBuffer
  pub level : LogLevel
  pub line : ℕ
  pub base_name : List ℕ

-- The time is put together once in a second.
pub update_cache : Cache → Context → Option Cache
update_cache t c =
    if c.second == t.last_second
    then some t
    else (do assert (length c.time == 20); some (record { last_second = c.second; time = c.time }))

-- `formatTime`; the constructor of `T` checks the length of its text.
pub format_time : Cache → Context → FixedBuffer → Option (Cache × FixedBuffer)
format_time t c s = do
  t' ← update_cache t c
  assert (length c.us == 10)
  assert (length t'.time == 20)
  s' ← put_all s (text t'.time ∷ text c.us ∷ [])
  some (t', s')

-- " (errno=" and ") ".
abbrev pub errno_open : List ℕ
errno_open = b' ' ∷ b'(' ∷ b'e' ∷ b'r' ∷ b'r' ∷ b'n' ∷ b'o' ∷ b'=' ∷ []

abbrev pub errno_close : List ℕ
errno_close = b')' ∷ b' ' ∷ []

abbrev pub errno_items : Context → ℕ → List Item
errno_items c saved_errno =
    if saved_errno == 0
    then []
    else text c.error_text ∷ text errno_open ∷ integer (pos saved_errno) ∷ text errno_close ∷ []

-- `Impl::Impl`.
pub new_impl : Cache → Context → LogLevel → ℕ → Option (Cache × Impl)
new_impl t c level saved_errno = do
  (t', s) ← format_time t c new_stream
  assert (length c.tid == 9)
  s' ← put_all s (text c.tid ∷ text (level_name level) ∷ errno_items c saved_errno)
  some (t', record { stream = s'; level = level; line = c.line; base_name = base_name c.file })

-- "-", ":" and "\n".
abbrev pub finish_items : Impl → List Item
finish_items l =
    text (b'-' ∷ [])
    ∷ text l.base_name
    ∷ text (b':' ∷ [])
    ∷ integer (pos l.line)
    ∷ text (10 ∷ [])
    ∷ []

pub finish : Impl → Option Impl
finish l = do s ← put_all l.stream (finish_items l); some (record l { stream = s })

-- What the destructor does: the line goes to `g_output`; a fatal one is flushed and ends the program.
pub record Ended : Type 0 where
  pub output : List ℕ
  pub flushed : Bool
  pub aborted : Bool

abbrev pub is_fatal : LogLevel → Bool
is_fatal fatal = true
is_fatal _ = false

pub destroy : Impl → Option Ended
destroy l = do
  l' ← finish l
  output ← to_string l'.stream
  some (record { output = output; flushed = is_fatal l'.level; aborted = is_fatal l'.level })

-- The macros.
pub data Macro : Type 0 where
  log_trace log_debug log_info log_warn log_error log_fatal log_syserr log_sysfatal : Macro

-- `logLevel() <= …`, where a macro has that test.
abbrev pub is_enabled : LogLevel → Macro → Bool
is_enabled g log_trace = leb (level_number g) (level_number trace)
is_enabled g log_debug = leb (level_number g) (level_number debug)
is_enabled g log_info = leb (level_number g) (level_number info)
is_enabled g _ = true

-- The level of the line, the error number and the function's name that it shows; the last two macros
-- both call the constructor with `toAbort` false.
abbrev pub level_of : Macro → LogLevel
level_of log_trace = trace
level_of log_debug = debug
level_of log_info = info
level_of log_warn = warn
level_of log_error = error
level_of log_fatal = fatal
level_of log_syserr = error
level_of log_sysfatal = error

abbrev pub errno_of : Macro → Context → ℕ
errno_of log_syserr c = c.errno
errno_of log_sysfatal c = c.errno
errno_of _ c = 0

abbrev pub func_items : Macro → Context → List Item
func_items log_trace c = text c.func ∷ character b' ' ∷ []
func_items log_debug c = text c.func ∷ character b' ' ∷ []
func_items _ c = []

-- A statement `LOG_… << items`, and what is left of it; no line where it is not enabled.
pub log : LogLevel → Macro → Cache → Context → List Item → Option (Cache × Option Ended)
log g m t c items =
    if is_enabled g m
    then (do
      (t', l) ← new_impl t c (level_of m) (errno_of m c)
      s ← put_all l.stream (func_items m c ++ items)
      e ← destroy (record l { stream = s })
      some (t', some e))
    else some (t, none)
