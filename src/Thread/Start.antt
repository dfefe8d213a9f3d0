-- ===== src/Thread/Start.antt =====
-- The class `Thread` of thread/Thread.h and thread/Thread.cc, and what `CurrentThread` keeps for each
-- thread. A failed assertion and `abort` are `none`. What `pthread_create`, `gettid` and `getpid`
-- return is an argument, and whether the `Thread` object still lives when its thread begins. Calls of
-- pthread are put in front of `effects`. A name is its list of bytes.
pub mod Released
pub mod Current
mod Examples
use learn_for_cpp.Base.{
  ℕ, ◌+◌, Bool, true, false, not, ◌&&◌, Option, none, some, List, [], ◌∷◌, ◌==◌, if◌then◌else◌,
  ◌>>=◌, ◌>>◌, assert,
}

-- `pthread_create`, `pthread_join` and `pthread_detach`.
pub data Effect : Type 0 where
  created joined detached : Effect

pub record Thread : Type 0 where
  pub started : Bool
  pub joined : Bool
  -- `*tid_`.
  pub tid : ℕ
  pub name : List ℕ
  pub effects : List Effect

-- The object, and the counter `numCreated_` (no int32_t overflow).
unfoldable pub new_thread : List ℕ → ℕ → Thread × ℕ
new_thread name num_created = (
  record { started = false; joined = false; tid = 0; name = name; effects = [] },
  num_created + 1,
)

-- With whether `pthread_create` succeeds; where it does not, the code aborts.
unfoldable pub start : Thread → Bool → Option Thread
start t ok = do
  assert (not t.started)
  assert ok
  some (record t { started = true; effects = created ∷ t.effects })

unfoldable pub join : Thread → Option Thread
join t = do
  assert t.started
  assert (not t.joined)
  some (record t { joined = true; effects = Effect.joined ∷ t.effects })

unfoldable pub destroy : Thread → Thread
destroy t = if t.started && not t.joined then record t { effects = detached ∷ t.effects } else t

-- `t_cachedTid` and `t_threadName`.
pub record Local : Type 0 where
  pub cached_tid : ℕ
  pub thread_name : List ℕ

-- "unknown".
abbrev pub unknown : List ℕ
unknown = b'u' ∷ b'n' ∷ b'k' ∷ b'n' ∷ b'o' ∷ b'w' ∷ b'n' ∷ []

-- "main".
abbrev pub main : List ℕ
main = b'm' ∷ b'a' ∷ b'i' ∷ b'n' ∷ []

-- "jiangboThread".
abbrev pub default_name : List ℕ
default_name =
    b'j' ∷ b'i' ∷ b'a' ∷ b'n' ∷ b'g' ∷ b'b' ∷ b'o' ∷ b'T' ∷ b'h' ∷ b'r' ∷ b'e' ∷ b'a' ∷ b'd' ∷ []

-- "finished".
abbrev pub finished : List ℕ
finished = b'f' ∷ b'i' ∷ b'n' ∷ b'i' ∷ b's' ∷ b'h' ∷ b'e' ∷ b'd' ∷ []

pub new_local : Local
new_local = record { cached_tid = 0; thread_name = unknown }

-- `CurrentThread::tid`, with what `gettid` would return.
pub tid : Local → ℕ → ℕ × Local
tid l id =
    let l' = if l.cached_tid == 0 then record l { cached_tid = id } else l in (l'.cached_tid, l')

pub after_fork : Local → ℕ → Local
after_fork l id = record { cached_tid = id; thread_name = main }

pub is_main_thread : Local → ℕ → ℕ → Bool × Local
is_main_thread l id pid = let (t, l') = tid l id in (t == pid, l')

-- What is written to `*tid_`, and the thread's own data while `func_` runs and at the end.
pub record Run : Type 0 where
  pub told : Option ℕ
  pub during : Local
  pub after : Local

abbrev pub name_or_default : List ℕ → List ℕ
name_or_default [] = default_name
name_or_default (c ∷ cs) = c ∷ cs

-- `ThreadData::runInThread`; `func_` may call `tid`, with `ids` from `gettid`.
abbrev pub tid_each : Local → List ℕ → List ℕ × Local
tid_each l [] = ([], l)
tid_each l (id ∷ ids) = let (t, l') = tid l id in let (ts, l'') = tid_each l' ids in (t ∷ ts, l'')

pub run_in_thread : Local → ℕ → List ℕ → Bool → List ℕ → Run
run_in_thread l id name alive ids =
    let (t, l') = tid l id in
    let during = record l' { thread_name = name_or_default name } in
    record {
      told = if alive then some t else none;
      during = during;
      after = record ((tid_each during ids).1) { thread_name = finished };
    }
