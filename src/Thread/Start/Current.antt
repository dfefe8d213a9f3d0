-- ===== src/Thread/Start/Current.antt =====
-- What a thread knows of itself while it runs.
use learn_for_cpp.Base.{
  ℕ, ◌≡◌, ◌≢◌, refl, ap, Bool, none, some, List, [], ◌∷◌, arith, if◌then◌else◌, All,
}
use learn_for_cpp.Thread.Start.{
  Local, new_local, tid, tid_each, after_fork, run_in_thread, name_or_default, finished, main,
}

tid_cached : (l : Local) (id other : ℕ) → l.cached_tid ≡ id → id ≢ 0 → tid l other ≡ (id, l)
unfolding tid
tid_cached l id other same ne = ground arith

tid_each_cached :
    (l : Local) (id : ℕ) (ids : List ℕ)
    → l.cached_tid ≡ id
    → id ≢ 0
    → All (λ t. t ≡ id) (tid_each l ids).0 × ((tid_each l ids).1 ≡ l)
tid_each_cached l id [] same ne = (tt, refl)
tid_each_cached l id (i ∷ ids) same ne =
    let e = tid_cached l id i same ne in
    let (all, kept) = tid_each_cached l id ids same ne in rw e ((refl, all), kept)

-- A new thread tells its `Thread` object, where that still lives, the id that the kernel gave it, and
-- while its function runs every call of `tid` returns that id, whatever `gettid` would return; after a
-- fork the child has its own. The thread goes by its name, or by the default one where that is empty,
-- and by "finished" at the end.
pub tid-run_in_thread :
    (id child : ℕ) (name : List ℕ) (alive : Bool) (ids : List ℕ)
    → id ≢ 0
    → child ≢ 0
    → let r = run_in_thread new_local id name alive ids in
      (r.told ≡ (if alive then some id else none))
      × (r.during.thread_name ≡ name_or_default name)
      × All (λ t. t ≡ id) (tid_each r.during ids).0
      × (r.after ≡ record { cached_tid = id; thread_name = finished })
      × All (λ t. t ≡ child) (tid_each (after_fork r.during child) ids).0
unfolding run_in_thread new_local after_fork
tid-run_in_thread id child name alive ids ne ne' =
    let first : tid new_local id ≡ (id, record new_local { cached_tid = id }) =
      unfold tid in ground arith in
    let during : Local = record { cached_tid = id; thread_name = name_or_default name } in
    let (all, kept) = tid_each_cached during id ids refl ne in
    let forked : Local = record { cached_tid = child; thread_name = main } in
    rw first (
      refl,
      refl,
      all,
      ap (λ l. record { cached_tid = l.cached_tid; thread_name = finished }) kept,
      (tid_each_cached forked child ids refl ne').0,
    )
