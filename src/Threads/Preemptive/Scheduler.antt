-- ===== src/Threads/Preemptive/Scheduler.antt =====
-- preemptive-threads/preemptive-thread.c: `pre_thread_start`, whose loop is the scheduler. One
-- round ends where it switches to a thread, and the next begins when control comes back.
use dfs_pios_ro.Base.{
  List, Option, Outcome, Bool, ℕ, false, true, ◌>>=◌, not, if◌then◌else◌, some, ok, ◌∷◌, ◌||◌, ◌&&◌,
  none, ◌++◌, [], elem_at,
}
use dfs_pios_ro.Threads.Preemptive.{
  Kernel, Thread, is_stdio, deref, update, stdio_is_idle, write_stdio_tid, th_alloc, no_reason,
  stdio,
}
use dfs_pios_ro.Circular.{cq_empty, cq_init}

-- `stdio_init`.
unfoldable pub stdio_init : Kernel → Outcome Kernel
unfolding cq_init
stdio_init k = do
  put_q ← cq_init true
  get_q ← cq_init true
  ok (record k { put_q = put_q; get_q = get_q })

-- The scheduler's own block is made once.
unfoldable pub ensure_scheduler : Kernel → Option ℕ → Outcome Kernel
unfolding th_alloc
ensure_scheduler k (some a) = ok k
ensure_scheduler k none = do
  (a, k') ← th_alloc k
  ok (record k' { scheduler_thread = some a; cur_thread = some a })

abbrev pub is_some : Option ℕ → Bool
is_some none = false
is_some (some a) = true

abbrev pub is_empty : List ℕ → Bool
is_empty [] = true
is_empty (a ∷ rest) = false

-- The condition of the loop.
unfoldable pub has_work : Kernel → Bool
has_work k =
    not (is_empty k.runq)
    || not (is_empty k.blockq)
    || is_some k.wait_stdout_thread
    || is_some k.wait_stdin_thread

-- A thread that waits for input runs again when there is some.
unfoldable pub wake_stdin : Kernel → Option ℕ → Kernel
unfolding cq_empty
wake_stdin k none = k
wake_stdin k (some a) =
    if not (cq_empty k.get_q)
    then record k { runq = k.runq ++ (a ∷ []); wait_stdin_thread = none }
    else k

-- A thread that waits for its output runs again when all of it is sent.
unfoldable pub wake_stdout : Kernel → Option ℕ → Outcome Kernel
unfolding cq_empty write_stdio_tid update
wake_stdout k none = ok k
wake_stdout k (some a) =
    if cq_empty k.put_q
    then (do
      k' ← update (write_stdio_tid k 0) a (λ t. record t { block_reason = no_reason })
      ok (record k' { runq = k'.runq ++ (a ∷ []); wait_stdout_thread = none }))
    else ok k

-- The loop over the threads in front of `blockq`.
unfoldable pub unblock : List ℕ → Kernel → Outcome Kernel
unblock [] k = ok k
unblock (a ∷ rest) k = do
  t ← elem_at k.blocks a
  elim t.block_reason [
    | stdio ↦ unblock rest (record k { blockq = rest; runq = k.runq ++ (a ∷ []) })
    | no_reason ↦ ok k
  ]

-- A thread may not run while it needs the console and another thread has it.
abbrev pub must_wait : Kernel → Thread → Bool
must_wait k t = not (stdio_is_idle k t.tid) && is_stdio t.block_reason

-- The switch from the scheduler, whose context is saved at `sp`.
unfoldable pub run_thread : Kernel → ℕ → Thread → ℕ → Outcome (Option ℕ × Kernel)
unfolding update write_stdio_tid
run_thread k a t sp = do
  let k' = if is_stdio t.block_reason then write_stdio_tid k t.tid else k
  s ← deref k'.scheduler_thread
  k'' ← update k' s (λ u. record u { saved_sp = sp })
  ok (some t.saved_sp, record k'' { cur_thread = some a })

-- The loop over the threads in front of `runq`.
unfoldable pub pick : List ℕ → Kernel → ℕ → Outcome (Option ℕ × Kernel)
unfolding stdio_is_idle run_thread
pick [] k sp = ok (none, k)
pick (a ∷ rest) k sp = do
  let k' = record k { runq = rest }
  t ← elem_at k'.blocks a
  elim (must_wait k' t) [
    | true ↦ pick rest (record k' { blockq = k'.blockq ++ (a ∷ []) }) sp
    | false ↦ run_thread k' a t sp
  ]

-- One round of the loop of the scheduler: the context that it switches to, `none` if it finds no
-- thread to run.
unfoldable pub schedule : Kernel → ℕ → Outcome (Option ℕ × Kernel)
unfolding wake_stdin wake_stdout unblock pick stdio_is_idle
schedule k sp = do
  let k1 = wake_stdin k k.wait_stdin_thread
  k2 ← wake_stdout k1 k1.wait_stdout_thread
  k3 ← if stdio_is_idle k2 0 then unblock k2.blockq k2 else ok k2
  pick k3.runq k3 sp
