-- ===== src/Threads/Preemptive/Console.antt =====
-- preemptive-threads/preemptive-thread.c: what the system calls for the console do with the lock
-- and with the places of threads.
use dfs_pios_ro.Base.{
  ℕ, Outcome, ◌≡◌, true, ◌⊎◌, some, ok, false, ◌∷◌, ◌≢◌, [], Bool, arith, ◌++◌, ◌<◌, elem_at,
  length, >>=-ok, set, length-set, ◌∙◌, refl, inl, inr, copies-last, hit_self,
}
use dfs_pios_ro.Threads.Preemptive.{Kernel, Thread, stdio_is_idle, write_stdio_tid, stdio}
use dfs_pios_ro.Threads.Preemptive.Handlers.{block_current, request_stdout, request_stdin}
use dfs_pios_ro.Threads.Preemptive.Places.{
  IsApart, IsIdle, IsRunning, IsApart-less, allocated_of_held, update_eq, to_scheduler-IsIdle,
  deref-eq,
}

-- The console is free for thread `id`, or another thread has it.
abbrev pub IsFree : Kernel → ℕ → Type 0
IsFree k id = (k.stdout_lock ≡ 0) ⊎ (k.stdout_lock ≡ id)

pub stdio_is_idle-cases :
    (k : Kernel) (id : ℕ)
    → ((stdio_is_idle k id ≡ true) × IsFree k id)
      ⊎ ((stdio_is_idle k id ≡ false) × (k.stdout_lock ≢ 0) × (k.stdout_lock ≢ id))
unfolding stdio_is_idle
stdio_is_idle-cases k id = ground arith

-- What a call leaves: the thread runs on, or the scheduler runs.
abbrev pub Lands : Outcome (ℕ × Kernel) → Type 0
Lands r = (sp : ℕ) × (k' : Kernel) × (r ≡ ok (sp, k')) × (IsRunning k' ⊎ IsIdle k')

module _ {k : Kernel} {s a : ℕ} (sched : k.scheduler_thread ≡ some s) (cur : k.cur_thread ≡ some a)
    (apart : IsApart k (a ∷ [])) where
  current-allocated : a < length k.blocks
  current-allocated = allocated_of_held apart a (rw (hit_self a) (omega arith))

  -- The running thread stays in hand when only its block changes.
  IsRunning-set :
      (t : Thread) (lock : ℕ) (tx rx : Bool)
      → IsRunning (record k {
        blocks = set k.blocks a t;
        stdout_lock = lock;
        tx_interrupt = tx;
        rx_interrupt = rx;
      })
  IsRunning-set t lock tx rx = (
    s,
    sched,
    (a, cur, IsApart-less apart (λ b. omega arith) (rw (length-set k.blocks a t) (omega arith))),
  )

  block_current-IsIdle :
      (sp : ℕ)
      → (next_sp : ℕ) × (k' : Kernel) × (block_current k a sp ≡ ok (next_sp, k'))
        × IsIdle k'
        × (k'.blockq ≡ k.blockq ++ (a ∷ []))
        × (k'.stdout_lock ≡ k.stdout_lock)
  unfolding block_current
  block_current-IsIdle sp =
      let f : Thread → Thread = λ t. record t { saved_sp = sp; block_reason = stdio } in
      let (t, at, updated) = update_eq k a f current-allocated in
      let queued = record k { blocks = set k.blocks a (f t); blockq = k.blockq ++ (a ∷ []) } in
      let apart' : IsApart queued [] =
        IsApart-less apart (λ b. omega (arith, copies-last b k.blockq a))
          (rw (length-set k.blocks a (f t)) (omega arith)) in
      let (next_sp, e, idle) = to_scheduler-IsIdle sched apart' in
      (
        next_sp,
        record queued { cur_thread = k.scheduler_thread },
        >>=-ok _ updated ∙ e,
        idle,
        refl,
        refl,
      )

  -- From a state in which a thread runs with every block in one place, REQUEST_STDOUT always
  -- returns: if the console is free or already the thread's, the thread goes on and owns it; else
  -- the scheduler runs, the thread stands behind `blockq`, and the console keeps its owner.
  pub request_stdout-owner :
      (t : Thread)
      → elem_at k.blocks a ≡ ok t
      → (sp : ℕ)
      → (next_sp : ℕ) × (k' : Kernel) × (request_stdout k sp ≡ ok (next_sp, k'))
        × ((IsFree k t.tid × IsRunning k' × (next_sp ≡ sp) × (k'.stdout_lock ≡ t.tid))
            ⊎ ((k.stdout_lock ≢ 0)
                × (k.stdout_lock ≢ t.tid)
                × IsIdle k'
                × (k'.blockq ≡ k.blockq ++ (a ∷ []))
                × (k'.stdout_lock ≡ k.stdout_lock)))
  unfolding request_stdout write_stdio_tid
  request_stdout-owner t at sp =
      let entered : request_stdout k sp ≡ _ = >>=-ok _ (deref-eq cur) ∙ >>=-ok _ at in
      elim (stdio_is_idle-cases k t.tid) [
        | inl (idle, free) ↦
            let f : Thread → Thread = λ u. record u { block_reason = stdio } in
            let (u, there, updated) =
              update_eq (record k { stdout_lock = t.tid }) a f current-allocated in
            (
              sp,
              record k { blocks = set k.blocks a (f u); stdout_lock = t.tid },
              entered ∙ rw idle (>>=-ok _ updated),
              inl (free, IsRunning-set (f u) t.tid k.tx_interrupt k.rx_interrupt, refl, refl),
            )
        | inr (busy, taken, foreign) ↦
            let (next_sp, k', e, idle, queued, lock) = block_current-IsIdle sp in
            (next_sp, k', entered ∙ rw busy e, inr (taken, foreign, idle, queued, lock))
      ]

  -- A thread asks for input: it sleeps until there is some and owns the console, if the console was
  -- free for it; else it waits behind the blocked threads and the console keeps its owner.
  pub request_stdin-owner :
      (t : Thread)
      → elem_at k.blocks a ≡ ok t
      → (sp : ℕ)
      → (next_sp : ℕ) × (k' : Kernel) × (request_stdin k sp ≡ ok (next_sp, k'))
        × IsIdle k'
        × ((IsFree k t.tid
              × (k'.stdout_lock ≡ t.tid)
              × (k'.wait_stdin_thread ≡ some a)
              × (k'.rx_interrupt ≡ true))
            ⊎ ((k.stdout_lock ≢ 0)
                × (k.stdout_lock ≢ t.tid)
                × (k'.blockq ≡ k.blockq ++ (a ∷ []))
                × (k'.stdout_lock ≡ k.stdout_lock)))
  unfolding request_stdin write_stdio_tid
  request_stdin-owner t at sp =
      let entered : request_stdin k sp ≡ _ = >>=-ok _ (deref-eq cur) ∙ >>=-ok _ at in
      elim (stdio_is_idle-cases k t.tid) [
        | inl (idle, free) ↦
            let f : Thread → Thread = λ u. record u { saved_sp = sp; block_reason = stdio } in
            let owned = record k { rx_interrupt = true; stdout_lock = t.tid } in
            let (u, there, updated) = update_eq owned a f current-allocated in
            let asleep = record owned {
              blocks = set k.blocks a (f u);
              wait_stdin_thread = some a;
            } in
            let apart' : IsApart asleep [] =
              IsApart-less apart (λ b. omega arith)
                (rw (length-set k.blocks a (f u)) (omega arith)) in
            let (next_sp, e, idle') = to_scheduler-IsIdle sched apart' in
            (
              next_sp,
              record asleep { cur_thread = k.scheduler_thread },
              entered ∙ rw idle (>>=-ok _ updated ∙ e),
              idle',
              inl (free, refl, refl, refl),
            )
        | inr (busy, taken, foreign) ↦
            let (next_sp, k', e, idle, queued, lock) = block_current-IsIdle sp in
            (next_sp, k', entered ∙ rw busy e, idle, inr (taken, foreign, queued, lock))
      ]
