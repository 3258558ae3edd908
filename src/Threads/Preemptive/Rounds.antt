-- ===== src/Threads/Preemptive/Rounds.antt =====
-- preemptive-threads/preemptive-thread.c: a round of the scheduler, the places of threads, and the
-- thread that it chooses.
use dfs_pios_ro.Base.{
  ℕ, List, ◌≡◌, Option, ok, some, ◌∷◌, arith, if_ind, [], ◌++◌, set, none, >>=-ok, ◌∙◌, length-set,
  refl, sym, ap, append-nil, append_assoc, copies-last, hit_self,
}
use dfs_pios_ro.Threads.Preemptive.{
  Kernel, Thread, write_stdio_tid, stdio, no_reason, stdio_is_idle,
}
use dfs_pios_ro.Threads.Preemptive.Scheduler.{wake_stdin, wake_stdout, unblock, schedule, pick}
use dfs_pios_ro.Threads.Preemptive.Rousing.{Roused, Roused-stages}
use dfs_pios_ro.Threads.Preemptive.Places.{
  IsApart, IsApart-less, allocated_of_held, elem_at-in, update_eq, IsReady-set, IsReady,
}

-- The scheduler runs: its thread stays the current one.
abbrev pub IsIdleOf : ℕ → Kernel → Type 0
IsIdleOf s k = (k.scheduler_thread ≡ some s) × (k.cur_thread ≡ some s) × IsApart k []

-- Threads are only woken: some come behind `runq`, and none comes to need the console.
pub record Woke (k k' : Kernel) : Type 0 where
  pub woken : List ℕ
  pub queued : k'.runq ≡ k.runq ++ woken
  pub still_ready : (b : ℕ) → IsReady k.blocks b → IsReady k'.blocks b

Woke-refl : (k : Kernel) → Woke k k
Woke-refl k = record {
  woken = [];
  queued = sym (append-nil k.runq);
  still_ready = λ b ready. ready;
}

Woke-trans : {k1 k2 k3 : Kernel} → Woke k1 k2 → Woke k2 k3 → Woke k1 k3
Woke-trans {k1} {k2} {k3} w v = record {
  woken = w.woken ++ v.woken;
  queued = v.queued ∙ (ap (λ q. q ++ v.woken) w.queued ∙ append_assoc k1.runq w.woken v.woken);
  still_ready = λ b ready. v.still_ready b (w.still_ready b ready);
}

-- What waking threads leaves.
abbrev Awake : ℕ → Kernel → Kernel → Type 0
Awake s k k' = IsIdleOf s k' × Woke k k'

wake_stdin-Awake :
    (s : ℕ) (k : Kernel) (w : Option ℕ)
    → k.wait_stdin_thread ≡ w
    → IsIdleOf s k
    → Awake s k (wake_stdin k w)
unfolding wake_stdin
wake_stdin-Awake s k none e idle = (idle, Woke-refl k)
wake_stdin-Awake s k (some a) e (sched, cur, apart) =
    if_ind (Awake s k) _
      (
        (
          sched,
          cur,
          IsApart-less apart (λ b. rw e (omega (arith, copies-last b k.runq a))) (omega arith),
        ),
        record { woken = a ∷ []; queued = refl; still_ready = λ b ready. ready },
      )
      ((sched, cur, apart), Woke-refl k)

wake_stdout-Awake :
    (s : ℕ) (k : Kernel) (w : Option ℕ)
    → k.wait_stdout_thread ≡ w
    → IsIdleOf s k
    → (k' : Kernel) × (wake_stdout k w ≡ ok k') × Awake s k k'
unfolding wake_stdout write_stdio_tid
wake_stdout-Awake s k none e idle = (k, refl, (idle, Woke-refl k))
wake_stdout-Awake s k (some a) e (sched, cur, apart) =
    let f : Thread → Thread = λ t. record t { block_reason = no_reason } in
    let lt = allocated_of_held apart a (rw (e, hit_self a) (omega arith)) in
    let (t, at, updated) = update_eq (record k { stdout_lock = 0 }) a f lt in
    let k' = record k {
      blocks = set k.blocks a (f t);
      stdout_lock = 0;
      runq = k.runq ++ (a ∷ []);
      wait_stdout_thread = none;
    } in
    if_ind (λ r. (k' : Kernel) × (r ≡ ok k') × Awake s k k') _
      (
        k',
        >>=-ok _ updated,
        (
          (
            sched,
            cur,
            IsApart-less apart (λ b. rw e (omega (arith, copies-last b k.runq a)))
                (rw (length-set k.blocks a (f t)) (omega arith)),
          ),
          record {
            woken = a ∷ [];
            queued = refl;
            still_ready = IsReady-set k.blocks a t (f t) lt at (λ ready. refl);
          },
        ),
      )
      (k, refl, ((sched, cur, apart), Woke-refl k))

unblock-Awake :
    (s : ℕ) (queue : List ℕ) (k : Kernel)
    → k.blockq ≡ queue
    → IsIdleOf s k
    → (k' : Kernel) × (unblock queue k ≡ ok k') × Awake s k k'
unfolding unblock
unblock-Awake s [] k e idle = (k, refl, (idle, Woke-refl k))
unblock-Awake s (a ∷ rest) k e (sched, cur, apart) =
    let lt = allocated_of_held apart a (rw (e, hit_self a) (omega arith)) in
    let (t, at) = elem_at-in k.blocks a lt in
    let moved = record k { blockq = rest; runq = k.runq ++ (a ∷ []) } in
    let apart' : IsApart moved [] =
      IsApart-less apart (λ b. rw e (omega (arith, copies-last b k.runq a))) (omega arith) in
    let woke : Woke k moved = record {
      woken = a ∷ [];
      queued = refl;
      still_ready = λ b ready. ready;
    } in
    let (k', later, (idle, woke')) = unblock-Awake s rest moved refl (sched, cur, apart') in
    let (k'', e', awake) =
      elim t.block_reason
        as (λ reason.
          (k' : Kernel) × ((elim reason [ stdio ↦ unblock rest moved | no_reason ↦ ok k ]) ≡ ok k')
          × Awake s k k') [
            | no_reason ↦ (k, refl, ((sched, cur, apart), Woke-refl k))
            | stdio ↦ (k', later, (idle, Woke-trans woke woke'))
          ] in
    (k'', >>=-ok _ at ∙ e', awake)

-- A round wakes threads, and then chooses one.
pub schedule-awake :
    (s : ℕ) (k : Kernel) (sp : ℕ)
    → IsIdleOf s k
    → (k' : Kernel) × (schedule k sp ≡ pick k'.runq k' sp) × IsIdleOf s k' × Woke k k' × Roused k k'
unfolding schedule
schedule-awake s k sp idle =
    let k1 = wake_stdin k k.wait_stdin_thread in
    let (idle1, woke1) = wake_stdin-Awake s k k.wait_stdin_thread refl idle in
    let (k2, e2, (idle2, woke2)) = wake_stdout-Awake s k1 k1.wait_stdout_thread refl idle1 in
    let (k3, e3, (idle3, woke3)) =
      if_ind (λ r. (k3 : Kernel) × (r ≡ ok k3) × Awake s k2 k3) (stdio_is_idle k2 0)
        (unblock-Awake s k2.blockq k2 refl idle2) (k2, refl, (idle2, Woke-refl k2)) in
    (
      k3,
      >>=-ok _ e2 ∙ >>=-ok _ e3,
      idle3,
      Woke-trans woke1 (Woke-trans woke2 woke3),
      Roused-stages k k2 k3 e2 e3,
    )
