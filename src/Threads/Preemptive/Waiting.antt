-- ===== src/Threads/Preemptive/Waiting.antt =====
-- preemptive-threads/preemptive-thread.c: the test for a thread that has to wait, and the switch to
-- one that has not.
use dfs_pios_ro.Base.{
  ◌≡◌, ℕ, some, elem_at, true, ◌≢◌, ◌<◌, ok, length, ◌⊎◌, false, set, ok-injective, not, ◌&&◌, sym,
  inl, ◌∙◌, if◌then◌else◌, inr, refl, ◌>>=◌, >>=-ok,
}
use dfs_pios_ro.Threads.Preemptive.{
  Kernel, Thread, update, deref, stdio_is_idle, write_stdio_tid, stdio, no_reason, is_stdio,
}
use dfs_pios_ro.Threads.Preemptive.Scheduler.{must_wait, run_thread}
use dfs_pios_ro.Threads.Preemptive.Places.{update_eq, deref-eq}
use dfs_pios_ro.Threads.Preemptive.Console.{IsFree, stdio_is_idle-cases}

-- Thread `a` needs the console and another thread has it.
abbrev pub IsWaiting : Kernel → ℕ → Type 0
IsWaiting k a =
    (t : Thread) × (elem_at k.blocks a ≡ ok t)
    × (t.block_reason ≡ stdio)
    × (k.stdout_lock ≢ 0)
    × (k.stdout_lock ≢ t.tid)

pub must_wait-cases :
    (k : Kernel) (t : Thread)
    → ((must_wait k t ≡ true)
        × (t.block_reason ≡ stdio)
        × (k.stdout_lock ≢ 0)
        × (k.stdout_lock ≢ t.tid))
      ⊎ ((must_wait k t ≡ false) × ((t.block_reason ≡ stdio) → IsFree k t.tid))
must_wait-cases k t =
    elim t.block_reason
      as (λ r.
        ((not (stdio_is_idle k t.tid) && is_stdio r ≡ true)
          × (r ≡ stdio)
          × (k.stdout_lock ≢ 0)
          × (k.stdout_lock ≢ t.tid))
        ⊎ ((not (stdio_is_idle k t.tid) && is_stdio r ≡ false) × ((r ≡ stdio) → IsFree k t.tid))) [
          | no_reason ↦ elim (stdio_is_idle-cases k t.tid) [
            | inl (idle, free) ↦ inr (rw idle refl, λ _. free)
            | inr (busy, taken, foreign) ↦ inr (rw busy refl, λ e. absurd (cc))
          ]
          | stdio ↦ elim (stdio_is_idle-cases k t.tid) [
            | inl (idle, free) ↦ inr (rw idle refl, λ _. free)
            | inr (busy, taken, foreign) ↦ inl (rw busy refl, refl, taken, foreign)
          ]
        ]

-- The lock behind a switch to thread `t`.
abbrev pub lock_of : Kernel → Thread → ℕ
lock_of k t = elim t.block_reason [ stdio ↦ t.tid | no_reason ↦ k.stdout_lock ]

pub run_thread_eq :
    (k : Kernel) (s a : ℕ) (t : Thread) (sp : ℕ)
    → k.scheduler_thread ≡ some s
    → s < length k.blocks
    → (u : Thread) × (elem_at k.blocks s ≡ ok u)
      × (run_thread k a t sp
          ≡ ok (
            some t.saved_sp,
            record k {
              blocks = set k.blocks s (record u { saved_sp = sp });
              stdout_lock = lock_of k t;
              cur_thread = some a;
            },
          ))
unfolding run_thread write_stdio_tid
run_thread_eq k s a t sp sched lt =
    let (u, at, updated) = update_eq k s (λ v. record v { saved_sp = sp }) lt in
    let (v, at', updated') =
      update_eq (record k { stdout_lock = t.tid }) s (λ v. record v { saved_sp = sp }) lt in
    let same : u ≡ v = ok-injective u v (sym at ∙ at') in
    (
      u,
      at,
      elim t.block_reason
          as (λ r.
            (do
              let k' = if is_stdio r then record k { stdout_lock = t.tid } else k
              s' ← deref k'.scheduler_thread
              k'' ← update k' s' (λ w. record w { saved_sp = sp })
              ok (some t.saved_sp, record k'' { cur_thread = some a }))
            ≡ ok (
              some t.saved_sp,
              record k {
                blocks = set k.blocks s (record u { saved_sp = sp });
                stdout_lock = elim r [ stdio ↦ t.tid | no_reason ↦ k.stdout_lock ];
                cur_thread = some a;
              },
            )) [
              | no_reason ↦ >>=-ok _ (deref-eq sched) ∙ >>=-ok _ updated
              | stdio ↦ >>=-ok _ (deref-eq sched) ∙ (>>=-ok _ updated' ∙ rw same refl)
            ],
    )
