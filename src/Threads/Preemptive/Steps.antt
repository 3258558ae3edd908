-- ===== src/Threads/Preemptive/Steps.antt =====
-- preemptive-threads/preemptive-thread.c: the thread system as a step relation: what the running
-- thread does, what interrupts it, and the rounds of the scheduler.
use dfs_pios_ro.Threads.Preemptive.Devices.{
  int_vector_uart_pre_threads-IsSound, stdout_queue_to_txfifo-IsSound,
}
use dfs_pios_ro.Threads.Preemptive.Choice.{pick-Picked}
use dfs_pios_ro.Threads.Preemptive.Calls.{syscall_vector-Settled}
use dfs_pios_ro.Threads.Preemptive.Forking.{
  reblocked, pre_exit-IsIdle, th_alloc-IsApart, int_vector_pre_threads-IsIdle, begin_fork-IsApart,
  end_fork-IsApart,
}
use dfs_pios_ro.Threads.Preemptive.Rounds.{schedule-awake}
use dfs_pios_ro.Base.{
  Option, ◌≡◌, ◌≢◌, ℕ, inl, inr, ok, ◌∙◌, Bool, List, sym, arith, ℕ_discrete, ◌%◌, [], u32, none,
  subst, ok-injective, ◌+◌, some, >>=-ok, refl, hit_self, ◌<◌, copies,
}
use dfs_pios_ro.Threads.Preemptive.{Kernel, int_vector_pre_threads, pre_exit, begin_fork, end_fork}
use dfs_pios_ro.Threads.Preemptive.Handlers.{
  syscall_vector, stdout_queue_to_txfifo, int_vector_uart_pre_threads, UartResult,
}
use dfs_pios_ro.Threads.Preemptive.Scheduler.{schedule, ensure_scheduler}
use dfs_pios_ro.Threads.Preemptive.Places.{IsIdle, IsRunning, one, IsSound, IsApart, IsApart-less}

-- A thread runs where the current thread is not the scheduler's.
pub data Step (k k' : Kernel) : Type 0 where
  timer :
      (pending sp : ℕ) (next_sp : Option ℕ)
      → k.cur_thread ≢ k.scheduler_thread
      → int_vector_pre_threads k pending sp ≡ ok (next_sp, k')
      → Step k k'
  call :
      (inst spsr sp next_sp : ℕ)
      → k.cur_thread ≢ k.scheduler_thread
      → syscall_vector k inst spsr sp ≡ ok (next_sp, k')
      → Step k k'
  fork_begins : (a : ℕ) → begin_fork k ≡ ok (a, k') → Step k k'
  fork_ends :
      (a code arg : ℕ) (enable_interrupt sys_mode : Bool)
      → 0 < copies a k.in_hand
      → end_fork k a code arg enable_interrupt sys_mode ≡ ok k'
      → Step k k'
  exit :
      (next_sp : ℕ) → k.cur_thread ≢ k.scheduler_thread → pre_exit k ≡ ok (next_sp, k') → Step k k'
  uart :
      (iir room : ℕ) (fifo : List ℕ) (sp : ℕ) (r : UartResult)
      → int_vector_uart_pre_threads k iir room fifo sp ≡ ok r
      → k' ≡ r.kernel
      → Step k k'
  print : (room : ℕ) (sent : List ℕ) → stdout_queue_to_txfifo room k ≡ ok (sent, k') → Step k k'
  round :
      (sp : ℕ) (next_sp : Option ℕ)
      → k.cur_thread ≡ k.scheduler_thread
      → schedule k sp ≡ ok (next_sp, k')
      → Step k k'

pub data Reach (k : Kernel) : Kernel → Type 0 where
  here : Reach k k
  next : {k1 k2 : Kernel} → Reach k k1 → Step k1 k2 → Reach k k2

module _ {k : Kernel} where
  IsRunning-of_ne : IsSound k → k.cur_thread ≢ k.scheduler_thread → IsRunning k
  IsRunning-of_ne (inl running) ne = running
  IsRunning-of_ne (inr (s, sched, cur, apart)) ne = absurd (ne (cur ∙ sym sched))

  IsIdle-of_eq : IsSound k → k.cur_thread ≡ k.scheduler_thread → IsIdle k
  IsIdle-of_eq (inr idle) e = idle
  IsIdle-of_eq (inl (s, sched, (a, cur, apart))) e =
      let same : a ≡ s = cc in
      let own : one a k.scheduler_thread ≡ 1 = rw (sched, sym same) (hit_self a) in
      absurd (omega (arith, apart.once a, hit_self a))

timer-IsSound :
    (k k' : Kernel) (pending sp : ℕ) (next_sp : Option ℕ)
    → IsSound k
    → IsRunning k
    → int_vector_pre_threads k pending sp ≡ ok (next_sp, k')
    → IsSound k'
unfolding int_vector_pre_threads
timer-IsSound k k' pending sp next_sp sound running e = elim (ℕ_discrete (pending % 2) 0) [
  | yes even ↦
      let back : int_vector_pre_threads k pending sp ≡ ok (none, k) = rw even refl in
      subst (λ p. IsSound p.1) (ok-injective (none, k) (next_sp, k') (sym back ∙ e)) sound
  | no odd ↦
      let (sp'', k'', e', idle, facts) = int_vector_pre_threads-IsIdle pending running odd sp in
      subst (λ p. IsSound p.1) (ok-injective (some sp'', k'') (next_sp, k') (sym e' ∙ e)) (inr idle)
]

begin_fork-IsSound : (k k' : Kernel) (a : ℕ) → IsSound k → begin_fork k ≡ ok (a, k') → IsSound k'
begin_fork-IsSound k k' a (inl (s, sched, (c, cur, apart))) e =
    let (b, blocks, freeq, n, e', apart') = begin_fork-IsApart apart in
    subst (λ p. IsSound p.1) (ok-injective _ (a, k') (sym e' ∙ e))
      (inl (s, sched, (c, cur, apart')))
begin_fork-IsSound k k' a (inr (s, sched, cur, apart)) e =
    let (b, blocks, freeq, n, e', apart') = begin_fork-IsApart apart in
    subst (λ p. IsSound p.1) (ok-injective _ (a, k') (sym e' ∙ e)) (inr (s, sched, cur, apart'))

end_fork-IsSound :
    (k k' : Kernel) (a code arg : ℕ) (enable_interrupt sys_mode : Bool)
    → IsSound k
    → 0 < copies a k.in_hand
    → end_fork k a code arg enable_interrupt sys_mode ≡ ok k'
    → IsSound k'
end_fork-IsSound k k' a code arg en sys (inl (s, sched, (c, cur, apart))) there e =
    let (blocks, e', apart') = end_fork-IsApart apart a there code arg en sys in
    subst IsSound (ok-injective _ k' (sym e' ∙ e)) (inl (s, sched, (c, cur, apart')))
end_fork-IsSound k k' a code arg en sys (inr (s, sched, cur, apart)) there e =
    let (blocks, e', apart') = end_fork-IsApart apart a there code arg en sys in
    subst IsSound (ok-injective _ k' (sym e' ∙ e)) (inr (s, sched, cur, apart'))

round-IsSound :
    (k k' : Kernel) (sp : ℕ) (next_sp : Option ℕ)
    → IsIdle k
    → schedule k sp ≡ ok (next_sp, k')
    → IsSound k'
round-IsSound k k' sp next_sp (s, sched, cur, apart) e =
    let (awake, e1, idle', woke, roused) = schedule-awake s k sp (sched, cur, apart) in
    elim (pick-Picked awake.runq awake sp refl idle') [
      | inl (k1, chosen, stalled, rest) ↦
          subst (λ p. IsSound p.1) (ok-injective (none, k1) (next_sp, k') (sym (e1 ∙ chosen) ∙ e))
            (inr (s, rest.0, rest.1, rest.2))
      | inr (k1, a, nsp, chosen, ran, running) ↦
          subst (λ p. IsSound p.1)
            (ok-injective (some nsp, k1) (next_sp, k') (sym (e1 ∙ chosen) ∙ e)) (inl running)
    ]

Step-IsSound : {k k' : Kernel} → Step k k' → IsSound k → IsSound k'
Step-IsSound (timer pending sp next_sp ne e) sound =
    timer-IsSound _ _ pending sp next_sp sound (IsRunning-of_ne sound ne) e
Step-IsSound (call inst spsr sp next_sp ne e) sound =
    syscall_vector-Settled (IsRunning-of_ne sound ne) sp inst spsr next_sp _ e
Step-IsSound (fork_begins a e) sound = begin_fork-IsSound _ _ a sound e
Step-IsSound (fork_ends a code arg en sys there e) sound =
    end_fork-IsSound _ _ a code arg en sys sound there e
Step-IsSound (exit next_sp ne e) sound =
    let (sp'', k'', e', idle) = pre_exit-IsIdle (IsRunning-of_ne sound ne) in
    subst (λ p. IsSound p.1) (ok-injective (sp'', k'') (next_sp, _) (sym e' ∙ e)) (inr idle)
Step-IsSound (uart iir room fifo sp r e same) sound =
    subst IsSound (sym same) (int_vector_uart_pre_threads-IsSound sound iir room fifo sp r e)
Step-IsSound (print room sent e) sound = stdout_queue_to_txfifo-IsSound sound room sent _ e
Step-IsSound (round sp next_sp same e) sound =
    round-IsSound _ _ sp next_sp (IsIdle-of_eq sound same) e

-- Whatever the threads, the interrupts and the scheduler do, in any order, where no interrupt comes
-- in the middle of `th_alloc` or `Q_append` of a fork: from a state in which no thread block stands
-- in two of the queues, the pointers, the hands of forks and the running place, and in which the
-- scheduler or one allocated thread runs, in every state that is reached the same holds, so that
-- the field `next` of a block links it in one queue at most. A step is an interrupt of the timer or
-- of the UART, a system call, the first or the second half of a fork, between which anything may
-- happen, an exit, a run of the printer or a round of the scheduler that returns; all but the fork
-- run with interrupts disabled.
pub Reach-IsSound : {k k' : Kernel} → IsSound k → Reach k k' → IsSound k'
Reach-IsSound sound here = sound
Reach-IsSound sound (next r step) = Step-IsSound step (Reach-IsSound sound r)

-- What `pre_thread_start` finds: threads that were forked, and no scheduler yet.
pub ensure_scheduler-IsSound :
    {k : Kernel}
    → IsApart k []
    → k.scheduler_thread ≡ none
    → (k' : Kernel) × (ensure_scheduler k none ≡ ok k') × IsSound k'
unfolding ensure_scheduler
ensure_scheduler-IsSound {k} apart fresh =
    let (a, blocks, freeq, n, e, apart') = th_alloc-IsApart apart in
    let k1 = reblocked k blocks freeq (u32 (k.tid + 1)) n in
    let k' = record k1 { scheduler_thread = some a; cur_thread = some a } in
    (
      k',
      >>=-ok _ e,
      inr (a, refl, refl, IsApart-less apart' (λ b. rw fresh (omega arith)) (omega arith)),
    )
