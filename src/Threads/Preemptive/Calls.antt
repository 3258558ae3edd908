-- ===== src/Threads/Preemptive/Calls.antt =====
-- preemptive-threads/preemptive-thread.c: every system call, and the places of threads.
use dfs_pios_ro.Base.{
  ℕ, List, ◌≡◌, u32, arith, Bool-cases, ok, none, inl, some, inr, ◌+◌, false, fault, ◌∷◌, ◌++◌, ◌⊎◌,
  [], true, set, Option-cases, refl, length-set, >>=-ok, ◌∙◌, Outcome, ok-injective, sym, subst,
  if_ind, panic, copies-last, hit_self, elem_at,
}
use dfs_pios_ro.Threads.Preemptive.{Kernel, Thread, write_stdio_tid, stdio, no_reason}
use dfs_pios_ro.Threads.Preemptive.Handlers.{
  request_stdout, request_stdin, wait_stdout, end_stdin, fork_printer, syscall_vector,
}
use dfs_pios_ro.Threads.Preemptive.Places.{
  IsApart, IsIdle, IsRunning, IsApart-less, allocated_of_held, elem_at-in, update_eq,
  to_scheduler-IsIdle, deref-eq,
}
use dfs_pios_ro.Threads.Preemptive.Forking.{reblocked, pre_fork-IsApart}
use dfs_pios_ro.Threads.Preemptive.Console.{Lands, request_stdout-owner, request_stdin-owner}
use dfs_pios_ro.Circular.{cq_empty}

-- The kernel with a printer behind the threads that can run.
abbrev pub with_printer : Kernel → ℕ → List Thread → List ℕ → ℕ → ℕ → Kernel
with_printer k a blocks freeq n lock = record (reblocked k blocks freeq (u32 (k.tid + 1)) n) {
  runq = k.runq ++ (a ∷ []);
  stdout_lock = lock;
}

-- Behind END_STDIN, where thread `w`, with the block `t`, waits for its output.
abbrev pub input_ended : Kernel → ℕ → Thread → Kernel
input_ended k w t = record k {
  rx_interrupt = false;
  stdout_lock = 0;
  blocks = set k.blocks w (record t { block_reason = no_reason });
}

pub fork_printer-IsApart :
    {k : Kernel} {hands : List ℕ}
    → IsApart k hands
    → (a : ℕ) × (blocks : List Thread) × (freeq : List ℕ) × (n lock : ℕ) × (fork_printer k
        ≡ ok (with_printer k a blocks freeq n lock))
      × IsApart (with_printer k a blocks freeq n lock) hands
unfolding fork_printer write_stdio_tid
fork_printer-IsApart {k} {hands} apart =
    let (a, blocks, freeq, n, forked, apart') =
      pre_fork-IsApart apart k.printer_code 0 false true in
    let k' = record (reblocked k blocks freeq (u32 (k.tid + 1)) n) { runq = k.runq ++ (a ∷ []) } in
    let lt = allocated_of_held apart' a (omega (arith, copies-last a k.runq a, hit_self a)) in
    let f : Thread → Thread = λ t. record t { block_reason = stdio } in
    let (t, at, updated) = update_eq k' a f lt in
    let (u, at') = elem_at-in (set blocks a (f t)) a (rw (length-set blocks a (f t)) lt) in
    (
      a,
      set blocks a (f t),
      freeq,
      n,
      u.tid,
      >>=-ok _ forked ∙ (>>=-ok _ updated ∙ >>=-ok _ at'),
      IsApart-less apart' (λ b. omega arith) (rw (length-set blocks a (f t)) (omega arith)),
    )

module _ {k : Kernel} {s a : ℕ} (sched : k.scheduler_thread ≡ some s) (cur : k.cur_thread ≡ some a)
    (apart : IsApart k (a ∷ [])) where
  wait_stdout-printed : (sp : ℕ) → cq_empty k.put_q ≡ true → Lands (wait_stdout k sp)
  unfolding wait_stdout write_stdio_tid
  wait_stdout-printed sp empty =
      let f : Thread → Thread = λ u. record u { block_reason = no_reason } in
      let released = record k { tx_interrupt = true; stdout_lock = 0 } in
      let lt = allocated_of_held apart a (rw (hit_self a) (omega arith)) in
      let (t, at, updated) = update_eq released a f lt in
      let k' = record released { blocks = set k.blocks a (f t) } in
      let apart' : IsApart k' (a ∷ []) =
        IsApart-less apart (λ b. omega arith) (rw (length-set k.blocks a (f t)) (omega arith)) in
      (
        sp,
        k',
        >>=-ok _ (deref-eq cur) ∙ rw empty (>>=-ok _ updated),
        inl (s, sched, (a, cur, apart')),
      )

  wait_stdout-waits : (sp : ℕ) → cq_empty k.put_q ≡ false → Lands (wait_stdout k sp)
  unfolding wait_stdout write_stdio_tid
  wait_stdout-waits sp full =
      let enabled = record k { tx_interrupt = true } in
      let apart0 : IsApart enabled (a ∷ []) = IsApart-less apart (λ b. omega arith) (omega arith) in
      let (p, blocks, freeq, n, lock, forked, apart1) = fork_printer-IsApart apart0 in
      let k1 = with_printer enabled p blocks freeq n lock in
      let f : Thread → Thread = λ u. record u { saved_sp = sp } in
      let lt = allocated_of_held apart1 a (rw (hit_self a) (omega arith)) in
      let (t, at, updated) = update_eq k1 a f lt in
      let k2 = record k1 { blocks = set blocks a (f t); wait_stdout_thread = some a } in
      let apart2 : IsApart k2 [] =
        IsApart-less apart1 (λ b. omega arith) (rw (length-set blocks a (f t)) (omega arith)) in
      let (next_sp, e, idle) = to_scheduler-IsIdle sched apart2 in
      (
        next_sp,
        record k2 { cur_thread = k.scheduler_thread },
        >>=-ok _ (deref-eq cur) ∙ rw full (>>=-ok _ forked ∙ (>>=-ok _ updated ∙ e)),
        inr idle,
      )

  end_stdin-waiting :
      (sp : ℕ) (w : ℕ)
      → k.wait_stdout_thread ≡ some w
      → (t : Thread) × (elem_at k.blocks w ≡ ok t)
        × (end_stdin k sp ≡ ok (sp, input_ended k w t))
        × IsRunning (input_ended k w t)
  unfolding end_stdin write_stdio_tid
  end_stdin-waiting sp w e =
      let f : Thread → Thread = λ u. record u { block_reason = no_reason } in
      let released = record k { rx_interrupt = false; stdout_lock = 0 } in
      let lt = allocated_of_held apart w (rw (e, hit_self w) (omega arith)) in
      let (t, at, updated) = update_eq released w f lt in
      let apart' : IsApart (input_ended k w t) (a ∷ []) =
        IsApart-less apart (λ b. omega arith) (rw (length-set k.blocks w (f t)) (omega arith)) in
      (t, at, >>=-ok _ (deref-eq e) ∙ >>=-ok _ updated, (s, sched, (a, cur, apart')))

pub wait_stdout-Lands : {k : Kernel} → IsRunning k → (sp : ℕ) → Lands (wait_stdout k sp)
wait_stdout-Lands {k} (s, sched, (a, cur, apart)) sp = elim (Bool-cases (cq_empty k.put_q)) [
  | inl empty ↦ wait_stdout-printed sched cur apart sp empty
  | inr full ↦ wait_stdout-waits sched cur apart sp full
]

pub request_stdout-Lands : {k : Kernel} → IsRunning k → (sp : ℕ) → Lands (request_stdout k sp)
request_stdout-Lands {k} (s, sched, (a, cur, apart)) sp =
    let lt = allocated_of_held apart a (rw (hit_self a) (omega arith)) in
    let (t, at) = elem_at-in k.blocks a lt in
    let (next_sp, k', e, outcome) = request_stdout-owner sched cur apart t at sp in
    elim outcome [
      | inl (free, running, same, lock) ↦ (next_sp, k', e, inl running)
      | inr (taken, foreign, idle, queued, lock) ↦ (next_sp, k', e, inr idle)
    ]

pub request_stdin-Lands : {k : Kernel} → IsRunning k → (sp : ℕ) → Lands (request_stdin k sp)
request_stdin-Lands {k} (s, sched, (a, cur, apart)) sp =
    let lt = allocated_of_held apart a (rw (hit_self a) (omega arith)) in
    let (t, at) = elem_at-in k.blocks a lt in
    let (next_sp, k', e, idle, outcome) = request_stdin-owner sched cur apart t at sp in
    (next_sp, k', e, inr idle)

-- From a state in which a thread runs with every block in one place, END_STDIN writes through a
-- null pointer where no thread waits for its output. Where thread `w` does, it returns to the
-- thread that runs, which goes on with every block in one place: the console is free, the receive
-- interrupt is off, and the reason of `w`, not that of the thread that runs, is NONE; nothing else
-- has changed.
pub end_stdin-cases :
    {k : Kernel}
    → IsRunning k
    → (sp : ℕ)
    → ((k.wait_stdout_thread ≡ none) × (end_stdin k sp ≡ fault))
      ⊎ ((w : ℕ) × (t : Thread) × (k.wait_stdout_thread ≡ some w)
          × (elem_at k.blocks w ≡ ok t)
          × (end_stdin k sp ≡ ok (sp, input_ended k w t))
          × IsRunning (input_ended k w t))
unfolding end_stdin write_stdio_tid
end_stdin-cases {k} (s, sched, (a, cur, apart)) sp = elim (Option-cases k.wait_stdout_thread) [
  | inl e ↦ inl (e, rw e refl)
  | inr (w, e) ↦
      let (t, at, returned, runs) = end_stdin-waiting sched cur apart sp w e in
      inr (w, t, e, at, returned, runs)
]

module _ {k : Kernel} (running : IsRunning k) (sp : ℕ) where
  -- What holds of a result that is returned: a thread runs, or the scheduler.
  abbrev pub Settled : Outcome (ℕ × Kernel) → Type 0
  Settled r = (next_sp : ℕ) (k' : Kernel) → r ≡ ok (next_sp, k') → IsRunning k' ⊎ IsIdle k'

  settled : (r : Outcome (ℕ × Kernel)) → Lands r → Settled r
  settled r (sp'', k'', e, where_to) next_sp k' returned =
      let same = ok-injective (sp'', k'') (next_sp, k') (sym e ∙ returned) in
      subst (λ p. IsRunning p.1 ⊎ IsIdle p.1) same where_to

  panic-Settled : Settled panic
  panic-Settled next_sp k' e = absurd (cc)

  end_stdin-Settled : Settled (end_stdin k sp)
  end_stdin-Settled next_sp k' returned = elim (end_stdin-cases running sp) [
    | inl (null, faulted) ↦ absurd (cc)
    | inr (w, t, waits, at, e, runs) ↦ settled _ (sp, _, e, inl runs) next_sp k' returned
  ]

  pub syscall_vector-Settled : (inst spsr : ℕ) → Settled (syscall_vector k inst spsr sp)
  unfolding syscall_vector
  syscall_vector-Settled inst spsr = if_ind Settled _ panic-Settled (
      if_ind Settled _ (settled _ (request_stdout-Lands running sp)) (
        if_ind Settled _ (settled _ (request_stdin-Lands running sp)) (
          if_ind Settled _ (settled _ (wait_stdout-Lands running sp)) (
            if_ind Settled _ end_stdin-Settled
              (if_ind Settled _ (settled _ (sp, k, refl, inl running)) panic-Settled)))))
