-- ===== src/Threads/Preemptive/Devices.antt =====
-- preemptive-threads/preemptive-thread.c: the handlers of the UART, and the places of threads.
use dfs_pios_ro.Base.{
  ℕ, ◌≡◌, Bool, List, Outcome, if_ind, inl, ok, >>=-eq-ok, arith, subst, ap, ok-injective, inr, sym,
  ◌∙◌, [], refl, suc, Bool-cases, false, ◌>>=◌, true, ◌∷◌, zero, ◌%◌, some, Option, ◌==◌, none, ◌/◌,
}
use dfs_pios_ro.Threads.Preemptive.{Kernel, write_stdio_tid}
use dfs_pios_ro.Threads.Preemptive.Handlers.{
  stdout_queue_to_txfifo, int_vector_uart_pre_threads, UartResult, drain, fork_printer,
  rxfifo_to_stdin_queue, fill,
}
use dfs_pios_ro.Threads.Preemptive.Calls.{fork_printer-IsApart, with_printer}
use dfs_pios_ro.Threads.Preemptive.Places.{IsSound, IsApart-less}
use dfs_pios_ro.Circular.{Queue, cq_empty, cq_pop}

-- What the handlers of the UART change concerns no thread.
abbrev io : Kernel → Queue → Queue → Bool → ℕ → Kernel
io k put_q get_q tx lock = record k {
  put_q = put_q;
  get_q = get_q;
  tx_interrupt = tx;
  stdout_lock = lock;
}

io-IsSound :
    {k : Kernel} (put_q get_q : Queue) (tx : Bool) (lock : ℕ)
    → IsSound k
    → IsSound (io k put_q get_q tx lock)
io-IsSound put_q get_q tx lock (inl (s, sched, (a, cur, apart))) =
    inl (s, sched, (a, cur, IsApart-less apart (λ b. omega arith) (omega arith)))
io-IsSound put_q get_q tx lock (inr (s, sched, cur, apart)) =
    inr (s, sched, cur, IsApart-less apart (λ b. omega arith) (omega arith))

drain_eq :
    (room : ℕ) (k : Kernel) (sent : List ℕ) (k' : Kernel)
    → drain room k ≡ ok (sent, k')
    → (q : Queue) × (tx : Bool) × (k' ≡ record k { put_q = q; tx_interrupt = tx })
unfolding drain
drain_eq zero k sent k' e =
    (k.put_q, k.tx_interrupt, ap (λ p. p.1) (sym (ok-injective ([], k) (sent, k') e)))
drain_eq (suc room) k sent k' e = elim (Bool-cases (cq_empty k.put_q)) [
  | inl empty ↦
      let stopped : drain (suc room) k ≡ ok ([], record k { tx_interrupt = false }) =
        rw (empty, drain) refl in
      (k.put_q, false, ap (λ p. p.1) (sym (ok-injective _ (sent, k') (sym stopped ∙ e))))
  | inr full ↦
      let popped : drain (suc room) k ≡ (do
        (c, q) ← cq_pop true [] k.put_q
        (rest, k'') ← drain room (record k { put_q = q })
        ok (c ∷ rest, k'')) =
        rw (full, drain) refl in
      let ((c, q), e1, e2) = >>=-eq-ok (cq_pop true [] k.put_q) _ (sym popped ∙ e) in
      let ((rest, k''), e3, e4) = >>=-eq-ok (drain room (record k { put_q = q })) _ e2 in
      let (q', tx, e5) = drain_eq room (record k { put_q = q }) rest k'' e3 in
      (q', tx, ap (λ p. p.1) (sym (ok-injective (c ∷ rest, k'') (sent, k') e4)) ∙ e5)
]

-- What holds of the kernel that a handler of the UART leaves.
abbrev UartSound : Outcome UartResult → Type 0
UartSound r = (u : UartResult) → r ≡ ok u → IsSound u.kernel

module _ {k : Kernel} (valid : IsSound k) where
  ended-UartSound : (u : UartResult) → u.kernel ≡ k → UartSound (ok u)
  ended-UartSound u same u' e =
      subst (λ v. IsSound v.kernel) (ok-injective u u' e) (subst IsSound (sym same) valid)

  drain-IsSound :
      (room : ℕ) (sent : List ℕ) (k' : Kernel) (lock : ℕ)
      → drain room k ≡ ok (sent, k')
      → IsSound (record k' { stdout_lock = lock })
  drain-IsSound room sent k' lock e =
      let (q, tx, same) = drain_eq room k sent k' e in
      subst (λ l. IsSound (record l { stdout_lock = lock })) (sym same)
        (io-IsSound q k.get_q tx lock valid)

  rxfifo_to_stdin_queue-IsSound :
      (fifo left : List ℕ) (k' : Kernel) → rxfifo_to_stdin_queue fifo k ≡ ok (left, k') → IsSound k'
  unfolding rxfifo_to_stdin_queue
  rxfifo_to_stdin_queue-IsSound fifo left k' e =
      let ((rest, q), e1, e2) = >>=-eq-ok (fill fifo k.get_q) _ e in
      subst (λ p. IsSound p.1) (ok-injective (rest, record k { get_q = q }) (left, k') e2)
        (io-IsSound k.put_q q k.tx_interrupt k.stdout_lock valid)

  abbrev result : Option ℕ → List ℕ → List ℕ → Kernel → UartResult
  result next_sp sent left k' = record { next_sp = next_sp; sent = sent; left = left; kernel = k' }

  transmit-UartSound :
      (room : ℕ) (fifo : List ℕ) (sp : ℕ)
      → UartSound (do (sent, k') ← drain room k; ok (result (some sp) sent fifo k'))
  transmit-UartSound room fifo sp u e =
      let ((sent, k'), e1, e2) = >>=-eq-ok (drain room k) _ e in
      let done : IsSound k' = drain-IsSound room sent k' k'.stdout_lock e1 in
      subst (λ v. IsSound v.kernel) (ok-injective (result (some sp) sent fifo k') u e2) done

  receive-UartSound :
      (fifo : List ℕ) (sp : ℕ)
      → UartSound (do (left, k') ← rxfifo_to_stdin_queue fifo k; ok (result (some sp) [] left k'))
  receive-UartSound fifo sp u e =
      let ((left, k'), e1, e2) = >>=-eq-ok (rxfifo_to_stdin_queue fifo k) _ e in
      let done : IsSound k' = rxfifo_to_stdin_queue-IsSound fifo left k' e1 in
      subst (λ v. IsSound v.kernel) (ok-injective (result (some sp) [] left k') u e2) done

  pub int_vector_uart_pre_threads-IsSound :
      (iir room : ℕ) (fifo : List ℕ) (sp : ℕ)
      → UartSound (int_vector_uart_pre_threads k iir room fifo sp)
  unfolding int_vector_uart_pre_threads
  int_vector_uart_pre_threads-IsSound iir room fifo sp =
      if_ind UartSound (iir % 2 == 1) (ended-UartSound (result none [] fifo k) refl) (
        if_ind UartSound (iir / 2 % 2 == 1) (transmit-UartSound room fifo sp) (
          if_ind UartSound (iir / 4 % 2 == 1) (receive-UartSound fifo sp)
            (ended-UartSound (result (some sp) [] fifo k) refl)))

fork_printer-IsSound :
    {k : Kernel} → IsSound k → (k' : Kernel) → fork_printer k ≡ ok k' → IsSound k'
fork_printer-IsSound {k} (inl (s, sched, (a, cur, apart))) k' e =
    let (p, blocks, freeq, n, lock, forked, apart') = fork_printer-IsApart apart in
    let k1 = with_printer k p blocks freeq n lock in
    subst IsSound (ok-injective k1 k' (sym forked ∙ e)) (inl (s, sched, (a, cur, apart')))
fork_printer-IsSound {k} (inr (s, sched, cur, apart)) k' e =
    let (p, blocks, freeq, n, lock, forked, apart') = fork_printer-IsApart apart in
    let k1 = with_printer k p blocks freeq n lock in
    subst IsSound (ok-injective k1 k' (sym forked ∙ e)) (inr (s, sched, cur, apart'))

pub stdout_queue_to_txfifo-IsSound :
    {k : Kernel}
    → IsSound k
    → (room : ℕ) (sent : List ℕ) (k' : Kernel) → stdout_queue_to_txfifo room k ≡ ok (sent, k')
    → IsSound k'
unfolding stdout_queue_to_txfifo write_stdio_tid
stdout_queue_to_txfifo-IsSound {k} valid room sent k' e =
    let ((out, k1), e1, e2) = >>=-eq-ok (drain room k) _ e in
    let valid1 : IsSound (record k1 { stdout_lock = 0 }) = drain-IsSound valid room out k1 0 e1 in
    if_ind (λ r. r ≡ ok (sent, k') → IsSound k') (cq_empty k1.put_q)
      (λ done. subst (λ p. IsSound p.1) (ok-injective _ (sent, k') done) valid1)
      (λ more.
        let (k2, e3, e4) = >>=-eq-ok (fork_printer (record k1 { stdout_lock = 0 })) _ more in
        subst (λ p. IsSound p.1) (ok-injective (out, k2) (sent, k') e4)
          (fork_printer-IsSound valid1 k2 e3))
      e2
