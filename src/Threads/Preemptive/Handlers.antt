-- ===== src/Threads/Preemptive/Handlers.antt =====
-- preemptive-threads/preemptive-thread.c: the interrupt handler of the UART, the thread that
-- prints, and the system calls. The UART takes `room` bytes before its transmit FIFO is full, and
-- its receive FIFO is the list of its bytes.
use dfs_pios_ro.Base.{
  Outcome, Option, List, ℕ, u32, if◌then◌else◌, ◌>>=◌, ok, false, true, elem_at, ◌%◌, ◌∷◌, ◌++◌,
  ◌+◌, [], suc, ◌==◌, some, ◌^◌, none, zero, ◌-◌, ◌/◌, not, ◌&&◌, panic,
}
use dfs_pios_ro.Threads.Preemptive.{
  Kernel, deref, update, stdio_is_idle, write_stdio_tid, pre_fork, to_scheduler, no_reason, stdio,
}
use dfs_pios_ro.Circular.{Queue, cq_empty, cq_full, cq_pop, cq_push}

-- The loop over the transmit FIFO: the bytes that it is given.
unfoldable pub drain : ℕ → Kernel → Outcome (List ℕ × Kernel)
unfolding cq_empty cq_pop
drain zero k = ok ([], k)
drain (suc room) k = elim (cq_empty k.put_q) [
  | true ↦ ok ([], record k { tx_interrupt = false })
  | false ↦ (do
    (c, q) ← cq_pop true [] k.put_q
    (sent, k') ← drain room (record k { put_q = q })
    ok (c ∷ sent, k'))
]

-- The loop over the receive FIFO: the bytes that stay in it.
unfoldable pub fill : List ℕ → Queue → Outcome (List ℕ × Queue)
unfolding cq_full cq_push
fill [] q = ok ([], q)
fill (c ∷ cs) q = elim (cq_full q) [
  | true ↦ ok (c ∷ cs, q)
  | false ↦ (do (done, q') ← cq_push q c; fill cs q')
]

unfoldable pub rxfifo_to_stdin_queue : List ℕ → Kernel → Outcome (List ℕ × Kernel)
unfolding fill
rxfifo_to_stdin_queue fifo k = do (left, q) ← fill fifo k.get_q; ok (left, record k { get_q = q })

-- The thread that owns the output until the queue is empty.
unfoldable pub fork_printer : Kernel → Outcome Kernel
unfolding pre_fork update write_stdio_tid
fork_printer k = do
  (a, k') ← pre_fork k k.printer_code 0 false true
  k'' ← update k' a (λ t. record t { block_reason = stdio })
  t ← elem_at k''.blocks a
  ok (write_stdio_tid k'' t.tid)

unfoldable pub stdout_queue_to_txfifo : ℕ → Kernel → Outcome (List ℕ × Kernel)
unfolding drain write_stdio_tid cq_empty fork_printer
stdout_queue_to_txfifo room k = do
  (sent, k') ← drain room k
  let k'' = write_stdio_tid k' 0
  if cq_empty k''.put_q then ok (sent, k'') else (do k3 ← fork_printer k''; ok (sent, k3))

-- What the handler of the UART leaves: the context to switch to, or `none` when it returns, the
-- bytes given to the one FIFO, and the bytes that stay in the other.
pub record UartResult : Type 0 where
  pub next_sp : Option ℕ
  pub sent : List ℕ
  pub left : List ℕ
  pub kernel : Kernel

unfoldable pub int_vector_uart_pre_threads : Kernel → ℕ → ℕ → List ℕ → ℕ → Outcome UartResult
unfolding drain rxfifo_to_stdin_queue
int_vector_uart_pre_threads k iir room fifo sp =
    if iir % 2 == 1
    then ok (record { next_sp = none; sent = []; left = fifo; kernel = k })
    else if iir / 2 % 2 == 1
    then (do
      (sent, k') ← drain room k
      ok (record { next_sp = some sp; sent = sent; left = fifo; kernel = k' }))
    else if iir / 4 % 2 == 1
    then (do
      (left, k') ← rxfifo_to_stdin_queue fifo k
      ok (record { next_sp = some sp; sent = []; left = left; kernel = k' }))
    else ok (record { next_sp = some sp; sent = []; left = fifo; kernel = k })

-- The thread that made the call waits behind those for which the console is not free either.
unfoldable pub block_current : Kernel → ℕ → ℕ → Outcome (ℕ × Kernel)
unfolding update to_scheduler
block_current k a sp = do
  k' ← update k a (λ t. record t { saved_sp = sp; block_reason = stdio })
  to_scheduler (record k' { blockq = k'.blockq ++ (a ∷ []) })

unfoldable pub request_stdout : Kernel → ℕ → Outcome (ℕ × Kernel)
unfolding stdio_is_idle write_stdio_tid update block_current
request_stdout k sp = do
  a ← deref k.cur_thread
  t ← elem_at k.blocks a
  if stdio_is_idle k t.tid
      then (do
        k' ← update (write_stdio_tid k t.tid) a (λ u. record u { block_reason = stdio })
        ok (sp, k'))
      else block_current k a sp

-- What `uart_flush_rx` throws away is not among the characters that a later interrupt finds.
unfoldable pub request_stdin : Kernel → ℕ → Outcome (ℕ × Kernel)
unfolding stdio_is_idle write_stdio_tid update block_current to_scheduler
request_stdin k sp = do
  a ← deref k.cur_thread
  t ← elem_at k.blocks a
  if stdio_is_idle k t.tid
      then (do
        let k' = write_stdio_tid (record k { rx_interrupt = true }) t.tid
        k'' ← update k' a (λ u. record u { saved_sp = sp; block_reason = stdio })
        to_scheduler (record k'' { wait_stdin_thread = some a }))
      else block_current k a sp

unfoldable pub wait_stdout : Kernel → ℕ → Outcome (ℕ × Kernel)
unfolding cq_empty write_stdio_tid update fork_printer to_scheduler
wait_stdout k sp = do
  a ← deref k.cur_thread
  let k' = record k { tx_interrupt = true }
  if cq_empty k'.put_q
      then (do
        k'' ← update (write_stdio_tid k' 0) a (λ u. record u { block_reason = no_reason })
        ok (sp, k''))
      else (do
        k'' ← fork_printer k'
        k3 ← update k'' a (λ u. record u { saved_sp = sp })
        to_scheduler (record k3 { wait_stdout_thread = some a }))

unfoldable pub end_stdin : Kernel → ℕ → Outcome (ℕ × Kernel)
unfolding write_stdio_tid update
end_stdin k sp = do
  let k' = write_stdio_tid (record k { rx_interrupt = false }) 0
  a ← deref k'.wait_stdout_thread
  k'' ← update k' a (λ u. record u { block_reason = no_reason })
  ok (sp, k'')

abbrev pub sys_request_stdout : ℕ
sys_request_stdout = 1

abbrev pub sys_wait_stdout : ℕ
sys_wait_stdout = 2

abbrev pub sys_request_stdin : ℕ
sys_request_stdin = 3

abbrev pub sys_end_stdin : ℕ
sys_end_stdin = 4

abbrev pub sys_nrf_spi_transfer : ℕ
sys_nrf_spi_transfer = 8

-- `syscall_vector`: the instruction that trapped, and the saved status word. A transfer to the
-- radio changes nothing here, and an unknown number reboots.
unfoldable pub syscall_vector : Kernel → ℕ → ℕ → ℕ → Outcome (ℕ × Kernel)
unfolding request_stdout request_stdin wait_stdout end_stdin
syscall_vector k inst spsr sp =
    let sys_num = u32 (inst + 2 ^ 32 - 0xef000000) in
    let mode = spsr % 2 ^ 5 in
    if not (mode == 0x10) && not (mode == 0x1f)
    then panic
    else if sys_num == sys_request_stdout
    then request_stdout k sp
    else if sys_num == sys_request_stdin
    then request_stdin k sp
    else if sys_num == sys_wait_stdout
    then wait_stdout k sp
    else if sys_num == sys_end_stdin
    then end_stdin k sp
    else if sys_num == sys_nrf_spi_transfer
    then ok (sp, k)
    else panic
