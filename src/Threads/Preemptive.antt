-- ===== src/Threads/Preemptive.antt =====
-- preemptive-threads/preemptive-thread.c and thread-safe-io.c: the thread blocks, the queues of
-- threads, fork, exit and the timer interrupt. A pointer to a thread is the number of its block in
-- the order of allocation, and a queue is the list of its threads, the front one first.
-- `cswitch_…` loads the context at an address and never returns: a handler gives that address.
use dfs_pios_ro.Base.{
  Option, Outcome, ℕ, List, Bool, ◌-◌, length, if◌then◌else◌, false, ◌∷◌, ◌==◌, fault, ◌>>=◌, true,
  ◌++◌, ◌+◌, ◌%◌, elem_at, ◌||◌, some, ok, none, set, u32, [],
}
pub mod Handlers
pub mod Scheduler
pub mod Places
pub mod Forking
pub mod Console
pub mod Calls
pub mod Rousing
pub mod Rounds
pub mod Waiting
pub mod Choice
pub mod Fairness
pub mod Devices
pub mod Steps
mod Tests
use Prim.Native.Nat.{bit_or}
use dfs_pios_ro.Circular.{Queue}

-- The values of `block_reason`: NONE and STDIO.
pub data BlockReason : Type 0 where
  no_reason stdio : BlockReason

abbrev pub is_stdio : BlockReason → Bool
is_stdio no_reason = false
is_stdio stdio = true

-- `pre_thread_t`: `saved_sp` counts the words of the stack.
pub record Thread : Type 0 where
  pub saved_sp : ℕ
  pub tid : ℕ
  pub fn : ℕ
  pub arg : ℕ
  pub block_reason : BlockReason
  pub stack : ℕ → ℕ

-- The static variables of both files, the two bits of the interrupt-enable register of the UART
-- that the code writes, the addresses of the functions that a new context refers to, and what the
-- memory that `kmalloc_aligned` gives holds. `in_hand` has the variable `t` of each call of
-- `pre_fork` that is between `th_alloc` and `Q_append`, where interrupts can come.
pub record Kernel : Type 0 where
  pub blocks : List Thread
  pub runq : List ℕ
  pub freeq : List ℕ
  pub blockq : List ℕ
  pub in_hand : List ℕ
  pub cur_thread : Option ℕ
  pub scheduler_thread : Option ℕ
  pub wait_stdout_thread : Option ℕ
  pub wait_stdin_thread : Option ℕ
  pub tid : ℕ
  pub nalloced : ℕ
  pub stdout_lock : ℕ
  pub put_q : Queue
  pub get_q : Queue
  pub tx_interrupt : Bool
  pub rx_interrupt : Bool
  pub printer_code : ℕ
  pub trampoline : ℕ
  pub unused : Thread

-- `*p` for a pointer that may be NULL.
abbrev pub deref : Option ℕ → Outcome ℕ
deref none = fault
deref (some a) = ok a

unfoldable pub update : Kernel → ℕ → (Thread → Thread) → Outcome Kernel
update k a f = do t ← elem_at k.blocks a; ok (record k { blocks = set k.blocks a (f t) })

unfoldable pub stdio_is_idle : Kernel → ℕ → Bool
stdio_is_idle k thread_id = (k.stdout_lock == 0) || (k.stdout_lock == thread_id)

unfoldable pub write_stdio_tid : Kernel → ℕ → Kernel
write_stdio_tid k thread_id = record k { stdout_lock = thread_id }

-- `Q_pop(&freeq)`, or a new block.
unfoldable pub take_block : Kernel → List ℕ → ℕ × Kernel
take_block k [] = (
  length k.blocks,
  record k { blocks = k.blocks ++ (k.unused ∷ []); nalloced = u32 (k.nalloced + 1) },
)
take_block k (a ∷ rest) = (a, record k { freeq = rest })

-- `t->tid = tid++`.
unfoldable pub number : ℕ × Kernel → Outcome (ℕ × Kernel)
unfolding update
number (a, k) = do
  k' ← update k a (λ t. record t { tid = k.tid })
  ok (a, record k' { tid = u32 (k.tid + 1) })

unfoldable pub th_alloc : Kernel → Outcome (ℕ × Kernel)
unfolding take_block number
th_alloc k = number (take_block k k.freeq)

unfoldable pub th_free : Kernel → ℕ → Kernel
th_free k a = record k { freeq = a ∷ k.freeq }

abbrev pub thread_maxstack : ℕ
thread_maxstack = 2048

abbrev pub write_word : (ℕ → ℕ) → ℕ → ℕ → ℕ → ℕ
write_word words i v j = if j == i then v else words j

-- `0x60000100 | mode` or `0x60000180 | mode`.
abbrev pub init_cpsr : Bool → Bool → ℕ
init_cpsr enable_interrupt sys_mode =
    bit_or (if enable_interrupt then 0x60000100 else 0x60000180) (if sys_mode then 0x1f else 0x10)

-- The context that the first switch to a thread loads.
unfoldable pub init_thread : ℕ → ℕ → ℕ → Bool → Bool → Thread → Thread
init_thread trampoline code arg enable_interrupt sys_mode t =
    let sp = thread_maxstack - 17 in
    let s0 = write_word t.stack (sp + 4) arg in
    let s1 = write_word s0 (sp + 5) code in
    let s2 = write_word s1 (sp + 13) trampoline in
    let s3 = write_word s2 (sp + 14) trampoline in
    record t {
      arg = arg;
      fn = code;
      block_reason = no_reason;
      saved_sp = sp;
      stack = write_word s3 (sp + 15) (init_cpsr enable_interrupt sys_mode);
    }

unfoldable pub pre_fork : Kernel → ℕ → ℕ → Bool → Bool → Outcome (ℕ × Kernel)
unfolding th_alloc init_thread
pre_fork k code arg enable_interrupt sys_mode = do
  (a, k') ← th_alloc k
  k'' ← update k' a (init_thread k.trampoline code arg enable_interrupt sys_mode)
  ok (a, record k'' { runq = k''.runq ++ (a ∷ []) })

abbrev pub without : ℕ → List ℕ → List ℕ
without a [] = []
without a (x ∷ xs) = let rest = without a xs in if x == a then xs else x ∷ rest

-- `pre_fork` up to the block, and from there on: a thread that calls it can be interrupted between.
unfoldable pub begin_fork : Kernel → Outcome (ℕ × Kernel)
unfolding th_alloc
begin_fork k = do (a, k') ← th_alloc k; ok (a, record k' { in_hand = a ∷ k'.in_hand })

unfoldable pub end_fork : Kernel → ℕ → ℕ → ℕ → Bool → Bool → Outcome Kernel
unfolding init_thread
end_fork k a code arg enable_interrupt sys_mode = do
  k' ← update k a (init_thread k.trampoline code arg enable_interrupt sys_mode)
  ok (record k' { in_hand = without a k'.in_hand; runq = k'.runq ++ (a ∷ []) })

-- `cur_thread = scheduler_thread`, and the switch to its context.
unfoldable pub to_scheduler : Kernel → Outcome (ℕ × Kernel)
to_scheduler k = do
  a ← deref k.scheduler_thread
  t ← elem_at k.blocks a
  ok (t.saved_sp, record k { cur_thread = k.scheduler_thread })

unfoldable pub pre_exit : Kernel → Outcome (ℕ × Kernel)
unfolding th_free to_scheduler
pre_exit k = do a ← deref k.cur_thread; to_scheduler (th_free k a)

-- `none` is a return to the caller, which asks the other handlers.
unfoldable pub int_vector_pre_threads : Kernel → ℕ → ℕ → Outcome (Option ℕ × Kernel)
unfolding update to_scheduler
int_vector_pre_threads k pending sp = if pending % 2 == 0 then ok (none, k) else (do
  a ← deref k.cur_thread
  k' ← update (record k { runq = k.runq ++ (a ∷ []) }) a (λ t. record t { saved_sp = sp })
  (next_sp, k'') ← to_scheduler k'
  ok (some next_sp, k''))
