-- ===== src/Threads/Cooperative.antt =====
-- threads/rpi-thread.c: threads that give up the processor themselves. A pointer to a thread is the
-- number of its block in the order of allocation, and a queue is the list of its threads, the front
-- one first. `rpi_cswitch` ends an operation: the state is that in which the next thread goes on.
pub mod Turns
mod Tests
use dfs_pios_ro.Threads.Preemptive.{thread_maxstack, write_word}
use dfs_pios_ro.Base.{
  ℕ, List, Outcome, Option, fault, some, length, ◌>>=◌, ◌-◌, elem_at, ◌++◌, ok, none, u32, set, ◌+◌,
  ◌∷◌, [],
}

-- `rpi_thread_t`: `saved_sp` counts the words of the stack.
pub record Block : Type 0 where
  pub saved_sp : ℕ
  pub tid : ℕ
  pub fn : ℕ
  pub arg : ℕ
  pub stack : ℕ → ℕ

-- The static variables, the address of `rpi_init_trampoline`, and what the memory that
-- `kmalloc_aligned` gives holds.
pub record Pool : Type 0 where
  pub blocks : List Block
  pub runq : List ℕ
  pub freeq : List ℕ
  pub cur_thread : Option ℕ
  pub scheduler_thread : Option ℕ
  pub tid : ℕ
  pub nalloced : ℕ
  pub init_trampoline : ℕ
  pub unused : Block

unfoldable pub set_block : Pool → ℕ → (Block → Block) → Outcome Pool
set_block p a f = do t ← elem_at p.blocks a; ok (record p { blocks = set p.blocks a (f t) })

-- `Q_pop(&freeq)`, or a new block.
unfoldable pub pop_free : Pool → List ℕ → ℕ × Pool
pop_free p [] = (
  length p.blocks,
  record p { blocks = p.blocks ++ (p.unused ∷ []); nalloced = u32 (p.nalloced + 1) },
)
pop_free p (a ∷ rest) = (a, record p { freeq = rest })

-- `th_alloc`.
unfoldable pub alloc_block : Pool → Outcome (ℕ × Pool)
unfolding pop_free set_block
alloc_block p = do
  let (a, p') = pop_free p p.freeq
  p'' ← set_block p' a (λ t. record t { tid = p.tid })
  ok (a, record p'' { tid = u32 (p.tid + 1) })

-- `th_free`.
unfoldable pub free_block : Pool → Option ℕ → Outcome Pool
free_block p none = fault
free_block p (some a) = ok (record p { freeq = a ∷ p.freeq })

-- The stack of a new thread, from which the switch loads r4 to r11 and r14.
unfoldable pub start_stack : Pool → ℕ → ℕ → Block → Block
start_stack p code arg t =
    let sp = thread_maxstack - 10 in
    record t {
      arg = arg;
      fn = code;
      saved_sp = sp;
      stack =
          write_word (write_word (write_word t.stack sp arg) (sp + 1) code) (sp + 8)
            p.init_trampoline;
    }

unfoldable pub rpi_fork : Pool → ℕ → ℕ → Outcome (ℕ × Pool)
unfolding alloc_block set_block start_stack
rpi_fork p code arg = do
  (a, p') ← alloc_block p
  p'' ← set_block p' a (start_stack p code arg)
  ok (a, record p'' { runq = p''.runq ++ (a ∷ []) })

-- `rpi_cswitch` to thread `a`, whose `saved_sp` is read.
unfoldable pub switch_to : Pool → Option ℕ → Outcome Pool
switch_to p none = fault
switch_to p (some a) = do _ ← elem_at p.blocks a; ok (record p { cur_thread = some a })

unfoldable pub rpi_exit : Pool → Outcome Pool
unfolding free_block switch_to
rpi_exit p = elim p.runq [
  | [] ↦ (do p' ← free_block p p.cur_thread; switch_to p' p.scheduler_thread)
  | a ∷ rest ↦ (do p' ← free_block (record p { runq = rest }) p.cur_thread; switch_to p' (some a))
]

-- `Q_append(&runq, old)`, which writes the field `next` of `old`.
unfoldable pub append_run : Pool → Option ℕ → Outcome Pool
append_run p none = fault
append_run p (some a) = ok (record p { runq = p.runq ++ (a ∷ []) })

unfoldable pub rpi_yield : Pool → Outcome Pool
unfolding append_run switch_to
rpi_yield p = elim p.runq [
  | [] ↦ ok p
  | a ∷ rest ↦ (do p' ← append_run (record p { runq = rest }) p.cur_thread; switch_to p' (some a))
]

-- The block of the caller of `rpi_thread_start`.
unfoldable pub ensure_caller : Pool → Outcome Pool
unfolding alloc_block
ensure_caller p = elim p.scheduler_thread [
  | some _ ↦ ok p
  | none ↦ (do
    (a, p') ← alloc_block p
    ok (record p' { scheduler_thread = some a; cur_thread = some a }))
]

unfoldable pub rpi_thread_start : Pool → Outcome Pool
unfolding ensure_caller switch_to
rpi_thread_start p = elim p.runq [
  | [] ↦ ok p
  | a ∷ rest ↦ (do p' ← ensure_caller p; switch_to (record p' { runq = rest }) (some a))
]
