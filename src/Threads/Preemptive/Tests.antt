-- ===== src/Threads/Preemptive/Tests.antt =====
-- The theorems on a system of two threads and the scheduler, whose block is the third.
use dfs_pios_ro.Threads.Preemptive.{begin_fork, int_vector_pre_threads}
use dfs_pios_ro.Threads.Preemptive.Handlers.{request_stdout, end_stdin}
use dfs_pios_ro.Threads.Preemptive.Console.{request_stdout-owner, IsFree}
use dfs_pios_ro.Threads.Preemptive.Calls.{end_stdin-cases, input_ended}
use dfs_pios_ro.Threads.Preemptive.Fairness.{turns, turns-HasRun, HasRun}
use dfs_pios_ro.Threads.Preemptive.Steps.{Reach, here, next, fork_begins, timer, Reach-IsSound}
use dfs_pios_ro.Threads.Preemptive.Places.{IsSound}
use dfs_pios_ro.Base.{
  none, some, Option, ◌∷◌, refl, arith, ℕ, [], true, List, false, ◌≡◌, inl, ok, fault, ◌⊎◌, ◌≢◌,
  ◌++◌, elem_at,
}
use dfs_pios_ro.Circular.{Queue}
use dfs_pios_ro.Threads.Preemptive.{Kernel, Thread, no_reason}
use dfs_pios_ro.Threads.Preemptive.Places.{IsApart, IsIdle, IsRunning}

abbrev no_chars : Queue
no_chars = record { c_buf = []; fence = 0; head = 0; tail = 0; overflow = 0; errors_fatal_p = true }

abbrev thread : ℕ → Thread
thread tid = record {
  saved_sp = 2031;
  tid = tid;
  fn = 0x8000;
  arg = 0;
  block_reason = no_reason;
  stack = λ i. 0;
}

-- What runs, what can run, and who has the console.
abbrev kernel : Option ℕ → List ℕ → ℕ → Kernel
kernel cur_thread runq lock = record {
  blocks = thread 1 ∷ thread 2 ∷ thread 3 ∷ [];
  runq = runq;
  freeq = [];
  blockq = [];
  in_hand = [];
  cur_thread = cur_thread;
  scheduler_thread = some 2;
  wait_stdout_thread = none;
  wait_stdin_thread = none;
  tid = 4;
  nalloced = 3;
  stdout_lock = lock;
  put_q = no_chars;
  get_q = no_chars;
  tx_interrupt = false;
  rx_interrupt = false;
  printer_code = 0x9000;
  trampoline = 0xa000;
  unused = thread 0;
}

abbrev idle : Kernel
idle = kernel (some 2) (0 ∷ 1 ∷ []) 0

idle-IsIdle : IsIdle idle
idle-IsIdle = (2, refl, refl, record { once = λ a. ground arith; real = λ a beyond. ground arith })

-- The first thread runs while the second has the console.
abbrev busy : Kernel
busy = kernel (some 0) (1 ∷ []) 2

busy-IsApart : IsApart busy (0 ∷ [])
busy-IsApart = record { once = λ a. ground arith; real = λ a beyond. ground arith }

busy-IsRunning : IsRunning busy
busy-IsRunning = (2, refl, (0, refl, busy-IsApart))

-- The first thread calls `pre_fork`, which takes a new block, and the timer stops it there.
abbrev forking : Kernel
forking = record busy {
  blocks = thread 1 ∷ thread 2 ∷ thread 3 ∷ thread 4 ∷ [];
  in_hand = 3 ∷ [];
  tid = 5;
  nalloced = 4;
}

abbrev stopped : Kernel
stopped = record forking {
  blocks = record (thread 1) { saved_sp = 77 } ∷ thread 2 ∷ thread 3 ∷ thread 4 ∷ [];
  runq = 1 ∷ 0 ∷ [];
  cur_thread = some 2;
}

stops : Reach busy stopped
unfolding begin_fork int_vector_pre_threads
stops = next (next here (fork_begins 3 refl)) (timer 1 77 (some 2031) (λ e. absurd (cc)) refl)

Reach-IsSound_example : IsSound stopped
Reach-IsSound_example = Reach-IsSound (inl busy-IsRunning) stops

turns-HasRun_example :
    (ran : List (Option ℕ)) × (k' : Kernel) × (turns ((100, 101) ∷ (102, 103) ∷ []) idle
      ≡ ok (ran, k'))
    × IsIdle k'
    × HasRun 1 ran
turns-HasRun_example =
    turns-HasRun ((100, 101) ∷ (102, 103) ∷ []) idle 1 (0 ∷ []) (omega arith) idle-IsIdle
      (([], refl), (thread 2, refl, refl))

request_stdout-owner_example :
    (next_sp : ℕ) × (k' : Kernel) × (request_stdout busy 50 ≡ ok (next_sp, k'))
    × ((IsFree busy 1 × IsRunning k' × (next_sp ≡ 50) × (k'.stdout_lock ≡ 1))
        ⊎ ((busy.stdout_lock ≢ 0)
            × (busy.stdout_lock ≢ 1)
            × IsIdle k'
            × (k'.blockq ≡ busy.blockq ++ (0 ∷ []))
            × (k'.stdout_lock ≡ busy.stdout_lock)))
request_stdout-owner_example = request_stdout-owner refl refl busy-IsApart (thread 1) refl 50

-- The second thread waits for its output while the first runs.
abbrev printing : Kernel
printing = record (kernel (some 0) [] 2) { wait_stdout_thread = some 1 }

printing-IsRunning : IsRunning printing
printing-IsRunning =
    (2, refl, (0, refl, record { once = λ a. ground arith; real = λ a beyond. ground arith }))

end_stdin-cases_example :
    ((printing.wait_stdout_thread ≡ none) × (end_stdin printing 50 ≡ fault))
    ⊎ ((w : ℕ) × (t : Thread) × (printing.wait_stdout_thread ≡ some w)
        × (elem_at printing.blocks w ≡ ok t)
        × (end_stdin printing 50 ≡ ok (50, input_ended printing w t))
        × IsRunning (input_ended printing w t))
end_stdin-cases_example = end_stdin-cases printing-IsRunning 50
