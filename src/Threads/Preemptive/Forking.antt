-- ===== src/Threads/Preemptive/Forking.antt =====
-- preemptive-threads/preemptive-thread.c: what fork, exit and the timer do with the places of
-- threads.
use dfs_pios_ro.Base.{
  List, ℕ, ◌%◌, ◌≡◌, ◌<◌, Bool, ok, ◌≢◌, length, ◌∷◌, ◌++◌, [], set, u32, some, arith, ◌+◌,
  length-append, length-set, refl, ℕ_discrete, ==-false_of_ne, >>=-ok, ◌∙◌, elem_at, hit, hit_self,
  copies-last, copies, ◌==◌, true,
}
use dfs_pios_ro.Threads.Preemptive.{
  Kernel, Thread, take_block, number, th_alloc, init_thread, pre_fork, th_free, pre_exit,
  int_vector_pre_threads, begin_fork, end_fork, without,
}
use dfs_pios_ro.Threads.Preemptive.Places.{
  IsApart, IsIdle, IsRunning, IsApart-less, allocated_of_held, update_eq, to_scheduler-IsIdle,
  deref-eq,
}

-- A kernel that differs in its blocks, in the queue of free ones and in its counters.
abbrev pub reblocked : Kernel → List Thread → List ℕ → ℕ → ℕ → Kernel
reblocked k blocks freeq tid nalloced = record k {
  blocks = blocks;
  freeq = freeq;
  tid = tid;
  nalloced = nalloced;
}

take_block-IsApart :
    (k : Kernel) (free hands : List ℕ)
    → k.freeq ≡ free
    → IsApart k hands
    → (a : ℕ) × (blocks : List Thread) × (freeq : List ℕ) × (n : ℕ) × (take_block k free
        ≡ (a, reblocked k blocks freeq k.tid n))
      × IsApart (reblocked k blocks freeq k.tid n) (a ∷ hands)
unfolding take_block
take_block-IsApart k [] hands e apart =
    let grown : length (k.blocks ++ (k.unused ∷ [])) ≡ length k.blocks + 1 =
      length-append k.blocks (k.unused ∷ []) in
    (
      length k.blocks,
      k.blocks ++ (k.unused ∷ []),
      k.freeq,
      u32 (k.nalloced + 1),
      refl,
      record {
        once = λ b. elim (ℕ_discrete (length k.blocks) b) [
          | yes same ↦
              let fresh = apart.real b (omega arith) in
              let own : hit b (length k.blocks) ≡ 1 = rw same (hit_self b) in omega arith
          | no other ↦
              let own : hit b (length k.blocks) ≡ 0 =
                rw (==-false_of_ne (length k.blocks) b other) refl in
              omega (arith, apart.once b)
        ];
        real = λ b beyond.
            let own : hit b (length k.blocks) ≡ 0 =
              rw (==-false_of_ne (length k.blocks) b (omega arith)) refl in
            omega (arith, apart.real b (omega arith));
      },
    )
take_block-IsApart k (a ∷ rest) hands e apart = (
  a,
  k.blocks,
  rest,
  k.nalloced,
  refl,
  IsApart-less apart (λ b. rw e (omega arith)) (omega arith),
)

number_eq :
    (k : Kernel) (a : ℕ)
    → a < length k.blocks
    → (t : Thread) × (number (a, k)
        ≡ ok (a, record k { blocks = set k.blocks a t; tid = u32 (k.tid + 1) }))
unfolding number
number_eq k a lt =
    let (t, at, e) = update_eq k a (λ t. record t { tid = k.tid }) lt in
    (record t { tid = k.tid }, rw e refl)

-- A new block is in no place but the caller's hands.
pub th_alloc-IsApart :
    {k : Kernel} {hands : List ℕ}
    → IsApart k hands
    → (a : ℕ) × (blocks : List Thread) × (freeq : List ℕ) × (n : ℕ) × (th_alloc k
        ≡ ok (a, reblocked k blocks freeq (u32 (k.tid + 1)) n))
      × IsApart (reblocked k blocks freeq (u32 (k.tid + 1)) n) (a ∷ hands)
unfolding th_alloc
th_alloc-IsApart {k} {hands} apart =
    let (a, blocks, freeq, n, e, apart') = take_block-IsApart k k.freeq hands refl apart in
    let lt = allocated_of_held apart' a (rw (hit_self a) (omega arith)) in
    let (t, numbered) = number_eq (reblocked k blocks freeq k.tid n) a lt in
    (
      a,
      set blocks a t,
      freeq,
      n,
      rw e numbered,
      IsApart-less apart' (λ b. omega arith) (rw (length-set blocks a t) (omega arith)),
    )

-- The new thread stands behind the others.
pub pre_fork-IsApart :
    {k : Kernel} {hands : List ℕ}
    → IsApart k hands
    → (code arg : ℕ) (enable_interrupt sys_mode : Bool)
    → (a : ℕ) × (blocks : List Thread) × (freeq : List ℕ) × (n : ℕ) × (pre_fork k code arg
          enable_interrupt sys_mode
        ≡ ok (
          a,
          record (reblocked k blocks freeq (u32 (k.tid + 1)) n) { runq = k.runq ++ (a ∷ []) },
        ))
      × IsApart
          (record (reblocked k blocks freeq (u32 (k.tid + 1)) n) { runq = k.runq ++ (a ∷ []) })
          hands
unfolding pre_fork
pre_fork-IsApart {k} {hands} apart code arg enable_interrupt sys_mode =
    let (a, blocks, freeq, n, e, apart') = th_alloc-IsApart apart in
    let lt = allocated_of_held apart' a (rw (hit_self a) (omega arith)) in
    let init = init_thread k.trampoline code arg enable_interrupt sys_mode in
    let (t, at, updated) = update_eq (reblocked k blocks freeq (u32 (k.tid + 1)) n) a init lt in
    (
      a,
      set blocks a (init t),
      freeq,
      n,
      rw (e, updated) refl,
      IsApart-less apart' (λ b. omega (arith, copies-last b k.runq a))
          (rw (length-set blocks a (init t)) (omega arith)),
    )

copies-without :
    (a b : ℕ) (xs : List ℕ) → 0 < copies a xs → copies b xs ≡ hit b a + copies b (without a xs)
copies-without a b [] some_there = absurd (omega arith)
copies-without a b (x ∷ xs) some_there = elim (ℕ_discrete x a) [
  | yes same ↦ let own : (a == a) ≡ true = ground arith in rw (same, own) (omega arith)
  | no other ↦
      let miss : hit a x ≡ 0 = rw (==-false_of_ne x a other) refl in
      let rest = copies-without a b xs (omega arith) in rw (==-false_of_ne x a other) (omega arith)
]

-- The new block is in the hands of the fork.
pub begin_fork-IsApart :
    {k : Kernel} {hands : List ℕ}
    → IsApart k hands
    → (a : ℕ) × (blocks : List Thread) × (freeq : List ℕ) × (n : ℕ) × (begin_fork k
        ≡ ok (a, record (reblocked k blocks freeq (u32 (k.tid + 1)) n) { in_hand = a ∷ k.in_hand }))
      × IsApart
          (record (reblocked k blocks freeq (u32 (k.tid + 1)) n) { in_hand = a ∷ k.in_hand })
          hands
unfolding begin_fork
begin_fork-IsApart {k} {hands} apart =
    let (a, blocks, freeq, n, e, apart') = th_alloc-IsApart apart in
    (a, blocks, freeq, n, >>=-ok _ e, IsApart-less apart' (λ b. omega arith) (omega arith))

-- From there it comes behind the other threads.
pub end_fork-IsApart :
    {k : Kernel} {hands : List ℕ}
    → IsApart k hands
    → (a : ℕ) → 0 < copies a k.in_hand
    → (code arg : ℕ) (enable_interrupt sys_mode : Bool)
    → (blocks : List Thread) × (end_fork k a code arg enable_interrupt sys_mode
        ≡ ok (record k {
          blocks = blocks;
          in_hand = without a k.in_hand;
          runq = k.runq ++ (a ∷ []);
        }))
      × IsApart
          (record k { blocks = blocks; in_hand = without a k.in_hand; runq = k.runq ++ (a ∷ []) })
          hands
unfolding end_fork
end_fork-IsApart {k} {hands} apart a there code arg enable_interrupt sys_mode =
    let lt = allocated_of_held apart a (omega (arith, there)) in
    let init = init_thread k.trampoline code arg enable_interrupt sys_mode in
    let (t, at, updated) = update_eq k a init lt in
    (
      set k.blocks a (init t),
      >>=-ok _ updated,
      IsApart-less apart
          (λ b. omega (arith, copies-last b k.runq a, copies-without a b k.in_hand there))
          (rw (length-set k.blocks a (init t)) (omega arith)),
    )

-- A thread that exits gives its block back.
pub pre_exit-IsIdle :
    {k : Kernel} → IsRunning k → (sp : ℕ) × (k' : Kernel) × (pre_exit k ≡ ok (sp, k')) × IsIdle k'
unfolding pre_exit th_free
pre_exit-IsIdle {k} (s, sched, (a, cur, apart)) =
    let freed = record k { freeq = a ∷ k.freeq } in
    let apart' : IsApart freed [] = IsApart-less apart (λ b. omega arith) (omega arith) in
    let (sp, e, idle) = to_scheduler-IsIdle sched apart' in
    (sp, record freed { cur_thread = k.scheduler_thread }, >>=-ok _ (deref-eq cur) ∙ e, idle)

-- The timer puts the thread behind the others.
pub int_vector_pre_threads-IsIdle :
    {k : Kernel} (pending : ℕ)
    → IsRunning k
    → pending % 2 ≢ 0
    → (sp : ℕ)
    → (next_sp : ℕ) × (k' : Kernel) × (int_vector_pre_threads k pending sp ≡ ok (some next_sp, k'))
      × IsIdle k'
      × ((a : ℕ) × (t : Thread) × (k.cur_thread ≡ some a)
          × (elem_at k.blocks a ≡ ok t)
          × (k'.runq ≡ k.runq ++ (a ∷ []))
          × (k'.blocks ≡ set k.blocks a (record t { saved_sp = sp })))
unfolding int_vector_pre_threads
int_vector_pre_threads-IsIdle {k} pending (s, sched, (a, cur, apart)) odd sp =
    let lt = allocated_of_held apart a (rw (hit_self a) (omega arith)) in
    let queued = record k { runq = k.runq ++ (a ∷ []) } in
    let (t, at, updated) = update_eq queued a (λ t. record t { saved_sp = sp }) lt in
    let saved = record queued { blocks = set k.blocks a (record t { saved_sp = sp }) } in
    let apart' : IsApart saved [] =
      IsApart-less apart (λ b. omega (arith, copies-last b k.runq a))
        (rw (length-set k.blocks a (record t { saved_sp = sp })) (omega arith)) in
    let (next_sp, e, idle) = to_scheduler-IsIdle sched apart' in
    (
      next_sp,
      record saved { cur_thread = k.scheduler_thread },
      rw (==-false_of_ne (pending % 2) 0 odd)
          (>>=-ok _ (deref-eq cur) ∙ (>>=-ok _ updated ∙ >>=-ok _ e)),
      idle,
      (a, t, cur, at, refl, refl),
    )
