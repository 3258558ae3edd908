-- ===== src/Threads/Preemptive/Choice.antt =====
-- preemptive-threads/preemptive-thread.c: the thread that a round of the scheduler chooses.
use dfs_pios_ro.Threads.Preemptive.Waiting.{IsWaiting, must_wait-cases, lock_of, run_thread_eq}
use dfs_pios_ro.Base.{
  ◌≡◌, ℕ, some, elem_at, true, List, [], ◌++◌, All, ok, ◌∷◌, ◌⊎◌, false, set, sym, inl, ◌∙◌, inr,
  refl, >>=-ok, append_assoc, arith, Outcome, ap, Option, length-set, append-nil, none, subst,
  hit_self, copies-last,
}
use dfs_pios_ro.Threads.Preemptive.{Kernel, Thread, stdio, no_reason}
use dfs_pios_ro.Threads.Preemptive.Scheduler.{must_wait, run_thread, pick}
use dfs_pios_ro.Threads.Preemptive.Places.{
  IsApart, IsRunning, IsApart-less, allocated_of_held, scheduler-allocated, elem_at-in,
}
use dfs_pios_ro.Threads.Preemptive.Console.{IsFree}
use dfs_pios_ro.Threads.Preemptive.Rounds.{IsIdleOf}

-- The choice of thread `a`: those in front of it are blocked, and those behind it stay.
pub record Ran (k k' : Kernel) (s a : ℕ) : Type 0 where
  pub before : List ℕ
  pub after : List ℕ
  pub thread : Thread
  pub split : k.runq ≡ before ++ (a ∷ after)
  pub behind : k'.runq ≡ after
  pub skipped : All (IsWaiting k) before
  pub blocked : k'.blockq ≡ k.blockq ++ before
  pub block : elem_at k.blocks a ≡ ok thread
  pub owner : (thread.block_reason ≡ stdio) → IsFree k thread.tid × (k'.stdout_lock ≡ thread.tid)
  pub bystander : (thread.block_reason ≡ no_reason) → k'.stdout_lock ≡ k.stdout_lock
  pub current : k'.cur_thread ≡ some a
  pub saved :
      (v : Thread) × (p : ℕ) × (elem_at k.blocks s ≡ ok v)
      × (k'.blocks ≡ set k.blocks s (record v { saved_sp = p }))

-- No thread can run: all of them are blocked.
pub record Stalled (k k' : Kernel) : Type 0 where
  pub nobody : k'.runq ≡ []
  pub skipped : All (IsWaiting k) k.runq
  pub blocked : k'.blockq ≡ k.blockq ++ k.runq
  pub lock : k'.stdout_lock ≡ k.stdout_lock

-- What the loop over the threads of `runq` leaves.
abbrev pub Picked : Kernel → ℕ → Outcome (Option ℕ × Kernel) → Type 0
Picked k s r =
    ((k' : Kernel) × (r ≡ ok (none, k')) × Stalled k k' × IsIdleOf s k')
    ⊎ ((k' : Kernel) × (a next_sp : ℕ) × (r ≡ ok (some next_sp, k')) × Ran k k' s a × IsRunning k')

Stalled-skip :
    (k k' : Kernel) (b : ℕ) (rest : List ℕ)
    → IsWaiting k b
    → Stalled (record k { runq = rest; blockq = k.blockq ++ (b ∷ []) }) k'
    → Stalled (record k { runq = b ∷ rest }) k'
Stalled-skip k k' b rest waits r = record {
  nobody = r.nobody;
  skipped = (waits, r.skipped);
  blocked = r.blocked ∙ append_assoc k.blockq _ _;
  lock = r.lock;
}

module _ {s : ℕ} where
  Ran-skip :
      (k k' : Kernel) (b a : ℕ) (rest : List ℕ)
      → IsWaiting k b
      → Ran (record k { runq = rest; blockq = k.blockq ++ (b ∷ []) }) k' s a
      → Ran (record k { runq = b ∷ rest }) k' s a
  Ran-skip k k' b a rest waits r = record {
    before = b ∷ r.before;
    after = r.after;
    thread = r.thread;
    split = ap (λ q. b ∷ q) r.split;
    behind = r.behind;
    skipped = (waits, r.skipped);
    blocked = r.blocked ∙ append_assoc k.blockq _ _;
    block = r.block;
    owner = r.owner;
    bystander = r.bystander;
    current = r.current;
    saved = r.saved;
  }

  Picked-skip :
      (k : Kernel) (b : ℕ) (rest : List ℕ)
      → IsWaiting k b
      → (r : Outcome (Option ℕ × Kernel))
      → Picked (record k { runq = rest; blockq = k.blockq ++ (b ∷ []) }) s r
      → Picked (record k { runq = b ∷ rest }) s r
  Picked-skip k b rest waits r (inl (k', e, stalled, idle)) =
      inl (k', e, Stalled-skip k k' b rest waits stalled, idle)
  Picked-skip k b rest waits r (inr (k', a, next_sp, e, ran, running)) =
      inr (k', a, next_sp, e, Ran-skip k k' b a rest waits ran, running)

  run_thread-Picked :
      (k : Kernel) (a : ℕ) (rest : List ℕ) (sp : ℕ) (t : Thread)
      → IsIdleOf s (record k { runq = a ∷ rest })
      → elem_at k.blocks a ≡ ok t
      → ((t.block_reason ≡ stdio) → IsFree k t.tid)
      → Picked (record k { runq = a ∷ rest }) s (run_thread (record k { runq = rest }) a t sp)
  run_thread-Picked k a rest sp t (sched, cur, apart) at free =
      let k1 = record k { runq = rest } in
      let (u, saved_at, e) = run_thread_eq k1 s a t sp sched (scheduler-allocated apart s sched) in
      let k' = record k1 {
        blocks = set k.blocks s (record u { saved_sp = sp });
        stdout_lock = lock_of k1 t;
        cur_thread = some a;
      } in
      let apart' : IsApart k' (a ∷ []) =
        IsApart-less apart (λ b. omega arith)
          (rw (length-set k.blocks s (record u { saved_sp = sp })) (omega arith)) in
      inr (
        k',
        a,
        t.saved_sp,
        e,
        record {
          before = [];
          after = rest;
          thread = t;
          split = refl;
          behind = refl;
          skipped = tt;
          blocked = sym (append-nil k.blockq);
          block = at;
          owner = λ needs. (free needs, rw needs refl);
          bystander = λ none_needed. rw none_needed refl;
          current = refl;
          saved = (u, sp, saved_at, refl);
        },
        (s, sched, (a, refl, apart')),
      )

  pub pick-Picked :
      (queue : List ℕ) (k : Kernel) (sp : ℕ)
      → k.runq ≡ queue
      → IsIdleOf s k
      → Picked k s (pick queue k sp)
  unfolding pick
  pick-Picked [] k sp e idle = inl (
    k,
    refl,
    record {
      nobody = e;
      skipped = rw e tt;
      blocked = rw e (sym (append-nil k.blockq));
      lock = refl;
    },
    idle,
  )
  pick-Picked (a ∷ rest) k sp e (sched, cur, apart) =
      let k1 = record k { runq = rest } in
      let k2 = record k1 { blockq = k.blockq ++ (a ∷ []) } in
      let lt = allocated_of_held apart a (rw (e, hit_self a) (omega arith)) in
      let (t, at) = elem_at-in k.blocks a lt in
      let idle2 : IsIdleOf s k2 = (
        sched,
        cur,
        IsApart-less apart (λ b. rw e (omega (arith, copies-last b k.blockq a))) (omega arith),
      ) in
      let later = pick-Picked rest k2 sp refl idle2 in
      let idle1 : IsIdleOf s (record k { runq = a ∷ rest }) =
        (sched, cur, IsApart-less apart (λ b. rw e (omega arith)) (omega arith)) in
      let chosen : Picked (record k { runq = a ∷ rest }) s
          (elim (must_wait k1 t) [ true ↦ pick rest k2 sp | false ↦ run_thread k1 a t sp ]) =
        elim (must_wait-cases k1 t) [
          | inl (wait, needs, taken, foreign) ↦
              rw wait (Picked-skip k a rest (t, at, needs, taken, foreign) _ later)
          | inr (go, free) ↦ rw go (run_thread-Picked k a rest sp t idle1 at free)
        ] in
      let moved : Picked (record k { runq = a ∷ rest }) s (pick (a ∷ rest) k sp) =
        subst (Picked (record k { runq = a ∷ rest }) s) (sym (>>=-ok _ at)) chosen in
      subst (λ q. Picked (record k { runq = q }) s (pick (a ∷ rest) k sp)) (sym e) moved
