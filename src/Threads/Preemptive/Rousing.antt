-- ===== src/Threads/Preemptive/Rousing.antt =====
-- preemptive-threads/preemptive-thread.c: which threads the scheduler wakes, and what that does to
-- the console.
use dfs_pios_ro.Base.{
  ℕ, List, ◌≡◌, Option, ok, some, ◌∷◌, [], ◌++◌, set, none, ◌∙◌, refl, sym, ap, append-nil,
  append_assoc, ◌⊎◌, inl, inr, true, false, elem_at, ok-injective, subst, >>=-eq-ok, Bool-cases,
  if◌then◌else◌, ◌>>=◌, >>=-assoc,
}
use dfs_pios_ro.Threads.Preemptive.{
  Kernel, Thread, stdio, no_reason, stdio_is_idle, write_stdio_tid, update,
}
use dfs_pios_ro.Threads.Preemptive.Scheduler.{wake_stdin, wake_stdout, unblock}
use dfs_pios_ro.Threads.Preemptive.Console.{stdio_is_idle-cases}
use dfs_pios_ro.Circular.{cq_empty}

-- The thread that waits for input comes behind `runq` if there is some.
abbrev InputWakes : Kernel → List ℕ → Type 0
InputWakes k ws =
    (ws ≡ [])
    ⊎ ((w : ℕ) × (ws ≡ w ∷ []) × (k.wait_stdin_thread ≡ some w) × (cq_empty k.get_q ≡ false))

-- The thread that waits for its output comes behind `runq` if all is sent, and the console is free;
-- else the console and the blocks stay.
abbrev OutputWakes : Kernel → List ℕ → ℕ → List Thread → Type 0
OutputWakes k ws lock blocks =
    ((ws ≡ []) × (lock ≡ k.stdout_lock) × (blocks ≡ k.blocks))
    ⊎ ((w : ℕ) × (t : Thread) × (ws ≡ w ∷ [])
        × (k.wait_stdout_thread ≡ some w)
        × (cq_empty k.put_q ≡ true)
        × (elem_at k.blocks w ≡ ok t)
        × (lock ≡ 0)
        × (blocks ≡ set k.blocks w (record t { block_reason = no_reason })))

-- What waking threads does.
pub record Roused (k k' : Kernel) : Type 0 where
  pub by_input : List ℕ
  pub by_output : List ℕ
  pub unblocked : List ℕ
  pub queued : k'.runq ≡ k.runq ++ (by_input ++ (by_output ++ unblocked))
  pub input : InputWakes k by_input
  pub output : OutputWakes k by_output k'.stdout_lock k'.blocks
  pub still_blocked : k.blockq ≡ unblocked ++ k'.blockq
  pub only_free : (unblocked ≡ []) ⊎ (k'.stdout_lock ≡ 0)

record ByInput (k k' : Kernel) : Type 0 where
  woken : List ℕ
  queued : k'.runq ≡ k.runq ++ woken
  input : InputWakes k woken
  same_lock : k'.stdout_lock ≡ k.stdout_lock
  same_blocks : k'.blocks ≡ k.blocks
  same_blockq : k'.blockq ≡ k.blockq
  same_wait : k'.wait_stdout_thread ≡ k.wait_stdout_thread
  same_put_q : k'.put_q ≡ k.put_q

ByInput-refl : (k : Kernel) → ByInput k k
ByInput-refl k = record {
  woken = [];
  queued = sym (append-nil k.runq);
  input = inl refl;
  same_lock = refl;
  same_blocks = refl;
  same_blockq = refl;
  same_wait = refl;
  same_put_q = refl;
}

wake_stdin-ByInput :
    (k : Kernel) (o : Option ℕ) → k.wait_stdin_thread ≡ o → ByInput k (wake_stdin k o)
unfolding wake_stdin
wake_stdin-ByInput k none e = ByInput-refl k
wake_stdin-ByInput k (some w) e = elim (Bool-cases (cq_empty k.get_q)) [
  | inl empty ↦ rw empty (ByInput-refl k)
  | inr full ↦ rw full (record {
    woken = w ∷ [];
    queued = refl;
    input = inr (w, refl, e, full);
    same_lock = refl;
    same_blocks = refl;
    same_blockq = refl;
    same_wait = refl;
    same_put_q = refl;
  })
]

record ByOutput (k k' : Kernel) : Type 0 where
  woken : List ℕ
  queued : k'.runq ≡ k.runq ++ woken
  output : OutputWakes k woken k'.stdout_lock k'.blocks
  same_blockq : k'.blockq ≡ k.blockq

ByOutput-refl : (k : Kernel) → ByOutput k k
ByOutput-refl k = record {
  woken = [];
  queued = sym (append-nil k.runq);
  output = inl (refl, refl, refl);
  same_blockq = refl;
}

-- Behind the wake-up of `w`, with the block `t`, by its output.
abbrev output_sent : Kernel → ℕ → Thread → Kernel
output_sent k w t = record k {
  stdout_lock = 0;
  blocks = set k.blocks w (record t { block_reason = no_reason });
  runq = k.runq ++ (w ∷ []);
  wait_stdout_thread = none;
}

wake_stdout-empty :
    (k : Kernel) (w : ℕ)
    → cq_empty k.put_q ≡ true
    → wake_stdout k (some w) ≡ (do t ← elem_at k.blocks w; ok (output_sent k w t))
unfolding wake_stdout write_stdio_tid update
wake_stdout-empty k w empty = rw empty (>>=-assoc (elem_at k.blocks w) _ _)

wake_stdout-full : (k : Kernel) (w : ℕ) → cq_empty k.put_q ≡ false → wake_stdout k (some w) ≡ ok k
unfolding wake_stdout
wake_stdout-full k w full = rw full refl

wake_stdout-ByOutput :
    (k k' : Kernel) (o : Option ℕ)
    → k.wait_stdout_thread ≡ o
    → wake_stdout k o ≡ ok k'
    → ByOutput k k'
unfolding wake_stdout
wake_stdout-ByOutput k k' none waits e = subst (ByOutput k) (ok-injective k k' e) (ByOutput-refl k)
wake_stdout-ByOutput k k' (some w) waits e = elim (Bool-cases (cq_empty k.put_q)) [
  | inl empty ↦
      let (t, at, e') = >>=-eq-ok (elem_at k.blocks w) _ (sym (wake_stdout-empty k w empty) ∙ e) in
      subst (ByOutput k) (ok-injective (output_sent k w t) k' e') (record {
        woken = w ∷ [];
        queued = refl;
        output = inr (w, t, refl, waits, empty, at, refl, refl);
        same_blockq = refl;
      })
  | inr full ↦
      subst (ByOutput k) (ok-injective k k' (sym (wake_stdout-full k w full) ∙ e)) (ByOutput-refl k)
]

record Unblocked (k k' : Kernel) : Type 0 where
  woken : List ℕ
  queued : k'.runq ≡ k.runq ++ woken
  still_blocked : k.blockq ≡ woken ++ k'.blockq
  same_lock : k'.stdout_lock ≡ k.stdout_lock
  same_blocks : k'.blocks ≡ k.blocks

Unblocked-refl : (k : Kernel) → Unblocked k k
Unblocked-refl k = record {
  woken = [];
  queued = sym (append-nil k.runq);
  still_blocked = refl;
  same_lock = refl;
  same_blocks = refl;
}

Unblocked-more :
    (k k' : Kernel) (a : ℕ) (rest : List ℕ)
    → k.blockq ≡ a ∷ rest
    → Unblocked (record k { blockq = rest; runq = k.runq ++ (a ∷ []) }) k'
    → Unblocked k k'
Unblocked-more k k' a rest front u = record {
  woken = a ∷ u.woken;
  queued = u.queued ∙ append_assoc k.runq (a ∷ []) u.woken;
  still_blocked = front ∙ ap (λ q. a ∷ q) u.still_blocked;
  same_lock = u.same_lock;
  same_blocks = u.same_blocks;
}

unblock-Unblocked :
    (queue : List ℕ) (k k' : Kernel) → k.blockq ≡ queue → unblock queue k ≡ ok k' → Unblocked k k'
unfolding unblock
unblock-Unblocked [] k k' front e = subst (Unblocked k) (ok-injective k k' e) (Unblocked-refl k)
unblock-Unblocked (a ∷ rest) k k' front e =
    let moved = record k { blockq = rest; runq = k.runq ++ (a ∷ []) } in
    let (t, at, e') = >>=-eq-ok (elem_at k.blocks a) _ e in
    let more : unblock rest moved ≡ ok k' → Unblocked k k' =
      λ later. Unblocked-more k k' a rest front (unblock-Unblocked rest moved k' refl later) in
    let stops : ok k ≡ ok k' → Unblocked k k' =
      λ same. subst (Unblocked k) (ok-injective k k' same) (Unblocked-refl k) in
    (elim t.block_reason
        as (λ reason.
          (elim reason [ stdio ↦ unblock rest moved | no_reason ↦ ok k ]) ≡ ok k'
          → Unblocked k k') [ stdio ↦ more | no_reason ↦ stops ])
      e'

-- The threads of `blockq` are looked at only if the console is free.
Unblocked-if_free :
    (k k' : Kernel)
    → (if stdio_is_idle k 0 then unblock k.blockq k else ok k) ≡ ok k'
    → (u : Unblocked k k') × ((u.woken ≡ []) ⊎ (k.stdout_lock ≡ 0))
unfolding Unblocked-refl
Unblocked-if_free k k' e = elim (stdio_is_idle-cases k 0) [
  | inl (idle, free) ↦
      let e' : unblock k.blockq k ≡ ok k' = sym (rw idle refl) ∙ e in
      (
        unblock-Unblocked k.blockq k k' refl e',
        inr (elim free [ inl zero ↦ zero | inr zero ↦ zero ]),
      )
  | inr (busy, taken, foreign) ↦
      let e' : ok k ≡ ok k' = sym (rw busy refl) ∙ e in
      subst (λ k'. (u : Unblocked k k') × ((u.woken ≡ []) ⊎ (k.stdout_lock ≡ 0)))
        (ok-injective k k' e') (Unblocked-refl k, inl refl)
]

OutputWakes-of :
    (k k1 : Kernel) (ws : List ℕ) (lock : ℕ) (blocks : List Thread)
    → ByInput k k1
    → OutputWakes k1 ws lock blocks
    → OutputWakes k ws lock blocks
OutputWakes-of k k1 ws lock blocks i (inl (none_woken, same_lock, same_blocks)) =
    inl (none_woken, same_lock ∙ i.same_lock, same_blocks ∙ i.same_blocks)
OutputWakes-of k k1 ws lock blocks i (inr (w, t, one, waits, empty, at, free, changed)) = inr (
  w,
  t,
  one,
  sym i.same_wait ∙ waits,
  ap cq_empty (sym i.same_put_q) ∙ empty,
  ap (λ bs. elem_at bs w) (sym i.same_blocks) ∙ at,
  free,
  changed ∙ ap (λ bs. set bs w (record t { block_reason = no_reason })) i.same_blocks,
)

pub Roused-stages :
    (k k2 k3 : Kernel)
    → (let k1 = wake_stdin k k.wait_stdin_thread in wake_stdout k1 k1.wait_stdout_thread) ≡ ok k2
    → (if stdio_is_idle k2 0 then unblock k2.blockq k2 else ok k2) ≡ ok k3
    → Roused k k3
Roused-stages k k2 k3 e2 e3 =
    let k1 = wake_stdin k k.wait_stdin_thread in
    let i = wake_stdin-ByInput k k.wait_stdin_thread refl in
    let o = wake_stdout-ByOutput k1 k2 k1.wait_stdout_thread refl e2 in
    let (u, free) = Unblocked-if_free k2 k3 e3 in
    record {
      by_input = i.woken;
      by_output = o.woken;
      unblocked = u.woken;
      queued =
          u.queued
          ∙ (ap (λ q. q ++ u.woken) (o.queued ∙ ap (λ q. q ++ o.woken) i.queued)
              ∙ (ap (λ q. q ++ u.woken) (append_assoc k.runq i.woken o.woken)
                  ∙ (append_assoc k.runq (i.woken ++ o.woken) u.woken
                      ∙ ap (λ q. k.runq ++ q) (append_assoc i.woken o.woken u.woken))));
      input = i.input;
      output =
          subst (λ lock. OutputWakes k o.woken lock k3.blocks) (sym u.same_lock)
            (subst (OutputWakes k o.woken k2.stdout_lock) (sym u.same_blocks)
              (OutputWakes-of k k1 o.woken k2.stdout_lock k2.blocks i o.output));
      still_blocked = sym (o.same_blockq ∙ i.same_blockq) ∙ u.still_blocked;
      only_free = elim free [
        | inl none_moved ↦ inl none_moved
        | inr zero ↦ inr (u.same_lock ∙ zero)
      ];
    }
