-- ===== src/Threads/Preemptive/Fairness.antt =====
-- preemptive-threads/preemptive-thread.c: rounds of the scheduler, in each of which the timer stops
-- the thread that was chosen.
use dfs_pios_ro.Base.{
  ℕ, List, ◌≡◌, All, Option, Outcome, ◌++◌, ◌∷◌, ok, ok-injective, ◌>>=◌, ◌∷◌, ◌⊎◌, sym, some, [],
  ◌∙◌, inr, inl, ap, refl, length, >>=-ok, arith, append_assoc, subst, ◌<◌, length-append,
}
use dfs_pios_ro.Base.{none, some, Option}
use dfs_pios_ro.Threads.Preemptive.{Kernel, int_vector_pre_threads, no_reason, stdio}
use dfs_pios_ro.Threads.Preemptive.Scheduler.{schedule}
use dfs_pios_ro.Threads.Preemptive.Forking.{int_vector_pre_threads-IsIdle}
use dfs_pios_ro.Threads.Preemptive.Places.{IsIdle, IsRunning, IsReady, IsReady-set, elem_at-lt}
use dfs_pios_ro.Threads.Preemptive.Rounds.{schedule-awake}
use dfs_pios_ro.Threads.Preemptive.Choice.{Ran, pick-Picked}
use dfs_pios_ro.Threads.Preemptive.Waiting.{IsWaiting}

-- A round with the stack pointers that are saved in it, and the thread that ran.
unfoldable pub turn : Kernel → ℕ × ℕ → Outcome (Option ℕ × Kernel)
unfolding schedule int_vector_pre_threads
turn k (sp, irq_sp) = do
  (next, k') ← schedule k sp
  elim next [
    | none ↦ ok (none, k')
    | some next_sp ↦ (do (back, k'') ← int_vector_pre_threads k' 1 irq_sp; ok (k'.cur_thread, k''))
  ]

unfoldable pub turns : List (ℕ × ℕ) → Kernel → Outcome (List (Option ℕ) × Kernel)
unfolding turn
turns [] k = ok ([], k)
turns (sps ∷ rest) k = do
  (ran, k') ← turn k sps
  (later, k'') ← turns rest k'
  ok (ran ∷ later, k'')

-- Thread `b` is among those that ran.
abbrev pub HasRun : ℕ → List (Option ℕ) → Type 0
HasRun b [] = ⊥
HasRun b (o ∷ later) = (o ≡ some b) ⊎ HasRun b later

All-middle {ℓ κ} :
    {A : Type ℓ} (P : A → Type κ) (xs : List A) (b : A) (ys : List A) → All P (xs ++ (b ∷ ys)) → P b
All-middle P [] b ys all = all.0
All-middle P (x ∷ xs) b ys all = All-middle P xs b ys all.1

-- One list cut at `b` and at `a`: the cut at `a` is in front, the same, or behind.
two_cuts :
    (xs us : List ℕ) {b a : ℕ} {ys vs : List ℕ}
    → xs ++ (b ∷ ys) ≡ us ++ (a ∷ vs)
    → ((ws : List ℕ) × (xs ≡ us ++ (a ∷ ws)) × (vs ≡ ws ++ (b ∷ ys)))
      ⊎ ((a ≡ b) ⊎ ((ws : List ℕ) × (us ≡ xs ++ (b ∷ ws))))
two_cuts [] [] e = inr (inl cc)
two_cuts [] (u ∷ us) e = let first : u ≡ _ = cc in inr (inr (us, rw first refl))
two_cuts (x ∷ xs) [] e =
    let first : x ≡ _ = cc in let rest : xs ++ _ ≡ _ = cc in inl (xs, rw first refl, sym rest)
two_cuts (x ∷ xs) (u ∷ us) {b} {a} {ys} {vs} e =
    let first : x ≡ u = cc in
    let rest : xs ++ (b ∷ ys) ≡ us ++ (a ∷ vs) = cc in
    elim (two_cuts xs us rest) [
      | inl (ws, e1, e2) ↦ inl (ws, rw (first, e1) refl, e2)
      | inr (inl same) ↦ inr (inl same)
      | inr (inr (ws, e1)) ↦ inr (inr (ws, rw (first, e1) refl))
    ]

not_waiting : (k : Kernel) (b : ℕ) → IsReady k.blocks b → IsWaiting k b → ⊥
not_waiting k b (t, at, ready) (u, at', needs, taken, foreign) =
    let same : t ≡ u = ok-injective t u (sym at ∙ at') in
    let clash : no_reason ≡ stdio = sym ready ∙ (ap (λ v. v.block_reason) same ∙ needs) in
    absurd (cc)

-- Thread `b` can run and stands in `runq` behind `before`.
abbrev pub Queued : Kernel → ℕ → List ℕ → Type 0
Queued k b before = ((after : List ℕ) × (k.runq ≡ before ++ (b ∷ after))) × IsReady k.blocks b

-- What a round leaves of thread `b`: it ran, or fewer threads are in front of it.
abbrev Nearer : ℕ → List ℕ → Outcome (Option ℕ × Kernel) → Type 0
Nearer b before r =
    (ran : Option ℕ) × (k' : Kernel) × (r ≡ ok (ran, k'))
    × IsIdle k'
    × ((ran ≡ some b)
        ⊎ ((before' : List ℕ) × (length before' < length before) × Queued k' b before'))

-- The timer stops the thread that was chosen.
tick :
    (k k' : Kernel) (s a sp : ℕ)
    → Ran k k' s a
    → IsRunning k'
    → (next_sp : ℕ) × (k'' : Kernel) × (int_vector_pre_threads k' 1 sp ≡ ok (some next_sp, k''))
      × IsIdle k''
      × ((b : ℕ) → IsReady k.blocks b → IsReady k''.blocks b)
      × ((q : List ℕ) × (k''.runq ≡ k'.runq ++ q))
tick k k' s a sp ran running =
    let (next_sp, k'', e, idle, (c, t, cur, at, queued, blocks)) =
      int_vector_pre_threads-IsIdle 1 running (omega arith) sp in
    let (v, p, saved_at, saved) = ran.saved in
    let ready' : (b : ℕ) → IsReady k.blocks b → IsReady k'.blocks b = λ b ready.
      subst (λ bs. IsReady bs b) (sym saved)
        (IsReady-set k.blocks s v (record v { saved_sp = p }) (elem_at-lt k.blocks s saved_at)
          saved_at (λ r. r) b ready) in
    let ready'' : (b : ℕ) → IsReady k'.blocks b → IsReady k''.blocks b = λ b ready.
      subst (λ bs. IsReady bs b) (sym blocks)
        (IsReady-set k'.blocks c t (record t { saved_sp = sp }) (elem_at-lt k'.blocks c at) at
          (λ r. r) b ready) in
    (next_sp, k'', e, idle, λ b ready. ready'' b (ready' b ready), (c ∷ [], queued))

turn-Ran :
    (k awake k' : Kernel) (s a b : ℕ) (before : List ℕ) (sps : ℕ × ℕ) (next_sp : ℕ)
    → schedule k sps.0 ≡ ok (some next_sp, k')
    → Ran awake k' s a
    → IsRunning k'
    → Queued awake b before
    → Nearer b before (turn k sps)
unfolding turn
turn-Ran k awake k' s a b before sps next_sp chosen ran running ((after, queue), ready) =
    let (back, k'', e, idle, ready', (q, queued)) = tick awake k' s a sps.1 ran running in
    let entered : turn k sps ≡ ok (k'.cur_thread, k'') = >>=-ok _ chosen ∙ >>=-ok _ e in
    elim (two_cuts before ran.before (sym queue ∙ ran.split)) [
      | inl (ws, front, behind) ↦
          let place : k''.runq ≡ ws ++ (b ∷ (after ++ q)) =
            queued ∙ (ap (λ l. l ++ q) (ran.behind ∙ behind) ∙ append_assoc ws (b ∷ after) q) in
          let shorter : length ws < length before =
            rw front (omega (arith, length-append ran.before (a ∷ ws))) in
          (
            k'.cur_thread,
            k'',
            entered,
            idle,
            inr (ws, shorter, ((after ++ q, place), ready' b ready)),
          )
      | inr (inl same) ↦ (k'.cur_thread, k'', entered, idle, inl (ran.current ∙ ap some same))
      | inr (inr (ws, front)) ↦
          let skipped : All (IsWaiting awake) (before ++ (b ∷ ws)) =
            subst (All (IsWaiting awake)) front ran.skipped in
          absurd (not_waiting awake b ready (All-middle (IsWaiting awake) before b ws skipped))
    ]

turn-Nearer :
    (k : Kernel) (b : ℕ) (before : List ℕ) (sps : ℕ × ℕ)
    → IsIdle k
    → Queued k b before
    → Nearer b before (turn k sps)
turn-Nearer k b before sps (s, sched, cur, apart) ((after, queue), ready) =
    let (awake, e, idle', woke, roused) = schedule-awake s k sps.0 (sched, cur, apart) in
    let queued : Queued awake b before = (
      (
        after ++ woke.woken,
        woke.queued
            ∙ (ap (λ l. l ++ woke.woken) queue ∙ append_assoc before (b ∷ after) woke.woken),
      ),
      woke.still_ready b ready,
    ) in
    elim (pick-Picked awake.runq awake sps.0 refl idle') [
      | inl (k', chosen, stalled, rest) ↦
          let all : All (IsWaiting awake) (before ++ (b ∷ (after ++ woke.woken))) =
            subst (All (IsWaiting awake)) queued.0.1 stalled.skipped in
          absurd (not_waiting awake b queued.1 (All-middle (IsWaiting awake) before b _ all))
      | inr (k', a, next_sp, chosen, ran, running) ↦
          turn-Ran k awake k' s a b before sps next_sp (e ∙ chosen) ran running queued
    ]

turn-IsIdle :
    (k : Kernel) (sps : ℕ × ℕ)
    → IsIdle k
    → (ran : Option ℕ) × (k' : Kernel) × (turn k sps ≡ ok (ran, k')) × IsIdle k'
unfolding turn
turn-IsIdle k sps (s, sched, cur, apart) =
    let (awake, e, idle', woke, roused) = schedule-awake s k sps.0 (sched, cur, apart) in
    elim (pick-Picked awake.runq awake sps.0 refl idle') [
      | inl (k', chosen, stalled, rest) ↦
          (none, k', >>=-ok _ (e ∙ chosen), (s, rest.0, rest.1, rest.2))
      | inr (k', a, next_sp, chosen, ran, running) ↦
          let (back, k'', stopped, idle, ready', more) = tick awake k' s a sps.1 ran running in
          (k'.cur_thread, k'', >>=-ok _ (e ∙ chosen) ∙ >>=-ok _ stopped, idle)
    ]

turns-IsIdle :
    (sps : List (ℕ × ℕ)) (k : Kernel)
    → IsIdle k
    → (ran : List (Option ℕ)) × (k' : Kernel) × (turns sps k ≡ ok (ran, k')) × IsIdle k'
unfolding turns
turns-IsIdle [] k idle = ([], k, refl, idle)
turns-IsIdle (sp ∷ rest) k idle =
    let (first, k', e, idle') = turn-IsIdle k sp idle in
    let (ran, k'', later, idle'') = turns-IsIdle rest k' idle' in
    (first ∷ ran, k'', >>=-ok _ e ∙ >>=-ok _ later, idle'')

-- A thread that does not need the console runs within as many rounds of the scheduler as there are
-- threads in front of it in `runq`, and one more, where the timer ends the turn of each thread that
-- is chosen and the scheduler runs at first in a state with every block in one place: these rounds
-- all return.
pub turns-HasRun :
    (sps : List (ℕ × ℕ)) (k : Kernel) (b : ℕ) (before : List ℕ)
    → length before < length sps
    → IsIdle k
    → Queued k b before
    → (ran : List (Option ℕ)) × (k' : Kernel) × (turns sps k ≡ ok (ran, k'))
      × IsIdle k'
      × HasRun b ran
unfolding turns
turns-HasRun [] k b before enough idle queued = absurd (omega arith)
turns-HasRun (sp ∷ rest) k b before enough idle queued =
    let (first, k', e, idle', found) = turn-Nearer k b before sp idle queued in
    elim found [
      | inl ran_now ↦
          let (ran, k'', later, idle'') = turns-IsIdle rest k' idle' in
          (first ∷ ran, k'', >>=-ok _ e ∙ >>=-ok _ later, idle'', inl ran_now)
      | inr (before', shorter, queued') ↦
          let (ran, k'', later, idle'', has) =
            turns-HasRun rest k' b before' (omega arith) idle' queued' in
          (first ∷ ran, k'', >>=-ok _ e ∙ >>=-ok _ later, idle'', inr has)
    ]
