-- ===== src/Threads/Preemptive/Places.antt =====
-- preemptive-threads/preemptive-thread.c: where a thread stands. A block is linked by one field
-- `next`, so that it may be in one queue at most.
use dfs_pios_ro.Base.{
  List, ℕ, ◌≡◌, ◌∷◌, Option, ◌<◌, ◌≤◌, set, ◌+◌, length, [], some, arith, elem_at, dec_lt,
  length-set, none, ok, refl, suc, zero, get_elem?, ℕ_discrete, ap, fault, ok-injective, sym, ◌∙◌,
  get_elem?-set_self, subst, get_elem?-set_ne, ◌⊎◌, hit, hit_self, copies,
}
use dfs_pios_ro.Threads.Preemptive.{Kernel, Thread, update, to_scheduler, deref, no_reason}

abbrev pub one : ℕ → Option ℕ → ℕ
one a none = 0
one a (some x) = hit a x

-- How many places hold block `a`, `hands` being those that no other place has at the moment.
abbrev pub held : ℕ → List ℕ → Kernel → ℕ
held a hands k =
    copies a hands
    + (copies a k.in_hand
        + (copies a k.runq
            + (copies a k.blockq
                + (copies a k.freeq
                    + (one a k.wait_stdin_thread
                        + (one a k.wait_stdout_thread + one a k.scheduler_thread))))))

-- No block is in two places, and what is in a place has been allocated.
pub record IsApart (k : Kernel) (hands : List ℕ) : Type 0 where
  pub once : (a : ℕ) → held a hands k ≤ 1
  pub real : (a : ℕ) → length k.blocks ≤ a → held a hands k ≡ 0

-- The scheduler runs.
abbrev pub IsIdle : Kernel → Type 0
IsIdle k = (s : ℕ) × (k.scheduler_thread ≡ some s) × (k.cur_thread ≡ some s) × IsApart k []

-- A thread runs, which is in no queue.
abbrev pub IsRunning : Kernel → Type 0
IsRunning k =
    (s : ℕ) × (k.scheduler_thread ≡ some s)
    × ((a : ℕ) × (k.cur_thread ≡ some a) × IsApart k (a ∷ []))

-- Every block is in one place at most, and the scheduler or a thread runs.
abbrev pub IsSound : Kernel → Type 0
IsSound k = IsRunning k ⊎ IsIdle k

-- A change that brings no block to a place where it was not.
pub IsApart-less :
    {k k' : Kernel} {hands hands' : List ℕ}
    → IsApart k hands
    → ((a : ℕ) → held a hands' k' ≤ held a hands k)
    → length k.blocks ≤ length k'.blocks
    → IsApart k' hands'
IsApart-less apart less long = record {
  once = λ a. omega (arith, apart.once a, less a);
  real = λ a beyond. omega (arith, apart.real a (omega arith), less a);
}

module _ {k : Kernel} {hands : List ℕ} (apart : IsApart k hands) where
  pub allocated_of_held : (a : ℕ) → 0 < held a hands k → a < length k.blocks
  allocated_of_held a h = elim (dec_lt a (length k.blocks)) [
    | yes lt ↦ lt
    | no beyond ↦ absurd (omega (arith, apart.real a (omega arith)))
  ]

  pub scheduler-allocated : (s : ℕ) → k.scheduler_thread ≡ some s → s < length k.blocks
  scheduler-allocated s e = allocated_of_held s (rw (e, hit_self s) (omega arith))

  pub IsApart-set : (a : ℕ) (t : Thread) → IsApart (record k { blocks = set k.blocks a t }) hands
  IsApart-set a t =
      IsApart-less apart (λ b. omega arith) (rw (length-set k.blocks a t) (omega arith))

pub elem_at-in {ℓ} :
    {A : Type ℓ} (xs : List A) (i : ℕ) → i < length xs → (x : A) × (elem_at xs i ≡ ok x)
elem_at-in [] i lt = absurd (omega arith)
elem_at-in (x ∷ xs) zero lt = (x, refl)
elem_at-in (x ∷ xs) (suc i) lt = elem_at-in xs i (omega arith)

pub update_eq :
    (k : Kernel) (a : ℕ) (f : Thread → Thread)
    → a < length k.blocks
    → (t : Thread) × (elem_at k.blocks a ≡ ok t)
      × (update k a f ≡ ok (record k { blocks = set k.blocks a (f t) }))
unfolding update
update_eq k a f lt = let (t, e) = elem_at-in k.blocks a lt in (t, e, rw e refl)

pub deref-eq : {o : Option ℕ} {a : ℕ} → o ≡ some a → deref o ≡ ok a
deref-eq e = rw e refl

-- Control comes back to the scheduler when no thread is in hand.
pub to_scheduler-IsIdle :
    {k : Kernel} {s : ℕ}
    → k.scheduler_thread ≡ some s
    → IsApart k []
    → (sp : ℕ) × (to_scheduler k ≡ ok (sp, record k { cur_thread = k.scheduler_thread }))
      × IsIdle (record k { cur_thread = k.scheduler_thread })
unfolding to_scheduler
to_scheduler-IsIdle {k} {s} e apart =
    let (t, at) = elem_at-in k.blocks s (scheduler-allocated apart s e) in
    (t.saved_sp, rw (e, at), (s, e, e, IsApart-less apart (λ b. omega arith) (omega arith)))

elem_at-get_elem? {ℓ} :
    {A : Type ℓ} (xs ys : List A) (i : ℕ)
    → get_elem? xs i ≡ get_elem? ys i
    → elem_at xs i ≡ elem_at ys i
elem_at-get_elem? xs ys i e = ap (λ o. elim o [ none ↦ fault | some v ↦ ok v ]) e

-- The thread runs whoever has the console.
abbrev pub IsReady : List Thread → ℕ → Type 0
IsReady blocks b = (t : Thread) × (elem_at blocks b ≡ ok t) × (t.block_reason ≡ no_reason)

-- It stays so when a block changes that does not come to need the console.
pub IsReady-set :
    (blocks : List Thread) (a : ℕ) (t t' : Thread)
    → a < length blocks
    → elem_at blocks a ≡ ok t
    → ((t.block_reason ≡ no_reason) → t'.block_reason ≡ no_reason)
    → (b : ℕ) → IsReady blocks b
    → IsReady (set blocks a t') b
IsReady-set blocks a t t' lt at keeps b (u, there, ready) = elim (ℕ_discrete a b) [
  | yes same ↦
      let u_is_t : u ≡ t = ok-injective u t (sym there ∙ (ap (elem_at blocks) (sym same) ∙ at)) in
      (
        t',
        rw same (
            ap (λ o. elim o [ none ↦ fault | some v ↦ ok v ])
              (get_elem?-set_self blocks b t' (subst (λ i. i < length blocks) same lt))),
        keeps (ap (λ v. v.block_reason) (sym u_is_t) ∙ ready),
      )
  | no other ↦ (
    u,
    elem_at-get_elem? (set blocks a t') blocks b (get_elem?-set_ne blocks t' other) ∙ there,
    ready,
  )
]

pub elem_at-lt {ℓ} :
    {A : Type ℓ} (xs : List A) (i : ℕ) {x : A} → elem_at xs i ≡ ok x → i < length xs
elem_at-lt [] i e = absurd (cc)
elem_at-lt (x ∷ xs) zero e = omega arith
elem_at-lt (x ∷ xs) (suc i) e = omega (arith, elem_at-lt xs i e)
