-- ===== src/Threads/Cooperative/Turns.antt =====
-- threads/rpi-thread.c: the turn of a thread that is forked.
use dfs_pios_ro.Threads.Preemptive.{thread_maxstack}
use dfs_pios_ro.Threads.Cooperative.{
  rpi_yield, pop_free, Pool, set_block, append_run, Block, switch_to, start_stack, rpi_fork,
  alloc_block,
}
use dfs_pios_ro.Base.{
  ℕ, List, arith, ◌<◌, ◌≡◌, Outcome, All, some, length, ok, length-append, set, ◌≤◌, elem_at, ◌++◌,
  suc, ◌∷◌, [], ◌>>=◌, get_elem?-set_self, refl, zero, >>=-ok, ◌∙◌, append_assoc, ap, ◌+◌, u32,
  length-set,
}
use dfs_pios_ro.Threads.Preemptive.Places.{elem_at-in}

-- Each thread that runs yields at once.
abbrev pub yields : ℕ → Pool → Outcome Pool
yields zero p = ok p
yields (suc n) p = do p' ← rpi_yield p; yields n p'

abbrev pub AllocatedIn : Pool → List ℕ → Type 0
AllocatedIn p = All (λ a. a < length p.blocks)

rpi_yield-first :
    (p : Pool) (c a : ℕ) (rest : List ℕ)
    → p.cur_thread ≡ some c
    → p.runq ≡ a ∷ rest
    → a < length p.blocks
    → rpi_yield p ≡ ok (record p { runq = rest ++ (c ∷ []); cur_thread = some a })
unfolding rpi_yield append_run switch_to
rpi_yield-first p c a rest runs first lt =
    let (t, e) = elem_at-in p.blocks a lt in rw (first, runs, e) refl

yields-turn :
    (before after : List ℕ) (p : Pool) (c a : ℕ)
    → p.cur_thread ≡ some c
    → p.runq ≡ before ++ (a ∷ after)
    → AllocatedIn p (before ++ (a ∷ []))
    → yields (suc (length before)) p
      ≡ ok (record p { runq = after ++ (c ∷ before); cur_thread = some a })
yields-turn [] after p c a runs queue there =
    >>=-ok _ (rpi_yield-first p c a after runs queue there.0)
yields-turn (x ∷ xs) after p c a runs queue there =
    let p' : Pool = record p { runq = (xs ++ (a ∷ after)) ++ (c ∷ []); cur_thread = some x } in
    >>=-ok _ (rpi_yield-first p c x (xs ++ (a ∷ after)) runs queue there.0)
    ∙ (yields-turn xs (after ++ (c ∷ [])) p' x a refl (append_assoc xs (a ∷ after) (c ∷ [])) there.1
        ∙ ap (λ l. ok (record p { runq = l; cur_thread = some a }))
            (append_assoc after (c ∷ []) (x ∷ xs)))

-- What taking a block leaves.
record Took (p : Pool) (a : ℕ) (p' : Pool) : Type 0 where
  block : a < length p'.blocks
  more : length p.blocks ≤ length p'.blocks
  same_runq : p'.runq ≡ p.runq
  same_cur : p'.cur_thread ≡ p.cur_thread

pop_free-Took :
    (p : Pool) (free : List ℕ) → AllocatedIn p free → Took p (pop_free p free).0 (pop_free p free).1
unfolding pop_free
pop_free-Took p [] there = record {
  block = omega (arith, length-append p.blocks (p.unused ∷ []));
  more = omega (arith, length-append p.blocks (p.unused ∷ []));
  same_runq = refl;
  same_cur = refl;
}
pop_free-Took p (a ∷ rest) there = record {
  block = there.0;
  more = omega arith;
  same_runq = refl;
  same_cur = refl;
}

set_block_eq :
    (p : Pool) (a : ℕ) (f : Block → Block)
    → a < length p.blocks
    → (t : Block) × (set_block p a f ≡ ok (record p { blocks = set p.blocks a (f t) }))
unfolding set_block
set_block_eq p a f lt = let (t, e) = elem_at-in p.blocks a lt in (t, rw e refl)

elem_at-set : (ts : List Block) (a : ℕ) (t : Block) → a < length ts → elem_at (set ts a t) a ≡ ok t
elem_at-set ts a t lt = rw (elem_at, get_elem?-set_self ts a t lt) refl

set_block-known :
    (p : Pool) (a : ℕ) (f : Block → Block) (t : Block)
    → elem_at p.blocks a ≡ ok t
    → set_block p a f ≡ ok (record p { blocks = set p.blocks a (f t) })
unfolding set_block
set_block-known p a f t e = rw e refl

-- A block from which the switch starts `code` on `arg`, through the trampoline.
pub record IsStart (p : Pool) (code arg : ℕ) (t : Block) : Type 0 where
  pub numbered : t.tid ≡ p.tid
  pub inside : t.saved_sp + 8 < thread_maxstack
  pub r4 : t.stack t.saved_sp ≡ arg
  pub r5 : t.stack (t.saved_sp + 1) ≡ code
  pub lr : t.stack (t.saved_sp + 8) ≡ p.init_trampoline

start_stack-IsStart :
    (p : Pool) (code arg : ℕ) (t : Block)
    → t.tid ≡ p.tid
    → IsStart p code arg (start_stack p code arg t)
unfolding start_stack
start_stack-IsStart p code arg t named = record {
  numbered = named;
  inside = omega arith;
  r4 = refl;
  r5 = refl;
  lr = refl;
}

-- What `rpi_fork` leaves.
record Forked (p : Pool) (code arg a : ℕ) (p' : Pool) : Type 0 where
  block : Block
  there : elem_at p'.blocks a ≡ ok block
  starts : IsStart p code arg block
  room : a < length p'.blocks
  more : length p.blocks ≤ length p'.blocks
  behind : p'.runq ≡ p.runq ++ (a ∷ [])
  same_cur : p'.cur_thread ≡ p.cur_thread

rpi_fork-Forked :
    (p : Pool) (code arg : ℕ)
    → AllocatedIn p p.freeq
    → (a : ℕ) × (p' : Pool) × (rpi_fork p code arg ≡ ok (a, p')) × Forked p code arg a p'
unfolding rpi_fork alloc_block
rpi_fork-Forked p code arg free =
    let a = (pop_free p p.freeq).0 in
    let p1 = (pop_free p p.freeq).1 in
    let took = pop_free-Took p p.freeq free in
    let (t, e) = set_block_eq p1 a (λ t. record t { tid = p.tid }) took.block in
    let named : Block = record t { tid = p.tid } in
    let p3 : Pool = record p1 { blocks = set p1.blocks a named; tid = u32 (p.tid + 1) } in
    let allocated : alloc_block p ≡ ok (a, p3) = >>=-ok _ e in
    let size : length p3.blocks ≡ length p1.blocks = length-set p1.blocks a named in
    let lt : a < length p3.blocks = omega (arith, took.block, size) in
    let f = start_stack p code arg in
    let again : set_block p3 a f ≡ ok (record p3 { blocks = set p3.blocks a (f named) }) =
      set_block-known p3 a f named (elem_at-set p1.blocks a named took.block) in
    let p4 : Pool = record p3 { blocks = set p3.blocks a (f named); runq = p3.runq ++ (a ∷ []) } in
    let size' : length p4.blocks ≡ length p3.blocks = length-set p3.blocks a (f named) in
    (
      a,
      p4,
      >>=-ok _ allocated ∙ >>=-ok _ again,
      record {
        block = f named;
        there = elem_at-set p3.blocks a (f named) lt;
        starts = start_stack-IsStart p code arg named refl;
        room = omega (arith, lt, size');
        more = omega (arith, took.more, size, size');
        behind = ap (λ l. l ++ (a ∷ [])) took.same_runq;
        same_cur = took.same_cur;
      },
    )

AllocatedIn-more :
    (p p' : Pool) (a : ℕ) (xs : List ℕ)
    → length p.blocks ≤ length p'.blocks
    → a < length p'.blocks
    → AllocatedIn p xs
    → AllocatedIn p' (xs ++ (a ∷ []))
AllocatedIn-more p p' a [] le lt there = (lt, tt)
AllocatedIn-more p p' a (x ∷ xs) le lt there =
    (omega (arith, there.0), AllocatedIn-more p p' a xs le lt there.1)

-- Where a thread runs and the blocks in `runq` and `freeq` are allocated, `rpi_fork` returns, and
-- where each thread yields at once, the new thread runs after one more call of `rpi_yield` than
-- there were threads in `runq`, all of which return; the thread that forked then stands in front of
-- `runq`, and the others behind it in their order. The block of the new thread has the next tid,
-- and the words from which the switch loads r4, r5 and the return address are the argument, the
-- code and the trampoline.
pub rpi_fork-turn :
    (p : Pool) (code arg c : ℕ)
    → p.cur_thread ≡ some c
    → AllocatedIn p p.runq
    → AllocatedIn p p.freeq
    → (a : ℕ) × (p' p'' : Pool) × (t : Block) × (rpi_fork p code arg ≡ ok (a, p'))
      × (yields (suc (length p.runq)) p' ≡ ok p'')
      × (p''.cur_thread ≡ some a)
      × (p''.runq ≡ c ∷ p.runq)
      × (elem_at p''.blocks a ≡ ok t)
      × IsStart p code arg t
rpi_fork-turn p code arg c runs queue free =
    let (a, p', e, made) = rpi_fork-Forked p code arg free in
    (
      a,
      p',
      record p' { runq = c ∷ p.runq; cur_thread = some a },
      made.block,
      e,
      yields-turn p.runq [] p' c a (made.same_cur ∙ runs) made.behind
          (AllocatedIn-more p p' a p.runq made.more made.room queue),
      refl,
      refl,
      made.there,
      made.starts,
    )
