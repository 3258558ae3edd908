-- ===== src/Circular.antt =====
-- libpi/libc/circular.h: the lock-free queue between an interrupt handler and a thread. An element
-- is a byte that the queue only moves; the memory barriers do nothing in the model.
pub mod Inv
pub mod Refine
pub mod Bulk
pub mod Word
pub mod Peek
mod Tests
use dfs_pios_ro.Base.{
  ok, List, Bool, Outcome, ℕ, u32, ◌==◌, Option, if◌then◌else◌, false, none, some, ◌-◌, ◌+◌, ltb,
  length, panic, ◌>>=◌, ◌>>◌, ◌%◌, ◌^◌, set, out_of_fuel, assert, elem_at, fault, true, ◌∷◌, [],
  replicate, ◌∷◌, get_or, ◌/◌, suc, ◌*◌, not, zero,
}

-- `CQ_N`.
abbrev pub cq_n : ℕ
cq_n = 8192

-- `cq_t`.
pub record Queue : Type 0 where
  pub c_buf : List ℕ
  pub fence : ℕ
  pub head : ℕ
  pub tail : ℕ
  pub overflow : ℕ
  pub errors_fatal_p : Bool

unfoldable pub cq_empty : Queue → Bool
cq_empty q = q.head == q.tail

unfoldable pub cq_full : Queue → Bool
cq_full q = u32 (q.head + 1) % cq_n == q.tail

-- The difference of two `unsigned` wraps before the remainder is taken.
unfoldable pub cq_nelem : Queue → ℕ
cq_nelem q = u32 (q.head + 2 ^ 32 - q.tail) % cq_n

unfoldable pub cq_nspace : Queue → ℕ
unfolding cq_nelem
cq_nspace q = u32 (cq_n - 1 + 2 ^ 32 - cq_nelem q)

-- `none` is the result 0, after which `*e` is what it was.
unfoldable pub cq_pop_nonblock : Queue → Outcome (Option ℕ × Queue)
unfolding cq_empty
cq_pop_nonblock c =
    if cq_empty c
    then ok (none, c)
    else (do e ← elem_at c.c_buf c.tail; ok (some e, record c { tail = u32 (c.tail + 1) % cq_n }))

-- `c->c_buf[head] = x`.
unfoldable pub store : Queue → ℕ → ℕ → Outcome Queue
store c i x = if ltb i (length c.c_buf) then ok (record c { c_buf = set c.c_buf i x }) else fault

unfoldable pub cq_push : Queue → ℕ → Outcome (Bool × Queue)
unfolding cq_full cq_nspace store
cq_push c x = if cq_full c then ok (false, c) else (do
  assert (ltb 0 (cq_nspace c))
  c' ← store c c.head x
  ok (true, record c' { head = u32 (c.head + 1) % cq_n }))

unfoldable pub cq_peek : Queue → Outcome (Option ℕ)
unfolding cq_empty
cq_peek c = if cq_empty c then ok none else (do e ← elem_at c.c_buf c.tail; ok (some e))

-- `cq_pop`: `arrivals` lists what the interrupt handler does to the queue between one try and the
-- next; the loop waits only while interrupts are enabled.
unfoldable pub cq_pop : Bool → List (Queue → Queue) → Queue → Outcome (ℕ × Queue)
cq_pop enabled [] c = do
  (e, c') ← cq_pop_nonblock c
  elim e [ some v ↦ ok (v, c') | none ↦ if enabled then out_of_fuel else panic ]
cq_pop enabled (handler ∷ later) c = do
  (e, c') ← cq_pop_nonblock c
  elim e [
    | some v ↦ ok (v, c')
    | none ↦ if enabled then cq_pop enabled later (handler c') else panic
  ]

-- `cq_pop_n`, with `n` elements to go; `waits` gives the arrivals of each of the pops.
unfoldable pub cq_pop_n : Bool → (ℕ → List (Queue → Queue)) → ℕ → Queue → Outcome (List ℕ × Queue)
unfolding cq_pop
cq_pop_n enabled waits zero c = ok ([], c)
cq_pop_n enabled waits (suc n) c = do
  (v, c') ← cq_pop enabled (waits n) c
  (vs, c'') ← cq_pop_n enabled waits n c'
  ok (v ∷ vs, c'')

-- No element has to be waited for.
abbrev pub at_once : ℕ → List (Queue → Queue)
at_once n = []

unfoldable pub cq_pop_n_noblk : Bool → Queue → ℕ → Outcome (Option (List ℕ) × Queue)
unfolding cq_nelem cq_pop_n
cq_pop_n_noblk enabled q n =
    if ltb (cq_nelem q) n
    then ok (none, q)
    else (do (vs, q') ← cq_pop_n enabled at_once n q; ok (some vs, q'))

-- `int sz` is compared with `n` as unsigned.
unfoldable pub cq_peek_n : Bool → Queue → ℕ → Outcome (Option (List ℕ) × Queue)
unfolding cq_pop_n_noblk
cq_peek_n enabled c n = if ltb (cq_nelem c) n then ok (none, c) else (do
  (vs, c') ← cq_pop_n_noblk enabled c n
  elim vs [
    | none ↦ ok (none, c')
    | some v ↦ (do
      let back = record c' { tail = c.tail }
      assert (cq_nelem c == cq_nelem back)
      ok (some v, back))
  ])

-- The loop of `cq_push_n`.
unfoldable pub push_all : Queue → List ℕ → Outcome Queue
unfolding cq_push
push_all c [] = ok c
push_all c (x ∷ xs) = do (done, c') ← cq_push c x; assert done; push_all c' xs

unfoldable pub cq_push_n : Queue → List ℕ → Outcome (Bool × Queue)
unfolding cq_nspace push_all
cq_push_n c xs = do
  assert (ltb 0 (length xs))
  if ltb (cq_nspace c) (length xs) then ok (false, c) else (do c' ← push_all c xs; ok (true, c'))

unfoldable pub cq_push32 : Queue → ℕ → Outcome (Bool × Queue)
unfolding cq_push_n
cq_push32 c x = cq_push_n c (x % 256 ∷ x / 2 ^ 8 % 256 ∷ x / 2 ^ 16 % 256 ∷ x / 2 ^ 24 % 256 ∷ [])

-- The number that four bytes of memory stand for.
abbrev pub word_of : List ℕ → ℕ
word_of bs = get_or bs 0 0 + 2 ^ 8 * get_or bs 1 0 + 2 ^ 16 * get_or bs 2 0 + 2 ^ 24 * get_or bs 3 0

unfoldable pub cq_pop32_noblk : Bool → Queue → Outcome (Option ℕ × Queue)
unfolding cq_pop_n_noblk
cq_pop32_noblk enabled c = do
  (vs, c') ← cq_pop_n_noblk enabled c 4
  ok (elim vs [ none ↦ none | some bs ↦ some (word_of bs) ], c')

unfoldable pub cq_pop32 : Bool → (ℕ → List (Queue → Queue)) → Queue → Outcome (ℕ × Queue)
unfolding cq_pop_n
cq_pop32 enabled waits c = do (vs, c') ← cq_pop_n enabled waits 4 c; ok (word_of vs, c')

abbrev pub fence_mark : ℕ
fence_mark = 0x12345678

unfoldable pub cq_ok : Queue → Outcome (Unit {0})
cq_ok c = assert (c.fence == fence_mark)

-- What `cq_init` stores.
abbrev pub fresh : Bool → Queue
fresh errors_fatal_p = record {
  c_buf = replicate cq_n 0;
  fence = fence_mark;
  head = 0;
  tail = 0;
  overflow = 0;
  errors_fatal_p = errors_fatal_p;
}

unfoldable pub cq_init : Bool → Outcome Queue
unfolding cq_empty cq_full cq_nelem cq_pop_nonblock
cq_init errors_fatal_p = do
  let c = fresh errors_fatal_p
  assert (cq_empty c)
  assert (not (cq_full c))
  assert (cq_nelem c == 0)
  (e, c') ← cq_pop_nonblock c
  assert (elim e [ none ↦ true | some _ ↦ false ])
  ok c'

unfoldable pub cq_ckpt : Queue → ℕ
cq_ckpt c = c.tail

unfoldable pub cq_restore : Queue → ℕ → Queue
cq_restore c ckpt = record c { tail = ckpt }
