-- ===== src/Circular/Refine.antt =====
-- libpi/libc/circular.h: the queue as the list of its elements, the oldest first.
use dfs_pios_ro.Circular.Inv.{IsValid, count, cq_full_iff}
use dfs_pios_ro.Circular.{
  Queue, cq_pop_nonblock, cq_n, cq_push, cq_full, cq_nspace, cq_nelem, store,
}
use dfs_pios_ro.Base.{
  ok, List, ℕ, [], ◌<◌, length, elem_at, suc, ◌≡◌, ◌≢◌, arith, get_or, ◌+◌, none, ◌++◌, some, ◌∷◌,
  ◌∷◌, ◌%◌, length-append, ◌≤◌, zero, u32, ==-false_of_ne, refl, set, get_or-set_ne, ◌-◌, ◌⊎◌,
  false, ℕ_discrete, true, inl, ap, ◌∙◌, inr, ◌==◌, sym, ltb, get_or-set_self, length-set, ◌^◌,
  lt→ltb,
}

-- The `n` elements of the buffer from index `t` on, round its end.
abbrev pub items : List ℕ → ℕ → ℕ → List ℕ
items buf t zero = []
items buf t (suc n) = items buf t n ++ (get_or buf ((t + n) % cq_n) 0 ∷ [])

abbrev pub contents : Queue → List ℕ
contents q = items q.c_buf q.tail (count q)

length-items : (buf : List ℕ) (t n : ℕ) → length (items buf t n) ≡ n
length-items buf t zero = refl
length-items buf t (suc n) = omega (
  arith,
  length-append (items buf t n) (get_or buf ((t + n) % cq_n) 0 ∷ []),
  length-items buf t n,
)

-- Taking the oldest element off the front.
items-front :
    (buf : List ℕ) (t n : ℕ)
    → t < cq_n
    → items buf t (suc n) ≡ get_or buf t 0 ∷ items buf ((t + 1) % cq_n) n
items-front buf t zero lt = let e : (t + 0) % cq_n ≡ t = omega arith in rw e
items-front buf t (suc n) lt =
    let e : ((t + 1) % cq_n + n) % cq_n ≡ (t + suc n) % cq_n = omega arith in
    rw (items-front buf t n lt, e)

-- A write behind the elements leaves them.
items-set :
    (buf : List ℕ) (t n i x : ℕ)
    → t < cq_n
    → n < cq_n
    → i ≡ (t + n) % cq_n
    → (m : ℕ) → m ≤ n
    → items (set buf i x) t m ≡ items buf t m
items-set buf t n i x lt few e zero le = refl
items-set buf t n i x lt few e (suc m) le = rw (
  items-set buf t n i x lt few e m (omega arith),
  get_or-set_ne buf {i = i} {j = (t + m) % cq_n} x 0 (omega arith),
)

elem_at-get_or : (xs : List ℕ) (i : ℕ) → i < length xs → elem_at xs i ≡ ok (get_or xs i 0)
elem_at-get_or [] i lt = absurd (omega arith)
elem_at-get_or (x ∷ xs) zero lt = refl
elem_at-get_or (x ∷ xs) (suc i) lt = elem_at-get_or xs i (omega arith)

module _ {q : Queue} (v : IsValid q) where
  pub length-contents : length (contents q) ≡ count q
  length-contents = length-items q.c_buf q.tail (count q)

  cq_pop_nonblock-empty : q.head ≡ q.tail → cq_pop_nonblock q ≡ ok (none, q)
  unfolding cq_pop_nonblock
  cq_pop_nonblock-empty e = ground arith

  cq_pop_nonblock-some :
      q.head ≢ q.tail
      → cq_pop_nonblock q
        ≡ ok (some (get_or q.c_buf q.tail 0), record q { tail = (q.tail + 1) % cq_n })
  unfolding cq_pop_nonblock
  cq_pop_nonblock-some ne =
      let wrapless : u32 (q.tail + 1) ≡ q.tail + 1 = omega (arith, v.tail_in) in
      rw (
        ==-false_of_ne q.head q.tail ne,
        elem_at-get_or q.c_buf q.tail (omega (arith, v.tail_in, v.room)),
        wrapless,
      )

  pub count-pop : q.head ≢ q.tail → count q ≡ suc (count (record q { tail = (q.tail + 1) % cq_n }))
  count-pop ne = omega (arith, v.head_in, v.tail_in)

  -- While the indices lie in the buffer, `cq_pop_nonblock` takes the oldest element and changes
  -- only `tail`, which stays in the buffer, or finds none and changes nothing.
  pub cq_pop_nonblock-contents :
      ((contents q ≡ []) × (cq_pop_nonblock q ≡ ok (none, q)))
      ⊎ ((x : ℕ) × (q' : Queue) × (cq_pop_nonblock q ≡ ok (some x, q'))
          × (contents q ≡ x ∷ contents q')
          × IsValid q'
          × (q' ≡ record q { tail = q'.tail }))
  cq_pop_nonblock-contents = elim (ℕ_discrete q.head q.tail) [
    | yes e ↦
        let none_left : count q ≡ 0 = omega (arith, v.tail_in) in
        inl (ap (items q.c_buf q.tail) none_left, cq_pop_nonblock-empty e)
    | no ne ↦ inr (
      get_or q.c_buf q.tail 0,
      record q { tail = (q.tail + 1) % cq_n },
      cq_pop_nonblock-some ne,
      ap (items q.c_buf q.tail) (count-pop ne)
          ∙ items-front q.c_buf q.tail (count (record q { tail = (q.tail + 1) % cq_n })) v.tail_in,
      record { room = v.room; head_in = v.head_in; tail_in = omega arith },
      refl,
    )
  ]

  cq_push-full : count q ≡ cq_n - 1 → (x : ℕ) → cq_push q x ≡ ok (false, q)
  unfolding cq_push
  cq_push-full e x = rw ((cq_full_iff v).1 e)

  cq_push-room :
      count q < cq_n - 1
      → (x : ℕ)
      → cq_push q x
        ≡ ok (true, record q { c_buf = set q.c_buf q.head x; head = (q.head + 1) % cq_n })
  unfolding cq_push cq_full cq_nspace cq_nelem store
  cq_push-room lt x =
      let wrapless : u32 (q.head + 1) ≡ q.head + 1 = omega (arith, v.head_in) in
      let not_full : ((q.head + 1) % cq_n == q.tail) ≡ false =
        ==-false_of_ne _ _ (omega (arith, v.head_in, v.tail_in)) in
      let space : ltb 0 (u32 (cq_n - 1 + 2 ^ 32 - u32 (q.head + 2 ^ 32 - q.tail) % cq_n)) ≡ true =
        lt→ltb 0 _ (omega (arith, v.head_in, v.tail_in)) in
      rw (
        wrapless,
        not_full,
        space,
        lt→ltb q.head (length q.c_buf) (omega (arith, v.head_in, v.room)),
      )

  -- While the indices lie in the buffer, `cq_push` puts the element behind the others, or finds
  -- `CQ_N - 1` there and changes nothing; the indices stay in the buffer.
  pub cq_push-contents :
      (x : ℕ)
      → ((length (contents q) ≡ cq_n - 1) × (cq_push q x ≡ ok (false, q)))
        ⊎ ((length (contents q) < cq_n - 1)
            × ((q' : Queue) × (cq_push q x ≡ ok (true, q'))
                × (contents q' ≡ contents q ++ (x ∷ []))
                × IsValid q'))
  cq_push-contents x = elim (ℕ_discrete (count q) (cq_n - 1)) [
    | yes e ↦ inl (length-contents ∙ e, cq_push-full e x)
    | no ne ↦
        let lt : count q < cq_n - 1 = omega (arith, v.head_in, v.tail_in) in
        let q' = record q { c_buf = set q.c_buf q.head x; head = (q.head + 1) % cq_n } in
        let grown : count q' ≡ suc (count q) = omega (arith, v.head_in, v.tail_in) in
        let place : (q.tail + count q) % cq_n ≡ q.head = omega (arith, v.head_in, v.tail_in) in
        inr (
          rw length-contents lt,
          (
            q',
            cq_push-room lt x,
            ap (items q'.c_buf q.tail) grown
                ∙ rw (
                  items-set q.c_buf q.tail (count q) q.head x v.tail_in (omega arith) (sym place)
                      (count q) (omega arith),
                  place,
                  get_or-set_self q.c_buf q.head x 0 (omega (arith, v.head_in, v.room)),
                ),
            record {
              room = length-set q.c_buf q.head x ∙ v.room;
              head_in = omega arith;
              tail_in = v.tail_in;
            },
          ),
        )
  ]
