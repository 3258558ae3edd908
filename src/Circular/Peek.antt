-- ===== src/Circular/Peek.antt =====
-- libpi/libc/circular.h: cq_peek_n.
use dfs_pios_ro.Circular.Bulk.{nelem-contents, cq_pop_n-contents}
use dfs_pios_ro.Circular.Inv.{IsValid}
use dfs_pios_ro.Base.{
  ◌≡◌, ℕ, Bool, ap, List, ltb, length, ◌<◌, false, ok, none, ◌⊎◌, some, ◌++◌, dec_lt, inl, arith,
  lt→ltb, inr, ltb-false_of_le,
}
use dfs_pios_ro.Circular.{cq_peek_n, Queue, cq_pop_n_noblk, cq_nelem, cq_pop_n, at_once}
use dfs_pios_ro.Circular.Refine.{contents}

-- The tail put back after pops.
restored : (q q' : Queue) → q' ≡ record q { tail = q'.tail } → record q' { tail = q.tail } ≡ q
restored q q' kept = ap (λ (p : Queue). record p { tail = q.tail }) kept

peek-step :
    (q q' : Queue) (n : ℕ) (enabled : Bool) {xs : List ℕ}
    → ltb (cq_nelem q) n ≡ false
    → cq_pop_n enabled at_once n q ≡ ok (xs, q')
    → record q' { tail = q.tail } ≡ q
    → cq_peek_n enabled q n ≡ ok (some xs, q)
unfolding cq_peek_n cq_pop_n_noblk
peek-step q q' n enabled enough e back = rw (enough, e, back) (ground arith)

-- While the indices lie in the buffer, `cq_peek_n` returns the `n` oldest elements, in order, where
-- there are so many, and nothing otherwise; its assertion holds, and the queue is left as it was.
pub cq_peek_n-contents :
    (n : ℕ) (enabled : Bool) {q : Queue}
    → IsValid q
    → ((length (contents q) < n) × (cq_peek_n enabled q n ≡ ok (none, q)))
      ⊎ ((xs rest : List ℕ) × (cq_peek_n enabled q n ≡ ok (some xs, q))
          × (contents q ≡ xs ++ rest)
          × (length xs ≡ n))
unfolding cq_peek_n
cq_peek_n-contents n enabled {q} v = elim (dec_lt (cq_nelem q) n) [
  | yes few ↦ inl (omega (arith, nelem-contents v), rw (lt→ltb (cq_nelem q) n few))
  | no enough ↦
      let (xs, q', e, c, len, v', kept) =
        cq_pop_n-contents n enabled v (omega (arith, nelem-contents v)) in
      inr (
        xs,
        contents q',
        peek-step q q' n enabled (ltb-false_of_le (cq_nelem q) n (omega arith)) e
            (restored q q' kept),
        c,
        len,
      )
]
