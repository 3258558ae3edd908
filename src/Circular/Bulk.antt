-- ===== src/Circular/Bulk.antt =====
-- libpi/libc/circular.h: cq_push_n and cq_pop_n.
use dfs_pios_ro.Circular.Refine.{
  contents, cq_pop_nonblock-contents, length-contents, cq_push-contents,
}
use dfs_pios_ro.Circular.Inv.{IsValid, cq_nelem-count, cq_nelem-add-nspace}
use dfs_pios_ro.Circular.{
  cq_push_n, cq_pop, cq_pop_n, Queue, cq_nspace, cq_nelem, cq_n, cq_pop_nonblock, at_once, push_all,
  cq_push,
}
use dfs_pios_ro.Base.{
  ok, List, ℕ, Bool, ◌<◌, length, ◌+◌, ◌≡◌, ◌≤◌, some, ◌-◌, [], false, ◌∙◌, ◌++◌, arith, suc, sym,
  ◌⊎◌, true, append-nil, dec_lt, ◌∷◌, inl, lt→ltb, ap, inr, length-append, ltb-false_of_le,
  append_assoc, zero, refl,
}

nspace-contents : {q : Queue} → IsValid q → cq_nspace q + length (contents q) ≡ cq_n - 1
nspace-contents v = omega (arith, cq_nelem-add-nspace v, cq_nelem-count v, length-contents v)

pub nelem-contents : {q : Queue} → IsValid q → cq_nelem q ≡ length (contents q)
nelem-contents v = cq_nelem-count v ∙ sym (length-contents v)

push_all-next :
    (q : Queue) (x : ℕ) (xs : List ℕ) {q' : Queue}
    → cq_push q x ≡ ok (true, q')
    → push_all q (x ∷ xs) ≡ push_all q' xs
unfolding push_all
push_all-next q x xs e = rw e

push_all-contents :
    (xs : List ℕ) {q : Queue}
    → IsValid q
    → length (contents q) + length xs ≤ cq_n - 1
    → (q' : Queue) × (push_all q xs ≡ ok q') × (contents q' ≡ contents q ++ xs) × IsValid q'
push_all-contents [] {q} v le = (q, unfold push_all in refl, sym (append-nil (contents q)), v)
push_all-contents (x ∷ xs) {q} v le = elim (cq_push-contents v x) [
  | inl (full, e) ↦ absurd (omega arith)
  | inr (lt, (q', e, c, v')) ↦
      let shorter : length (contents q') + length xs ≤ cq_n - 1 =
        rw c (omega (arith, length-append (contents q) (x ∷ []))) in
      let (q'', e', c', v'') = push_all-contents xs v' shorter in
      (q'', push_all-next q x xs e ∙ e', c' ∙ rw c (append_assoc (contents q) (x ∷ []) xs), v'')
]

-- While the indices lie in the buffer, `cq_push_n` of at least one element puts all of them behind
-- the others, in order, if they fit, and changes nothing otherwise; the indices stay in the buffer.
pub cq_push_n-contents :
    (xs : List ℕ) {q : Queue}
    → IsValid q
    → 0 < length xs
    → ((cq_n - 1 < length (contents q) + length xs) × (cq_push_n q xs ≡ ok (false, q)))
      ⊎ ((q' : Queue) × (cq_push_n q xs ≡ ok (true, q'))
          × (contents q' ≡ contents q ++ xs)
          × IsValid q')
unfolding cq_push_n
cq_push_n-contents xs {q} v pos = elim (dec_lt (cq_nspace q) (length xs)) [
  | yes lt ↦ inl (
    omega (arith, nspace-contents v),
    rw (lt→ltb 0 (length xs) pos, lt→ltb (cq_nspace q) (length xs) lt),
  )
  | no ge ↦
      let (q', e, c, v') = push_all-contents xs v (omega (arith, nspace-contents v)) in
      inr (
        q',
        rw (lt→ltb 0 (length xs) pos, ltb-false_of_le (cq_nspace q) (length xs) (omega arith), e),
        c,
        v',
      )
]

cq_pop-at_once :
    (q : Queue) {q' : Queue} {x : ℕ} (enabled : Bool)
    → cq_pop_nonblock q ≡ ok (some x, q')
    → cq_pop enabled [] q ≡ ok (x, q')
unfolding cq_pop
cq_pop-at_once q enabled e = rw e

tail_changed :
    (q q' q'' : Queue)
    → q' ≡ record q { tail = q'.tail }
    → q'' ≡ record q' { tail = q''.tail }
    → q'' ≡ record q { tail = q''.tail }
tail_changed q q' q'' e e' =
    let moved : record q' { tail = q''.tail } ≡ record q { tail = q''.tail } =
      ap (λ (p : Queue). record p { tail = q''.tail }) e in
    e' ∙ moved

-- While the indices lie in the buffer, `cq_pop_n` of no more elements than there are takes that
-- many of the oldest, in order, without waiting, and changes only `tail`, which stays in the
-- buffer.
pub cq_pop_n-contents :
    (n : ℕ) (enabled : Bool) {q : Queue}
    → IsValid q
    → n ≤ length (contents q)
    → (xs : List ℕ) × (q' : Queue) × (cq_pop_n enabled at_once n q ≡ ok (xs, q'))
      × (contents q ≡ xs ++ contents q')
      × (length xs ≡ n)
      × IsValid q'
      × (q' ≡ record q { tail = q'.tail })
unfolding cq_pop_n
cq_pop_n-contents zero enabled {q} v le = ([], q, refl, refl, refl, v, refl)
cq_pop_n-contents (suc n) enabled {q} v le = elim (cq_pop_nonblock-contents v) [
  | inl (none_left, e) ↦ absurd (omega (arith, ap length none_left))
  | inr (x, q', e, c, v', same) ↦
      let (xs, q'', e', c', len, v'', kept') =
        cq_pop_n-contents n enabled v' (omega (arith, ap length c)) in
      (
        x ∷ xs,
        q'',
        rw (cq_pop-at_once q enabled e, e'),
        c ∙ ap (λ t. x ∷ t) c',
        ap suc len,
        v'',
        tail_changed q q' q'' same kept',
      )
]
