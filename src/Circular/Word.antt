-- ===== src/Circular/Word.antt =====
-- libpi/libc/circular.h: the operations on 32-bit words.
use dfs_pios_ro.Circular.Bulk.{cq_push_n-contents, cq_pop_n-contents, nelem-contents}
use dfs_pios_ro.Circular.Inv.{IsValid}
use dfs_pios_ro.Circular.{cq_push32, cq_pop32_noblk, cq_pop_n_noblk, Queue, cq_nelem, word_of}
use dfs_pios_ro.Base.{
  List, ℕ, ◌++◌, ◌≡◌, Bool, length, [], ◌<◌, ◌∷◌, ◌^◌, arith, ok, true, some, ◌%◌, ◌/◌, inl, ap,
  inr, ◌∙◌, ltb, false, ltb-false_of_le, sym, refl,
}
use dfs_pios_ro.Circular.Refine.{contents}

-- A list split as another of the same front length.
split-eq :
    (xs ys zs ws : List ℕ) → xs ++ ys ≡ zs ++ ws → length xs ≡ length zs → (xs ≡ zs) × (ys ≡ ws)
split-eq [] ys [] ws e len = (refl, e)
split-eq [] ys (z ∷ zs) ws e len = absurd (omega arith)
split-eq (x ∷ xs) ys [] ws e len = absurd (omega arith)
split-eq (x ∷ xs) ys (z ∷ zs) ws e len =
    let head : x ≡ z = cc in
    let tail : xs ++ ys ≡ zs ++ ws = cc in
    let (front, back) = split-eq xs ys zs ws tail (omega arith) in (cc, back)

-- While the indices lie in the buffer and the queue is empty, a 32-bit word that `cq_push32` pushes
-- is the one that `cq_pop32_noblk` then pops, and the queue is empty again, with its indices in the
-- buffer.
cq_pop32_noblk-push32 :
    (x : ℕ) (enabled : Bool) {q : Queue}
    → IsValid q
    → contents q ≡ []
    → x < 2 ^ 32
    → (q' q'' : Queue) × (cq_push32 q x ≡ ok (true, q'))
      × (cq_pop32_noblk enabled q' ≡ ok (some x, q''))
      × (contents q'' ≡ [])
      × IsValid q''
unfolding cq_push32 cq_pop32_noblk cq_pop_n_noblk
cq_pop32_noblk-push32 x enabled {q} v none_left lt =
    let bytes = x % 256 ∷ x / 2 ^ 8 % 256 ∷ x / 2 ^ 16 % 256 ∷ x / 2 ^ 24 % 256 ∷ [] in
    elim (cq_push_n-contents bytes v (omega arith)) [
      | inl (full, e) ↦ absurd (omega (arith, ap length none_left))
      | inr (q', e, c, v') ↦
          let stored : contents q' ≡ bytes = c ∙ ap (λ t. t ++ bytes) none_left in
          let four : length (contents q') ≡ 4 = ap length stored in
          let (xs, q'', e', c', len, v'', kept) = cq_pop_n-contents 4 enabled v' (omega arith) in
          let enough : ltb (cq_nelem q') 4 ≡ false =
            ltb-false_of_le (cq_nelem q') 4 (omega (arith, nelem-contents v')) in
          let (same, left) = split-eq xs (contents q'') bytes [] (sym c' ∙ stored) len in
          let value : word_of bytes ≡ x = omega arith in
          (q', q'', e, rw (enough, e', same, value), left, v'')
    ]
