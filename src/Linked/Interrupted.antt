-- ===== src/Linked/Interrupted.antt =====
-- libpi/libc/Q.h: an append that is interrupted by another one on the same queue.
use dfs_pios_ro.Base.{
  ℕ, List, ◌≢◌, Option, ◌≡◌, some, ◌∷◌, none, copies, refl, subst, ◌++◌, ℕ_discrete, ==-false_of_ne,
  [], sym, u32, length, ==_refl, arith, ◌+◌, ap, copies-last, hit-eq, ◌∙◌,
}
use dfs_pios_ro.Linked.{Links, Q, q_append, append_begins, set_next, append_ends}
use dfs_pios_ro.Linked.Holding.{Chain, last, Holds, linked, Chain-last, Chain-frame, copies-last_of}

q_append-halves :
    (next : Links) (q : Q) (t e : ℕ)
    → q.tail ≡ some t
    → q_append next q e ≡ ((append_begins next q t e).0, append_ends (append_begins next q t e).1 e)
unfolding q_append append_begins append_ends
q_append-halves next q t e end = rw end refl

Chain-pointwise :
    (n m : Links) (from : Option ℕ) (xs : List ℕ)
    → ((i : ℕ) → n i ≡ m i)
    → Chain n from xs
    → Chain m from xs
Chain-pointwise n m from [] same chain = chain
Chain-pointwise n m from (x ∷ xs) same (at, chain) =
    (at, subst (λ o. Chain m o xs) (same x) (Chain-pointwise n m (n x) xs same chain))

-- What the second append makes of the links, and what it would without the first.
overwritten :
    (next : Links) (e a t : ℕ)
    → e ≢ t
    → a ≢ t
    → (i : ℕ) → set_next (linked next a t) e none i ≡ linked (linked next e t) a t i
overwritten next e a t et at i = elim (ℕ_discrete i t) [
  | yes it ↦ rw (it, ==-false_of_ne t e (λ x. et (sym x)), ==_refl t) refl
  | no nt ↦ elim (ℕ_discrete i a) [
    | yes ia ↦ elim (ℕ_discrete i e) [ yes ie ↦ ground arith | no ne ↦ ground arith ]
    | no na ↦ ground arith
  ]
]

-- The links and the queue where `Q_append` of `e` is interrupted by that of `a`.
unfoldable pub interrupted : Links → Q → ℕ → ℕ → ℕ → Links × Q
unfolding append_begins q_append append_ends
interrupted next q t e a =
    let first = append_begins next q t e in
    let second = q_append first.0 first.1 a in (second.0, append_ends second.1 e)

module _ (next : Links) (q : Q) (xs : List ℕ) (t : ℕ) (h : Holds next q xs) (end : last xs ≡ some t)
    (e a : ℕ) (new : copies e xs ≡ 0) (other : copies a xs ≡ 0) (apart : e ≢ a) where
  -- Where a queue links the elements of a list, each once, with `t` at its end, and `e` and `a` are
  -- two elements that are not among them: if `Q_append` of `e` has linked it and not yet moved
  -- `tail` when an interrupt appends `a` to the queue, then behind both the queue links the list
  -- with `a` at its end, without `e`, though `tail` points to `e` and both are counted.
  pub interrupted-loses :
      Chain (interrupted next q t e a).0 (interrupted next q t e a).1.head (xs ++ (a ∷ []))
      × (copies e (xs ++ (a ∷ [])) ≡ 0)
      × ((interrupted next q t e a).1.tail ≡ some e)
      × ((interrupted next q t e a).1.cnt ≡ u32 (length xs + 2))
  unfolding interrupted q_append append_begins append_ends
  interrupted-loses =
      let away : e ≢ t =
        λ same. absurd (omega (arith, copies-last_of xs t end, new, ap (λ b. copies b xs) same)) in
      let away' : a ≢ t = λ same.
        absurd (omega (arith, copies-last_of xs t end, other, ap (λ b. copies b xs) same)) in
      let absent : copies e (xs ++ (a ∷ [])) ≡ 0 =
        omega (arith, copies-last e xs a, hit-eq e a apart) in
      let end' : q.tail ≡ some t = h.ends ∙ end in
      let plain = Chain-last next a t q.head xs end other h.apart h.chain in
      let framed = Chain-frame (linked next a t) e none q.head (xs ++ (a ∷ [])) absent plain in
      let chain =
        Chain-pointwise (set_next (linked next a t) e none) (linked (linked next e t) a t) q.head
          (xs ++ (a ∷ [])) (overwritten next e a t away away') framed in
      rw end' (chain, absent, refl, omega (arith, h.counted))
