-- ===== src/Linked/Operations.antt =====
-- libpi/libc/Q.h: the operations of a queue, and the lists that queues hold.
use dfs_pios_ro.Base.{
  none, some, Option, List, ℕ, ◌∷◌, copies, ◌≡◌, [], arith, ◌≤◌, ◌++◌, subst, u32, ok, length, ◌⊎◌,
  ◌+◌, sym, inl, copies-last, hit, inr, length-append, hit_self, ◌∙◌, ℕ_discrete, refl, ap, hit-eq,
  if◌then◌else◌,
}
use dfs_pios_ro.Linked.{
  Links, Q, is_null, set_next, q_empty, q_nelem, popped, q_pop, q_append, q_push,
}
use dfs_pios_ro.Linked.Holding.{
  Chain, last, Holds, Disjoint, set_next_self, Chain-frame, copies-last_of, linked, Chain-last,
  last-append,
}

-- The other queues of a program: they hold what they held.
abbrev pub OthersKept : Links → List ℕ → ℕ → Links → Type 0
OthersKept next xs e next' =
    (p : Q) (ys : List ℕ) → Holds next p ys → Disjoint (e ∷ xs) ys → Holds next' p ys

Holds-frame :
    {next : Links} {p : Q} {ys : List ℕ} (e : ℕ) (v : Option ℕ)
    → copies e ys ≡ 0
    → Holds next p ys
    → Holds (set_next next e v) p ys
Holds-frame {next} {p} {ys} e v absent h = record {
  chain = Chain-frame next e v p.head ys absent h.chain;
  ends = h.ends;
  counted = h.counted;
  apart = h.apart;
}

cnt_up :
    (n : ℕ) (xs : List ℕ) (e : ℕ)
    → n ≡ u32 (length xs)
    → u32 (n + 1) ≡ u32 (length (xs ++ (e ∷ [])))
cnt_up n xs e h = omega (arith, length-append xs (e ∷ []))

once_more :
    (xs : List ℕ) (e : ℕ)
    → copies e xs ≡ 0
    → ((a : ℕ) → copies a xs ≤ 1)
    → (a : ℕ) → copies a xs + hit a e ≤ 1
once_more xs e absent apart a = elim (ℕ_discrete a e) [
  | yes same ↦ subst (λ b. copies b xs + hit b e ≤ 1) (sym same) (omega (arith, hit_self e))
  | no other ↦ omega (arith, apart a, hit-eq a e other)
]

module _ {next : Links} {q : Q} {xs : List ℕ} (h : Holds next q xs) (e : ℕ)
    (absent : copies e xs ≡ 0) where
  q_append-empty :
      q.tail ≡ none
      → q_append next q e
        ≡ (set_next next e none, record { head = some e; tail = some e; cnt = u32 (q.cnt + 1) })
  unfolding q_append
  q_append-empty none_left = rw none_left refl

  q_append-behind :
      (t : ℕ)
      → q.tail ≡ some t
      → q_append next q e
        ≡ (linked next e t, record { head = q.head; tail = some e; cnt = u32 (q.cnt + 1) })
  unfolding q_append
  q_append-behind t end = rw end refl

  -- What `Q_append` leaves.
  abbrev Appended : Links × Q → Type 0
  Appended (next', q') = Holds next' q' (xs ++ (e ∷ [])) × OthersKept next xs e next'

  Appended-empty :
      xs ≡ []
      → Appended
          (set_next next e none, record { head = some e; tail = some e; cnt = u32 (q.cnt + 1) })
  Appended-empty empty = (
    record {
      chain = rw empty (refl, set_next_self next e none);
      ends = rw empty refl;
      counted = cnt_up q.cnt xs e h.counted;
      apart = λ a. omega (arith, copies-last a xs e, once_more xs e absent h.apart a);
    },
    λ p ys hp apart. Holds-frame e none (omega (arith, apart e, hit_self e)) hp,
  )

  Appended-behind :
      (t : ℕ)
      → last xs ≡ some t
      → Appended (linked next e t, record { head = q.head; tail = some e; cnt = u32 (q.cnt + 1) })
  Appended-behind t end = (
    record {
      chain = Chain-last next e t q.head xs end absent h.apart h.chain;
      ends = sym (last-append xs e);
      counted = cnt_up q.cnt xs e h.counted;
      apart = λ a. omega (arith, copies-last a xs e, once_more xs e absent h.apart a);
    },
    λ p ys hp apart.
        Holds-frame t (some e) (omega (arith, apart t, copies-last_of xs t end))
          (Holds-frame e none (omega (arith, apart e, hit_self e)) hp),
  )

last-cases : (xs : List ℕ) → (xs ≡ []) ⊎ ((t : ℕ) × (last xs ≡ some t))
last-cases [] = inl refl
last-cases (x ∷ []) = inr (x, refl)
last-cases (x ∷ y ∷ ys) = elim (last-cases (y ∷ ys)) [ inl e ↦ absurd (cc) | inr found ↦ inr found ]

-- Where a queue links the elements of a list, each once, and the new element is not among them,
-- `Q_append` makes it link the list with the new element at its end, and every other queue on the
-- same fields `next` that has no element in common keeps its list.
pub q_append-Holds :
    (next : Links) (q : Q) (xs : List ℕ)
    → Holds next q xs
    → (e : ℕ) → copies e xs ≡ 0
    → Holds (q_append next q e).0 (q_append next q e).1 (xs ++ (e ∷ []))
      × OthersKept next xs e (q_append next q e).0
q_append-Holds next q xs h e absent = elim (last-cases xs) [
  | inl empty ↦
      subst (Appended h e absent) (sym (q_append-empty h e absent (h.ends ∙ ap last empty)))
        (Appended-empty h e absent empty)
  | inr (t, end) ↦
      subst (Appended h e absent) (sym (q_append-behind h e absent t (h.ends ∙ end)))
        (Appended-behind h e absent t end)
]

-- The field `tail` behind a pop and behind a push.
popped-tail :
    (next : Links) (rest : List ℕ) (o tail : Option ℕ) (x : ℕ)
    → Chain next o rest
    → tail ≡ last (x ∷ rest)
    → (if is_null o then none else tail) ≡ last rest
popped-tail next [] o tail x chain e = rw chain refl
popped-tail next (y ∷ ys) o tail x (at, chain) e = rw at e

pushed-tail :
    (xs : List ℕ) (tail : Option ℕ) (e : ℕ)
    → tail ≡ last xs
    → (if is_null tail then some e else tail) ≡ last (e ∷ xs)
pushed-tail [] tail e h = rw h refl
pushed-tail (x ∷ xs) tail e h = elim (last-cases (x ∷ xs)) [
  | inl empty ↦ absurd (cc)
  | inr (t, end) ↦ rw (h ∙ end) (sym end)
]

-- The outcome of `Q_pop` on a list.
abbrev pub Popped : Links → Q → List ℕ → Type 0
Popped next q [] = q_pop next q ≡ ok (none, q)
Popped next q (x ∷ rest) = (q' : Q) × (q_pop next q ≡ ok (some x, q')) × Holds next q' rest

-- Where a queue links the elements of a list, each once, `Q_pop` takes off the first and leaves a
-- queue that links the others; on an empty queue it returns 0 and changes nothing.
pub q_pop-Popped : (next : Links) (q : Q) (xs : List ℕ) → Holds next q xs → Popped next q xs
unfolding q_pop q_empty q_nelem
q_pop-Popped next q [] h = rw (h.chain, h.ends, h.counted) refl
q_pop-Popped next q (x ∷ rest) h =
    let (at, chain) = h.chain in
    (
      popped q (next x),
      rw at refl,
      record {
        chain = chain;
        ends = popped-tail next rest (next x) q.tail x chain h.ends;
        counted = omega (arith, h.counted);
        apart = λ a. omega (arith, h.apart a);
      },
    )

pub q_push-Holds :
    (next : Links) (q : Q) (xs : List ℕ)
    → Holds next q xs
    → (e : ℕ) → copies e xs ≡ 0
    → Holds (q_push next q e).0 (q_push next q e).1 (e ∷ xs)
      × OthersKept next xs e (q_push next q e).0
unfolding q_push
q_push-Holds next q xs h e absent = (
  record {
    chain = (
      refl,
      subst (λ o. Chain (set_next next e q.head) o xs) (sym (set_next_self next e q.head))
          (Chain-frame next e q.head q.head xs absent h.chain),
    );
    ends = pushed-tail xs q.tail e h.ends;
    counted = omega (arith, h.counted);
    apart = λ a. omega (arith, once_more xs e absent h.apart a);
  },
  λ p ys hp apart. Holds-frame e q.head (omega (arith, apart e, hit_self e)) hp,
)
