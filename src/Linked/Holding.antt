-- ===== src/Linked/Holding.antt =====
-- libpi/libc/Q.h: the list of the elements that a queue links.
use dfs_pios_ro.Base.{
  none, some, Option, List, ℕ, ◌≢◌, ◌∷◌, hit, ◌++◌, copies, ◌≡◌, ==-false_of_ne, arith, [], ◌≤◌,
  subst, ◌+◌, u32, ==_refl, length, refl, ◌∙◌, sym, hit_self,
}
use dfs_pios_ro.Linked.{Links, Q, set_next}

-- The links from `from` on go through the elements.
abbrev pub Chain : Links → Option ℕ → List ℕ → Type 0
Chain next from [] = from ≡ none
Chain next from (x ∷ xs) = (from ≡ some x) × Chain next (next x) xs

abbrev pub last : List ℕ → Option ℕ
last [] = none
last (x ∷ []) = some x
last (x ∷ y ∷ ys) = last (y ∷ ys)

-- Queue `q` holds the elements, the front one first, and each of them once.
pub record Holds (next : Links) (q : Q) (xs : List ℕ) : Type 0 where
  pub chain : Chain next q.head xs
  pub ends : q.tail ≡ last xs
  pub counted : q.cnt ≡ u32 (length xs)
  pub apart : (a : ℕ) → copies a xs ≤ 1

-- An element of the first list is not in the second.
abbrev pub Disjoint : List ℕ → List ℕ → Type 0
Disjoint xs ys = (a : ℕ) → copies a xs + copies a ys ≤ 1

pub set_next_self : (next : Links) (e : ℕ) (v : Option ℕ) → set_next next e v e ≡ v
set_next_self next e v = rw (==_refl e) refl

pub set_next-ne :
    (next : Links) (e : ℕ) (v : Option ℕ) (i : ℕ) → i ≢ e → set_next next e v i ≡ next i
set_next-ne next e v i ne = rw (==-false_of_ne i e ne) refl

pub ne_of_hit : (a x : ℕ) → hit a x ≡ 0 → x ≢ a
ne_of_hit a x h e = absurd (omega (arith, h, subst (λ y. hit a y ≡ 1) (sym e) (hit_self a)))

-- A change of an element that is not linked.
pub Chain-frame :
    (next : Links) (e : ℕ) (v : Option ℕ) (from : Option ℕ) (xs : List ℕ)
    → copies e xs ≡ 0
    → Chain next from xs
    → Chain (set_next next e v) from xs
Chain-frame next e v from [] absent chain = chain
Chain-frame next e v from (x ∷ xs) absent (e1, chain) = (
  e1,
  subst (λ o. Chain (set_next next e v) o xs)
      (sym (set_next-ne next e v x (ne_of_hit e x (omega arith))))
      (Chain-frame next e v (next x) xs (omega arith) chain),
)

pub copies-last_of : (xs : List ℕ) (t : ℕ) → last xs ≡ some t → 1 ≤ copies t xs
copies-last_of [] t e = absurd (cc)
copies-last_of (x ∷ []) t e =
    let same : x ≡ t = cc in omega (arith, subst (λ y. hit t y ≡ 1) (sym same) (hit_self t))
copies-last_of (x ∷ y ∷ ys) t e = omega (arith, copies-last_of (y ∷ ys) t e)

-- The links of `Q_append` behind a last element `t`.
abbrev pub linked : Links → ℕ → ℕ → Links
linked next e t = set_next (set_next next e none) t (some e)

pub Chain-last :
    (next : Links) (e t : ℕ) (from : Option ℕ) (xs : List ℕ)
    → last xs ≡ some t
    → copies e xs ≡ 0
    → ((a : ℕ) → copies a xs ≤ 1)
    → Chain next from xs
    → Chain (linked next e t) from (xs ++ (e ∷ []))
Chain-last next e t from [] end absent apart chain = absurd (cc)
Chain-last next e t from (x ∷ []) end absent apart (e1, chain) =
    let same : x ≡ t = cc in
    let away : e ≢ t =
      λ clash. absurd (omega (arith, subst (λ y. hit e y ≡ 1) (clash ∙ sym same) (hit_self e))) in
    (
      e1,
      (
        subst (λ y. linked next e t y ≡ some e) (sym same)
            (set_next_self (set_next next e none) t (some e)),
        set_next-ne (set_next next e none) t (some e) e away ∙ set_next_self next e none,
      ),
    )
Chain-last next e t from (x ∷ y ∷ ys) end absent apart (e1, chain) =
    let elsewhere : x ≢ t = λ same. absurd (
      omega (
        arith,
        apart t,
        copies-last_of (y ∷ ys) t end,
        subst (λ z. hit t z ≡ 1) (sym same) (hit_self t),
      )) in
    let kept : linked next e t x ≡ next x =
      set_next-ne (set_next next e none) t (some e) x elsewhere
      ∙ set_next-ne next e none x (ne_of_hit e x (omega arith)) in
    (
      e1,
      subst (λ o. Chain (linked next e t) o ((y ∷ ys) ++ (e ∷ []))) (sym kept)
          (Chain-last next e t (next x) (y ∷ ys) end (omega arith) (λ a. omega (arith, apart a))
            chain),
    )

pub last-append : (xs : List ℕ) (e : ℕ) → last (xs ++ (e ∷ [])) ≡ some e
last-append [] e = refl
last-append (x ∷ []) e = refl
last-append (x ∷ y ∷ ys) e = last-append (y ∷ ys) e
