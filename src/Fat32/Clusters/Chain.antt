-- ===== src/Fat32/Clusters/Chain.antt =====
-- The cluster chains that the table describes, independent of the code that walks them.
use dfs_pios_ro.Base.{
  ℕ, ◌≤◌, ◌≡◌, Bool, true, false, ◌||◌, some, List, [], ◌∷◌, ◌∙◌, sym, subst, eq_of_==, arith, ◌==◌,
  Bool-cases, inl, inr, length, get_elem?, set, ok, get_elem?-set_ne, suc, refl,
}
use dfs_pios_ro.Fat32.Entry.{fat_entry_type, last_cluster, used_cluster}

-- From `c` the entries of `fat` lead through the clusters of the list to one marked as the last.
pub data Chain (fat : List ℕ) : ℕ → List ℕ → Type 0 where
  end :
      {c v : ℕ}
      → 2 ≤ c
      → get_elem? fat c ≡ some v
      → fat_entry_type v ≡ ok last_cluster
      → Chain fat c (c ∷ [])
  link :
      {c n : ℕ} {cs : List ℕ}
      → 2 ≤ c
      → get_elem? fat c ≡ some n
      → fat_entry_type n ≡ ok used_cluster
      → Chain fat n cs
      → Chain fat c (c ∷ cs)

abbrev pub has : ℕ → List ℕ → Bool
has a [] = false
has a (x ∷ xs) = (a == x) || has a xs

module _ {fat : List ℕ} where
  pub Chain-ge_two : {c : ℕ} {cs : List ℕ} → Chain fat c cs → 2 ≤ c
  Chain-ge_two (end h e l) = h
  Chain-ge_two (link h e u ch) = h

  pub Chain-length-suc : {c : ℕ} {cs : List ℕ} → Chain fat c cs → (n : ℕ) × (length cs ≡ suc n)
  Chain-length-suc (end h e l) = (0, refl)
  Chain-length-suc (link {cs} h e u ch) = (length cs, refl)

  -- The clusters from a member of the chain on are a chain that is no longer.
  pub Chain-member :
      {c : ℕ} {cs : List ℕ} (a : ℕ)
      → Chain fat c cs
      → has a cs ≡ true
      → (ds : List ℕ) × Chain fat a ds × (length ds ≤ length cs)
  Chain-member a (end {c} h e l) m =
      let p : a ≡ c = ground arith in
      (c ∷ [], subst (λ x. Chain fat x (c ∷ [])) (sym p) (end h e l), omega arith)
  Chain-member a (link {c} {cs} h e u ch) m = elim (Bool-cases (a == c)) [
    | inl p ↦ (c ∷ cs, rw (eq_of_== a c p) (link h e u ch), omega arith)
    | inr p ↦ let (ds, ch', le) = Chain-member a ch (ground arith) in (ds, ch', omega (arith, le))
  ]

  -- A write outside a chain leaves it a chain.
  pub Chain-set :
      {c : ℕ} {cs : List ℕ} (i v : ℕ) → Chain fat c cs → has i cs ≡ false → Chain (set fat i v) c cs
  Chain-set i v (end {c} h e l) out = end h (get_elem?-set_ne fat v (ground arith) ∙ e) l
  Chain-set i v (link {c} h e u ch) out =
      link h (get_elem?-set_ne fat v (ground arith) ∙ e) u (Chain-set i v ch (ground arith))
