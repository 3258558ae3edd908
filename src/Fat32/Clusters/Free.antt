-- ===== src/Fat32/Clusters/Free.antt =====
-- `find_free_cluster`, and the loop of `fat32_delete` that frees a chain.
use dfs_pios_ro.Fat32.Entry.{
  free_cluster, EntryType, fat_entry_type, is_free, reserved_cluster, bad_cluster, last_cluster,
  used_cluster,
}
use dfs_pios_ro.Base.{
  ℕ, zero, suc, ◌≤◌, ◌<◌, ◌≡◌, refl, ◌&&◌, some, List, [], ◌∷◌, arith, length, length-set,
  get_elem?, set, ok, ltb, if◌then◌else◌, ◌==◌, true, ◌+◌, ◌≢◌, Bool-cases, ◌⊎◌, panic, inr, inl,
  false, subst, eq_of_==, ◌∙◌, ltb-false_of_le, ◌-◌, >>=-eq-ok, elem_at, ap,
}
use dfs_pios_ro.Fat32.Disk.{System, with_fat, set_fat, Fs}
use dfs_pios_ro.Fat32.Clusters.{free_loop, find_free_loop, find_free_cluster}
use dfs_pios_ro.Fat32.Clusters.Chain.{Chain, end, link, has, Chain-set}
use dfs_pios_ro.Fat32.Clusters.Walk.{Chain-distinct}

-- `fat` with the entries of the clusters `cs` set to 0.
abbrev pub clear : List ℕ → List ℕ → List ℕ
clear fat [] = fat
clear fat (c ∷ cs) = clear (set fat c 0) cs

pub lt-length_of_some : (xs : List ℕ) (i : ℕ) {v : ℕ} → get_elem? xs i ≡ some v → i < length xs
lt-length_of_some [] i e = cc
lt-length_of_some (x ∷ xs) zero e = omega arith
lt-length_of_some (x ∷ xs) (suc i) e = omega (arith, lt-length_of_some xs i e)

pub get_elem?-set_zero :
    (xs : List ℕ) (i j : ℕ)
    → get_elem? (set xs i 0) j ≡ (if (i == j) && ltb j (length xs) then some 0 else get_elem? xs j)
get_elem?-set_zero [] i j = ground arith
get_elem?-set_zero (x ∷ xs) zero zero = ground arith
get_elem?-set_zero (x ∷ xs) zero (suc j) = ground arith
get_elem?-set_zero (x ∷ xs) (suc i) zero = ground arith
get_elem?-set_zero (x ∷ xs) (suc i) (suc j) = ground (arith, get_elem?-set_zero xs i j)

pub get_elem?-clear :
    (cs fat : List ℕ) (i : ℕ)
    → get_elem? (clear fat cs) i
      ≡ (if has i cs && ltb i (length fat) then some 0 else get_elem? fat i)
get_elem?-clear [] fat i = refl
get_elem?-clear (c ∷ cs) fat i =
    ground
      (arith, get_elem?-clear cs (set fat c 0) i, get_elem?-set_zero fat c i, length-set fat c 0)

-- Every cluster of a chain has an entry in the table.
pub Chain-lt-length :
    {fat : List ℕ} {c : ℕ} {cs : List ℕ} (i : ℕ) → Chain fat c cs → has i cs ≡ true → i < length fat
Chain-lt-length {fat} i (end {c} h e l) m = ground (arith, lt-length_of_some fat c e)
Chain-lt-length {fat} i (link {c} h e u ch) m =
    ground (arith, lt-length_of_some fat c e, Chain-lt-length i ch)

module _ {W : Type 0} where
  pub free_loop-clear :
      (k : ℕ) (s : System W) {c : ℕ} {cs : List ℕ}
      → Chain s.fs.fat c cs
      → length cs ≤ k
      → free_loop k s c ≡ ok (with_fat s (clear s.fs.fat cs))
  unfolding free_loop set_fat
  free_loop-clear zero s (end h e l) le = absurd (omega arith)
  free_loop-clear (suc k) s (end {c} h e l) le = ground (arith, lt-length_of_some s.fs.fat c e)
  free_loop-clear zero s (link h e u ch) le = absurd (omega arith)
  free_loop-clear (suc k) s (link {c} h e u ch) le = ground (
    arith,
    lt-length_of_some s.fs.fat c e,
    free_loop-clear k (with_fat s (set s.fs.fat c 0))
        (Chain-set c 0 ch (Chain-distinct (link h e u ch) ch)) (omega arith),
  )

  -- With as many rounds as clusters, the loop of `fat32_delete` sets the entries of the chain to 0
  -- and leaves the others.
  free_loop-frees :
      (k : ℕ) (s : System W) {c : ℕ} {cs : List ℕ}
      → Chain s.fs.fat c cs
      → length cs ≤ k
      → (fat' : List ℕ) × (free_loop k s c ≡ ok (with_fat s fat'))
        × ((i : ℕ) → get_elem? fat' i ≡ (if has i cs then some 0 else get_elem? s.fs.fat i))
  free_loop-frees k s {cs} ch le = (
    clear s.fs.fat cs,
    free_loop-clear k s ch le,
    λ i. ground (arith, get_elem?-clear cs s.fs.fat i, Chain-lt-length i ch),
  )

abbrev pub EntryIs : List ℕ → ℕ → EntryType → Type 0
EntryIs fat i t = (v : ℕ) × (get_elem? fat i ≡ some v) × (fat_entry_type v ≡ ok t)

-- No entry is one of the reserved values, at which `fat32_fat_entry_type` panics.
abbrev pub Typed : List ℕ → Type 0
Typed fat = (i : ℕ) → i < length fat → (t : EntryType) × EntryIs fat i t

-- The clusters from `a` up to `b` have entries that are not free.
abbrev pub AllTaken : List ℕ → ℕ → ℕ → Type 0
AllTaken fat a b = (j : ℕ) → a ≤ j → j < b → (t : EntryType) × EntryIs fat j t × (t ≢ free_cluster)

-- What a search from `a` returns: the first free cluster from `a` on.
pub record FirstFree (fat : List ℕ) (a c : ℕ) : Type 0 where
  pub from : a ≤ c
  pub free : EntryIs fat c free_cluster
  pub before : AllTaken fat a c

AllTaken-suc :
    (fat : List ℕ) (a b : ℕ) {t : EntryType}
    → EntryIs fat a t
    → t ≢ free_cluster
    → AllTaken fat (a + 1) b
    → AllTaken fat a b
AllTaken-suc fat a b {t} e ne rest j le lt = elim (Bool-cases (j == a)) [
  | inl p ↦ (t, rw (eq_of_== j a p) e, ne)
  | inr p ↦ rest j (ground arith) lt
]

free-cases : (t : EntryType) → (t ≡ free_cluster) ⊎ ((t ≢ free_cluster) × (is_free t ≡ false))
free-cases free_cluster = inl refl
free-cases reserved_cluster = inr (λ e. cc, refl)
free-cases bad_cluster = inr (λ e. cc, refl)
free-cases last_cluster = inr (λ e. cc, refl)
free-cases used_cluster = inr (λ e. cc, refl)

module _ (fat : List ℕ) where
  find_free_loop-hit :
      (left a : ℕ) → EntryIs fat a free_cluster → find_free_loop (suc left) fat a ≡ ok a
  unfolding find_free_loop
  find_free_loop-hit left a (v, e, t) = ground arith

  find_free_loop-miss :
      (left a : ℕ) {t : EntryType}
      → EntryIs fat a t
      → is_free t ≡ false
      → find_free_loop (suc left) fat a ≡ find_free_loop left fat (a + 1)
  unfolding find_free_loop
  find_free_loop-miss left a (v, e, t) f = ground arith

  find_free_loop-Typed :
      (left a : ℕ)
      → Typed fat
      → a + left ≡ length fat
      → ((c : ℕ) × (find_free_loop left fat a ≡ ok c) × FirstFree fat a c)
        ⊎ ((find_free_loop left fat a ≡ panic) × AllTaken fat a (length fat))
  find_free_loop-Typed zero a ty e =
      inr (unfold find_free_loop in refl, λ j le lt. absurd (omega arith))
  find_free_loop-Typed (suc left) a ty e =
      let (t, is) = ty a (omega arith) in
      elim (free-cases t) [
        | inl f ↦
            let here : EntryIs fat a free_cluster = subst (EntryIs fat a) f is in
            inl (
              a,
              find_free_loop-hit left a here,
              record { from = omega arith; free = here; before = λ j le lt. absurd (omega arith) },
            )
        | inr (ne, f) ↦
            let skip = find_free_loop-miss left a is f in
            elim (find_free_loop-Typed left (a + 1) ty (omega arith)) [
              | inl (c, found, first) ↦ inl (
                c,
                skip ∙ found,
                record {
                  from = omega arith;
                  free = first.free;
                  before = AllTaken-suc fat a c is ne first.before;
                },
              )
              | inr (stop, all) ↦ inr (skip ∙ stop, AllTaken-suc fat a (length fat) is ne all)
            ]
      ]

-- On a table of `n_entries` words with no reserved value, from a start of at least 3 inside the
-- table, `find_free_cluster` returns the first free cluster from the start on, or there is none up
-- to the end and it panics.
pub find_free_cluster-FirstFree :
    (fs : Fs) (start : ℕ)
    → Typed fs.fat
    → fs.n_entries ≡ length fs.fat
    → 3 ≤ start
    → start ≤ fs.n_entries
    → ((c : ℕ) × (find_free_cluster fs start ≡ ok c) × FirstFree fs.fat start c)
      ⊎ ((find_free_cluster fs start ≡ panic) × AllTaken fs.fat start (length fs.fat))
unfolding find_free_cluster
find_free_cluster-FirstFree fs start ty n lo hi =
    rw (ltb-false_of_le start 3 lo)
      (find_free_loop-Typed fs.fat (fs.n_entries - start) start ty (omega arith))

find_free_loop-ok :
    (left : ℕ) (fat : List ℕ) (a c : ℕ)
    → find_free_loop left fat a ≡ ok c
    → (a ≤ c) × EntryIs fat c free_cluster
unfolding find_free_loop
find_free_loop-ok zero fat a c e = cc
find_free_loop-ok (suc left) fat a c e =
    let (v, get, e') = >>=-eq-ok (elem_at fat a) _ e in
    let (t, is, e'') = >>=-eq-ok (fat_entry_type v) _ e' in
    let entry : get_elem? fat a ≡ some v = ground arith in
    elim (free-cases t) [
      | inl free ↦
          let hit : a ≡ c = ground arith in (omega arith, rw (← hit) (v, entry, is ∙ ap ok free))
      | inr (ne, no_hit) ↦
          let (le, there) = find_free_loop-ok left fat (a + 1) c (rw no_hit at e'') in
          (omega arith, there)
    ]

-- What `find_free_cluster` returns is never below 3, and is free.
pub find_free_cluster-ok :
    (fs : Fs) (start c : ℕ)
    → find_free_cluster fs start ≡ ok c
    → (3 ≤ c) × EntryIs fs.fat c free_cluster
unfolding find_free_cluster
find_free_cluster-ok fs start c e =
    let from : ℕ = if ltb start 3 then 3 else start in
    let (le, there) = find_free_loop-ok (fs.n_entries - from) fs.fat from c e in
    (ground arith, there)
