-- ===== src/Fat32/Dirent/Lookup.antt =====
-- `fat32_dir_lookup` against what it looks for: the first entry in use that has the name.
use dfs_pios_ro.Fat32.Dirent.{lookup_from, same_bytes, Dirent, dir_lookup, attr_lfn, byte_at}
use dfs_pios_ro.Base.{
  ok, List, ℕ, Bool, ◌&&◌, Option, not, ◌<◌, ◌≡◌, false, true, none, length, get_elem?, ◌==◌, some,
  arith, ◌+◌, ◌∷◌, ◌∷◌, suc, [], Bool-cases, ◌||◌, refl, inl, zero, inr, ◌∙◌,
}

-- An entry that is in use and is no part of a long name.
abbrev pub live : Dirent → Bool
live d =
    not (d.attr == attr_lfn) && not ((byte_at d.filename 0 == 0) || (byte_at d.filename 0 == 0xe5))

abbrev pub hit : List ℕ → Dirent → Bool
hit name d = live d && same_bytes name d.filename

pub same_bytes-eq : (xs ys : List ℕ) → same_bytes xs ys ≡ true → xs ≡ ys
unfolding same_bytes
same_bytes-eq [] [] e = refl
same_bytes-eq [] (y ∷ ys) e = cc
same_bytes-eq (x ∷ xs) [] e = cc
same_bytes-eq (x ∷ xs) (y ∷ ys) e = ground (arith, same_bytes-eq xs ys)

pub same_bytes_refl : (xs : List ℕ) → same_bytes xs xs ≡ true
unfolding same_bytes
same_bytes_refl [] = refl
same_bytes_refl (x ∷ xs) = ground (arith, same_bytes_refl xs)

-- Nothing in the first `n` entries is a hit.
abbrev pub NoHit : List ℕ → List Dirent → ℕ → Type 0
NoHit name ds n = (k : ℕ) (d : Dirent) → k < n → get_elem? ds k ≡ some d → hit name d ≡ false

-- The answer of a search that starts to count at `i`.
abbrev pub Answer : List ℕ → ℕ → List Dirent → Option ℕ → Type 0
Answer name i ds none = NoHit name ds (length ds)
Answer name i ds (some j) =
    (k : ℕ) × (d : Dirent) × (j ≡ i + k)
    × (get_elem? ds k ≡ some d)
    × (hit name d ≡ true)
    × NoHit name ds k

lookup_from-hit :
    (name : List ℕ) (i : ℕ) (d : Dirent) (ds : List Dirent)
    → hit name d ≡ true
    → lookup_from name i (d ∷ ds) ≡ ok (some i)
unfolding lookup_from
lookup_from-hit name i d ds h = ground arith

lookup_from-miss :
    (name : List ℕ) (i : ℕ) (d : Dirent) (ds : List Dirent)
    → hit name d ≡ false
    → lookup_from name i (d ∷ ds) ≡ lookup_from name (i + 1) ds
unfolding lookup_from
lookup_from-miss name i d ds h = ground arith

NoHit-cons :
    (name : List ℕ) (d : Dirent) (ds : List Dirent) (n : ℕ)
    → hit name d ≡ false
    → NoHit name ds n
    → NoHit name (d ∷ ds) (suc n)
NoHit-cons name d ds n h rest zero d' lt e = ground arith
NoHit-cons name d ds n h rest (suc k) d' lt e = rest k d' (omega arith) e

Answer-cons :
    (name : List ℕ) (i : ℕ) (d : Dirent) (ds : List Dirent) (r : Option ℕ)
    → hit name d ≡ false
    → Answer name (i + 1) ds r
    → Answer name i (d ∷ ds) r
Answer-cons name i d ds none h rest = NoHit-cons name d ds (length ds) h rest
Answer-cons name i d ds (some j) h (k, d', e, at, is, before) =
    (suc k, d', omega arith, at, is, NoHit-cons name d ds k h before)

lookup_from-Answer :
    (name : List ℕ) (i : ℕ) (ds : List Dirent)
    → (r : Option ℕ) × (lookup_from name i ds ≡ ok r) × Answer name i ds r
lookup_from-Answer name i [] = (none, unfold lookup_from in refl, λ k d lt. absurd (omega arith))
lookup_from-Answer name i (d ∷ ds) = elim (Bool-cases (hit name d)) [
  | inl h ↦ (
    some i,
    lookup_from-hit name i d ds h,
    (0, d, omega arith, refl, h, λ k d' lt. absurd (omega arith)),
  )
  | inr h ↦
      let (r, e, a) = lookup_from-Answer name (i + 1) ds in
      (r, lookup_from-miss name i d ds h ∙ e, Answer-cons name i d ds r h a)
]

-- `fat32_dir_lookup` always returns, with the index of the first entry in use that has the name, or
-- with none where there is no such entry.
dir_lookup-Answer :
    (name : List ℕ) (ds : List Dirent)
    → (r : Option ℕ) × (dir_lookup name ds ≡ ok r) × Answer name 0 ds r
unfolding dir_lookup
dir_lookup-Answer name ds = lookup_from-Answer name 0 ds
