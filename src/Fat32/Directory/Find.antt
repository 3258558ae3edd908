-- ===== src/Fat32/Directory/Find.antt =====
-- `find_dirent_with_name` in a directory whose entries in use hold valid names.
use dfs_pios_ro.Fat32.Names.Match.{matches-shown_eq, matches-shown_self}
use dfs_pios_ro.Fat32.Names.RoundTrip.{shown, to_8dot3-raw_name}
use dfs_pios_ro.Fat32.Names.{is_valid_name, raw_name, matches}
use dfs_pios_ro.Fat32.Directory.{find_from, find_dirent_with_name, skipped}
use dfs_pios_ro.Fat32.Dirent.{Dirent, dirent_name}
use dfs_pios_ro.Base.{
  ok, List, ◌∷◌, ℕ, ◌<◌, Option, ◌≡◌, suc, length, get_elem?, true, false, some-injective, ◌+◌,
  if◌then◌else◌, sym, some, none, [], arith, Bool-cases, inl, ◌∙◌, inr, refl, zero,
}

-- The entry holds the valid name `name`.
abbrev pub HoldsName : Dirent → List ℕ → Type 0
HoldsName d name = (is_valid_name name ≡ true) × (raw_name name ≡ ok d.filename)

abbrev pub WellNamed : List Dirent → Type 0
WellNamed [] = Unit {0}
WellNamed (d ∷ ds) = (skipped d ≡ false → (name : List ℕ) × HoldsName d name) × WellNamed ds

-- The entry is in use and holds the name.
abbrev pub Has : List ℕ → Dirent → Type 0
Has name d = (skipped d ≡ false) × HoldsName d name

abbrev pub NoneHas : List ℕ → List Dirent → ℕ → Type 0
NoneHas name ds n = (k : ℕ) (d : Dirent) → k < n → get_elem? ds k ≡ some d → ¬ Has name d

-- The answer of a search that starts to count at `i`.
abbrev pub Found : List ℕ → ℕ → List Dirent → Option ℕ → Type 0
Found name i ds none = NoneHas name ds (length ds)
Found name i ds (some j) =
    (k : ℕ) × (d : Dirent) × (j ≡ i + k)
    × (get_elem? ds k ≡ some d)
    × Has name d
    × NoneHas name ds k

dirent_name-HoldsName :
    (d : Dirent) (name : List ℕ) → HoldsName d name → dirent_name d ≡ ok (shown name)
unfolding dirent_name
dirent_name-HoldsName d name (v, r) =
    let (raw, e, back) = to_8dot3-raw_name name v in
    let same : raw ≡ d.filename = cc in rw same at back

-- One entry holds one name.
HoldsName-unique : (d : Dirent) (a b : List ℕ) → HoldsName d a → HoldsName d b → a ≡ b
HoldsName-unique d a b ha hb =
    let same : shown a ≡ shown b =
      cc (dirent_name-HoldsName d a ha, dirent_name-HoldsName d b hb) in
    sym (matches-shown_eq b a hb.0 ha.0 (rw (← same) (matches-shown_self a ha.0)))

find_from-skip :
    (i : ℕ) (d : Dirent) (ds : List Dirent) (filename : List ℕ)
    → skipped d ≡ true
    → find_from i (d ∷ ds) filename ≡ find_from (i + 1) ds filename
unfolding find_from
find_from-skip i d ds filename e = rw e

find_from-use :
    (i : ℕ) (d : Dirent) (ds : List Dirent) (filename name : List ℕ)
    → skipped d ≡ false
    → HoldsName d name
    → find_from i (d ∷ ds) filename
      ≡ (if matches (shown name) filename then ok (some i) else find_from (i + 1) ds filename)
unfolding find_from
find_from-use i d ds filename name e h = rw (e, dirent_name-HoldsName d name h)

NoneHas-cons :
    (name : List ℕ) (d : Dirent) (ds : List Dirent) (n : ℕ)
    → ¬ Has name d
    → NoneHas name ds n
    → NoneHas name (d ∷ ds) (suc n)
NoneHas-cons name d ds n not_d rest zero d' lt e has = not_d (rw (← some-injective d d' e) at has)
NoneHas-cons name d ds n not_d rest (suc k) d' lt e has = rest k d' (omega arith) e has

Found-cons :
    (name : List ℕ) (i : ℕ) (d : Dirent) (ds : List Dirent) (r : Option ℕ)
    → ¬ Has name d
    → Found name (i + 1) ds r
    → Found name i (d ∷ ds) r
Found-cons name i d ds none not_d rest = NoneHas-cons name d ds (length ds) not_d rest
Found-cons name i d ds (some j) not_d (k, d', e, at, is, before) =
    (suc k, d', omega arith, at, is, NoneHas-cons name d ds k not_d before)

find_from-Found :
    (filename : List ℕ) (i : ℕ) (ds : List Dirent)
    → is_valid_name filename ≡ true
    → WellNamed ds
    → (r : Option ℕ) × (find_from i ds filename ≡ ok r) × Found filename i ds r
find_from-Found filename i [] v w = (none, unfold find_from in refl, λ k d lt. absurd (omega arith))
find_from-Found filename i (d ∷ ds) v w =
    let (r, e, a) = find_from-Found filename (i + 1) ds v w.1 in
    elim (Bool-cases (skipped d)) [
      | inl s ↦ (r, find_from-skip i d ds filename s ∙ e, Found-cons filename i d ds r (λ h. cc) a)
      | inr u ↦
          let (name, holds) = w.0 u in
          let read = find_from-use i d ds filename name u holds in
          elim (Bool-cases (matches (shown name) filename)) [
            | inl m ↦
                let same : name ≡ filename = matches-shown_eq name filename holds.0 v m in
                (
                  some i,
                  read ∙ rw m,
                  (
                    0,
                    d,
                    omega arith,
                    refl,
                    (u, rw (← same) holds),
                    λ k d' lt. absurd (omega arith),
                  ),
                )
            | inr m ↦ (
              r,
              read ∙ rw m e,
              Found-cons filename i d ds r
                  (λ h.
                    let same = HoldsName-unique d name filename holds h.1 in
                    let found : matches (shown name) filename ≡ true =
                      rw (← same) (matches-shown_self name holds.0) in
                    cc)
                  a,
            )
          ]
    ]

-- In a directory whose entries in use hold valid names, `find_dirent_with_name` of a valid name
-- always returns: the index of the first entry in use that holds it, or -1 where no entry does.
pub find_dirent_with_name-Found :
    (filename : List ℕ) (ds : List Dirent)
    → is_valid_name filename ≡ true
    → WellNamed ds
    → (r : Option ℕ) × (find_dirent_with_name ds filename ≡ ok r) × Found filename 0 ds r
unfolding find_dirent_with_name
find_dirent_with_name-Found filename ds v w = find_from-Found filename 0 ds v w
