-- ===== src/Fat32/Calls/Chain.antt =====
-- fat32/fs-apis.c: fs_changedir, and the chain of directories of a mirror.
use dfs_pios_ro.Fat32.Dirent.{same_bytes}
use dfs_pios_ro.Base.{
  ℕ, ◌≡◌, Bool, Option, List, false, some, refl, ok, ◌∷◌, true, none, [], Bool-cases, inl, inr,
  subst, if◌then◌else◌, ok-injective, sym, >>=-eq-ok, ap,
}
use dfs_pios_ro.Fat32.Directory.{PiDirent, stat}
use dfs_pios_ro.Fat32.Disk.{SdCard, System}
use dfs_pios_ro.Fat32.Calls.{
  go_down, go_up, Mirror, top, dirname_to_directory, strip_slash, dir_home, dir_same, dir_up,
  fs_changedir, register_mirror,
}

pub record MirrorOk (root : PiDirent) (m : Mirror) : Type 0 where
  pub current : m.cwd ≡ m.here
  pub rooted : top m.here m.parents ≡ root

-- What a call returns: a sound mirror, that of before where it fails.
abbrev Good : PiDirent → Mirror → Bool × PiDirent × Mirror → Type 0
Good root m r = MirrorOk root r.2 × (r.0 ≡ false → r.2 ≡ m)

same-Good :
    {root : PiDirent} {m : Mirror} (b : Bool) (d : PiDirent)
    → MirrorOk root m
    → Good root m (b, d, m)
same-Good b d v = (v, λ e. refl)

go_up-Good :
    {root : PiDirent} (m : Mirror) (cd : Bool) (ps : List PiDirent)
    → MirrorOk root m
    → top m.here ps ≡ root
    → Good root m (go_up m cd ps)
unfolding go_up
go_up-Good m cd [] v e = same-Good false m.cwd v
go_up-Good m false (p ∷ ps) v e = same-Good true p v
go_up-Good m true (p ∷ ps) v e = (record { current = refl; rooted = e }, λ e. cc)

pub go_down-Good :
    {root : PiDirent} (m : Mirror) (cd : Bool) (sub : Option PiDirent)
    → MirrorOk root m
    → Good root m (go_down m cd sub)
unfolding go_down
go_down-Good m cd none v = same-Good false m.cwd v
go_down-Good m false (some d) v = same-Good true d v
go_down-Good m true (some d) v = (record { current = refl; rooted = v.rooted }, λ e. cc)

go_up-rooted :
    {root : PiDirent} (m : Mirror) (cd : Bool)
    → MirrorOk root m
    → Good root m (go_up m cd m.parents)
go_up-rooted m cd v = go_up-Good m cd m.parents v v.rooted

go_home-Good :
    {root : PiDirent} (m : Mirror) (cd : Bool)
    → MirrorOk root m
    → Good root m (
      true,
      root,
      if cd then record { cwd = root; here = top m.here m.parents; parents = [] } else m,
    )
go_home-Good {root} m false v = same-Good true root v
go_home-Good m true v = (record { current = sym v.rooted; rooted = v.rooted }, λ e. cc)

module _ {W : Type 0} (sd : SdCard W) (fuel : ℕ) (root : PiDirent) (s : System W) where
  dirname_to_directory-Good :
      (m : Mirror) (dirname : List ℕ) (cd : Bool) {r : Bool × PiDirent × Mirror}
      → MirrorOk root m
      → dirname_to_directory sd fuel root s m dirname cd ≡ ok r
      → Good root m r
  unfolding dirname_to_directory
  dirname_to_directory-Good m [] cd v e =
      subst (Good root m) (ok-injective _ _ e) (same-Good true m.cwd v)
  dirname_to_directory-Good m (c ∷ cs) cd {r} v e =
      let name = strip_slash (c ∷ cs) in
      elim (Bool-cases (same_bytes name dir_home)) [
        | inl home ↦ subst (Good root m) (ok-injective _ r (rw home at e)) (go_home-Good m cd v)
        | inr not_home ↦ elim (Bool-cases (same_bytes name dir_same)) [
          | inl stay ↦
              subst (Good root m) (ok-injective _ r (rw (not_home, stay) at e))
                (same-Good true m.cwd v)
          | inr go ↦ elim (Bool-cases (same_bytes name dir_up)) [
            | inl up ↦
                subst (Good root m) (ok-injective _ r (rw (not_home, go, up) at e))
                  (go_up-rooted m cd v)
            | inr down ↦
                let (sub, found, e') =
                  >>=-eq-ok (stat sd fuel s m.cwd name) _ (rw (not_home, go, down) at e) in
                subst (Good root m) (ok-injective _ r e') (go_down-Good m cd sub v)
          ]
        ]
      ]

  -- While the chain of a mirror leads from the root to its current directory, `fs_changedir`,
  -- whatever the name, leaves it so where it returns, and where it reports a failure it leaves the
  -- mirror as it was.
  pub fs_changedir-MirrorOk :
      (m : Mirror) (dirname : List ℕ) {res : Bool} {m' : Mirror}
      → MirrorOk root m
      → fs_changedir sd fuel root s m dirname ≡ ok (res, m')
      → MirrorOk root m' × (res ≡ false → m' ≡ m)
  unfolding fs_changedir
  fs_changedir-MirrorOk m dirname {res} {m'} v e =
      let ((res', directory, m''), done, e') =
        >>=-eq-ok (dirname_to_directory sd fuel root s m dirname true) _ e in
      subst (λ (x : Bool × Mirror). MirrorOk root x.1 × (x.0 ≡ false → x.1 ≡ m))
        (ok-injective _ (res, m') e') (dirname_to_directory-Good m dirname true v done)

  go_back :
      (m : Mirror) (d : PiDirent)
      → MirrorOk root m
      → fs_changedir sd fuel root s
          (record { cwd = d; here = d; parents = m.here ∷ m.parents })
          dir_up
        ≡ ok (true, m)
  unfolding fs_changedir dirname_to_directory strip_slash same_bytes go_up
  go_back m d v =
      ap (λ (x : PiDirent). ok (true, record { cwd = x; here = m.here; parents = m.parents }))
        (sym v.current)

  -- From a mirror whose chain leads from the root to its current directory, a step by a name, other
  -- than the special ones, that `fat32_stat` finds, and then `..`, both succeed and lead back to
  -- the mirror of before.
  pub fs_changedir-up_down :
      (m : Mirror) (c : ℕ) (cs : List ℕ) {d : PiDirent}
      → MirrorOk root m
      → same_bytes (strip_slash (c ∷ cs)) dir_home ≡ false
      → same_bytes (strip_slash (c ∷ cs)) dir_same ≡ false
      → same_bytes (strip_slash (c ∷ cs)) dir_up ≡ false
      → stat sd fuel s m.cwd (strip_slash (c ∷ cs)) ≡ ok (some d)
      → (m' : Mirror) × (fs_changedir sd fuel root s m (c ∷ cs) ≡ ok (true, m'))
        × (m'.cwd ≡ d)
        × (fs_changedir sd fuel root s m' dir_up ≡ ok (true, m))
  unfolding fs_changedir dirname_to_directory go_down go_up strip_slash
  fs_changedir-up_down m c cs {d} v home stay up found = (
    record { cwd = d; here = d; parents = m.here ∷ m.parents },
    rw (home, stay, up, found),
    refl,
    go_back m d v,
  )

  -- From a mirror whose chain leads from the root to its current directory, `~` leads to the mirror
  -- that `register_mirror` makes.
  pub fs_changedir-home :
      (m : Mirror)
      → MirrorOk root m
      → fs_changedir sd fuel root s m dir_home ≡ ok (true, register_mirror root)
  unfolding fs_changedir dirname_to_directory strip_slash same_bytes register_mirror
  fs_changedir-home m v =
      ap (λ (d : PiDirent). ok (true, record { cwd = root; here = d; parents = [] })) v.rooted
