-- ===== src/Fat32/Calls.antt =====
-- fat32/fs-apis.c: the calls by the name of a directory, on top of fat32.c. A mirror is a user's
-- view: a current directory, and the chain of directories that lead to it.
pub mod Chain
mod Tests
-- `fs_mirror_t` without its name and number: `chain->dir`, and the directories behind
-- `chain->parent`, the nearest first.
use dfs_pios_ro.Fat32.Names.{c_string}
use dfs_pios_ro.Fat32.Volume.{mbr_read, mk, decode_partition, part_tab}
use dfs_pios_ro.Fat32.Dirent.{same_bytes}
use dfs_pios_ro.Fat32.Files.{write, delete, read, create}
use dfs_pios_ro.Fat32.Disk.{SdCard, System, pi_sd_init}
use dfs_pios_ro.Fat32.Directory.{PiDirent, readdir, stat, get_root}
use dfs_pios_ro.Base.{
  Bool, List, ℕ, ◌∷◌, Option, [], false, Outcome, some, true, if◌then◌else◌, not, none, ok, ◌==◌,
  ◌>>=◌, ◌&&◌, take, ◌++◌, ltb, length, fault,
}

pub record Mirror : Type 0 where
  pub cwd : PiDirent
  pub here : PiDirent
  pub parents : List PiDirent

-- The name without a slash at its end.
unfoldable pub strip_slash : List ℕ → List ℕ
strip_slash [] = []
strip_slash (c ∷ []) = if c == b'/' then [] else c ∷ []
strip_slash (c ∷ d ∷ cs) = c ∷ strip_slash (d ∷ cs)

-- The end of the chain.
abbrev pub top : PiDirent → List PiDirent → PiDirent
top here [] = here
top here (p ∷ ps) = top p ps

abbrev pub dir_home : List ℕ
dir_home = b'~' ∷ []

abbrev pub dir_same : List ℕ
dir_same = b'.' ∷ []

abbrev pub dir_up : List ℕ
dir_up = b'.' ∷ b'.' ∷ []

-- `set_fat32_ready` has the result `first`; the result is the static `root`.
unfoldable pub fs_init :
    {W : Type 0} → SdCard W → Bool → System W → Outcome (Option PiDirent × System W)
fs_init sd first s = if not first then ok (none, s) else (do
  s' ← pi_sd_init sd s
  mbr ← mbr_read sd s'
  s'' ← mk sd s' (decode_partition (part_tab mbr 0))
  root ← get_root s''
  ok (some root, s''))

unfoldable pub register_mirror : PiDirent → Mirror
register_mirror root = record { cwd = root; here = root; parents = [] }

-- `cd` to `..`, with the parents given.
unfoldable pub go_up : Mirror → Bool → List PiDirent → Bool × PiDirent × Mirror
go_up m cd [] = (false, m.cwd, m)
go_up m cd (p ∷ ps) = (true, p, if cd then record { cwd = p; here = p; parents = ps } else m)

-- `cd` to what `fat32_stat` found.
unfoldable pub go_down : Mirror → Bool → Option PiDirent → Bool × PiDirent × Mirror
go_down m cd none = (false, m.cwd, m)
go_down m cd (some d) =
    (true, d, if cd then record { cwd = d; here = d; parents = m.here ∷ m.parents } else m)

module _ {W : Type 0} (sd : SdCard W) (fuel : ℕ) (root : PiDirent) where
  -- The result is `*res`, the directory, and the mirror.
  unfoldable pub dirname_to_directory :
      System W → Mirror → List ℕ → Bool → Outcome (Bool × PiDirent × Mirror)
  unfolding strip_slash go_up go_down
  dirname_to_directory s m [] cd = ok (true, m.cwd, m)
  dirname_to_directory s m (c ∷ cs) cd =
      let name = strip_slash (c ∷ cs) in
      if same_bytes name dir_home
      then ok (
        true,
        root,
        if cd then record { cwd = root; here = top m.here m.parents; parents = [] } else m,
      )
      else if same_bytes name dir_same
      then ok (true, m.cwd, m)
      else if same_bytes name dir_up
      then ok (go_up m cd m.parents)
      else (do sub ← stat sd fuel s m.cwd name; ok (go_down m cd sub))

  unfoldable pub fs_changedir : System W → Mirror → List ℕ → Outcome (Bool × Mirror)
  unfolding dirname_to_directory
  fs_changedir s m dirname = do
    (res, directory, m') ← dirname_to_directory s m dirname true
    ok (res, m')

  -- The entries in place of the text that shows them.
  unfoldable pub fs_listdir : System W → Mirror → List ℕ → Outcome (Bool × List PiDirent)
  unfolding dirname_to_directory
  fs_listdir s m dirname = do
    (res, directory, m') ← dirname_to_directory s m dirname false
    files ← readdir sd fuel s directory
    ok (res, files)

  unfoldable pub fs_create :
      System W → Mirror → List ℕ → List ℕ → Bool → Bool → Outcome (Bool × Mirror × System W)
  unfolding dirname_to_directory
  fs_create s m dirname filename is_dir cd = do
    (res, directory, m') ← dirname_to_directory s m dirname false
    if not res then ok (false, m', s) else (do
      (dirent, s') ← create sd fuel s directory filename is_dir
      elim dirent [
        | none ↦ ok (false, m', s')
        | some d ↦ ok (
          true,
          if cd && is_dir then record { cwd = d; here = d; parents = m'.here ∷ m'.parents } else m',
          s',
        )
      ])

  unfoldable pub fs_delete : System W → Mirror → List ℕ → List ℕ → Outcome (Bool × System W)
  unfolding dirname_to_directory
  fs_delete s m dirname filename = do
    (res, directory, m') ← dirname_to_directory s m dirname false
    if not res then ok (false, s) else delete sd fuel s directory filename

  -- The data, and `*nbytes`.
  unfoldable pub fs_read : System W → Mirror → List ℕ → List ℕ → Outcome (List ℕ × ℕ)
  unfolding dirname_to_directory
  fs_read s m dirname filename = do
    (res, directory, m') ← dirname_to_directory s m dirname false
    if not res
        then ok ([], 0)
        else (do file ← read sd fuel s directory filename; ok (file.bytes, file.n_data))

  -- `bytes` is the memory from `data` on.
  unfoldable pub fs_write :
      System W → Mirror → List ℕ → List ℕ → List ℕ → ℕ → Outcome (Bool × System W)
  unfolding dirname_to_directory
  fs_write s m dirname filename bytes nbytes = do
    (res, directory, m') ← dirname_to_directory s m dirname false
    if not res
        then ok (false, s)
        else write sd fuel s directory filename
            (record { bytes = bytes; n_alloc = nbytes; n_data = nbytes })

  -- `added` is the C string `data`; `spare` is what `kmalloc` leaves in the byte behind the new data, where
  -- `strlen` looks for the end if it has found none.
  unfoldable pub fs_append :
      System W → Mirror → List ℕ → List ℕ → List ℕ → ℕ → Outcome (Bool × System W)
  unfolding dirname_to_directory
  fs_append s m dirname filename added spare = do
    (res, directory, m') ← dirname_to_directory s m dirname false
    if not res then ok (false, s) else (do
      file ← read sd fuel s directory filename
      let text = take file.n_data file.bytes ++ added
      let new_data = if ltb 0 file.n_data then text ++ (spare ∷ []) else added ++ (0 ∷ [])
      let n = length (c_string new_data)
      if n == length new_data
          then fault
          else write sd fuel s directory filename
              (record { bytes = new_data; n_alloc = n; n_data = n }))
