-- ===== src/Fat32/Files.antt =====
-- fat32/fat32.c: the calls on files. Each takes the directory by its `pi_dirent_t` and the files by
-- name, and returns what the C function returns beside the new state.
pub mod Entry
pub mod Delete
mod Tests
use dfs_pios_ro.Fat32.Writing.{last_mark, write_cluster_chain}
use dfs_pios_ro.Fat32.Names.{is_valid_name}
use dfs_pios_ro.Fat32.Entry.{fat_entry_type, is_free, is_last}
use dfs_pios_ro.Fat32.Clusters.{
  find_free_cluster, get_cluster_chain_length, cluster_to_lba, write_fat_to_disk, free_loop,
  read_cluster_chain,
}
use dfs_pios_ro.Fat32.Directory.{
  PiDirent, stat, nth_cluster, get_dirents, find_dirent_with_name, dirent_convert, write_dirent,
}
use dfs_pios_ro.Fat32.Dirent.{
  Dirent, set_start, attr_archive, byte_at, start_cluster, decode, dirent_name, dirent_set_name,
  attr_dir, same_bytes,
}
use dfs_pios_ro.Fat32.Disk.{System, SdCard, fat_at, set_fat, pi_sec_read, pi_sd_write}
use dfs_pios_ro.Base.{
  ok, ℕ, List, Bool, Outcome, set, ◌*◌, suc, Option, ◌∷◌, ◌>>◌, fault, ◌>>=◌, assert, ◌+◌,
  if◌then◌else◌, ◌/◌, not, elem_at, ◌==◌, false, ◌||◌, none, some, u32, zero, ◌%◌, ltb, ◌-◌, drop,
  [], true, replicate, ◌^◌, panic, length,
}

-- `pi_file_t`; a null `data` pointer is the empty list.
pub record PiFile : Type 0 where
  pub bytes : List ℕ
  pub n_alloc : ℕ
  pub n_data : ℕ

-- The loop of `fat32_read` over the entries from index `i` on: the index of the first that has the
-- name, and 0 where none has.
unfoldable pub read_index : ℕ → List Dirent → List ℕ → Outcome ℕ
read_index i [] filename = ok 0
read_index i (d ∷ ds) filename =
    let rest = read_index (i + 1) ds filename in
    if (byte_at d.filename 0 == 0)
      || ((byte_at d.filename 0 == 0xe5) || ((d.attr % 16 == 0x0f) || not (d.attr / 8 % 2 == 0)))
    then rest
    else (do tmp ← dirent_name d; if same_bytes tmp filename then ok i else rest)

-- The search of `fat32_create` for a place, from index `i` on of `n` entries: the index, and
-- whether the entry behind it becomes the new end. Past the last entry the code would write behind
-- its array.
unfoldable pub find_slot : ℕ → ℕ → List Dirent → Outcome (ℕ × Bool)
find_slot n i [] = fault
find_slot n i (d ∷ ds) =
    let rest = find_slot n (i + 1) ds in
    if byte_at d.filename 0 == 0xe5
    then ok (i, false)
    else if byte_at d.filename 0 == 0
    then (if ltb i (n - 1) then ok (i, true) else panic)
    else rest

-- `filename[0] = c`.
abbrev pub set_first : Dirent → ℕ → Dirent
set_first d c = record d { filename = set d.filename 0 c }

-- The loop of `fat32_write` that checks the chain of the file: `left` clusters to go.
unfoldable pub verify_chain : {W : Type 0} → System W → ℕ → ℕ → Outcome (Unit {0})
verify_chain s zero cluster = ok tt
verify_chain s (suc left) cluster = do
  entry ← fat_at s cluster
  type ← fat_entry_type entry
  assert (not (is_free type))
  assert (if left == 0 then is_last type else not (is_last type))
  verify_chain s left entry

module _ {W : Type 0} (sd : SdCard W) (fuel : ℕ) where
  unfoldable pub read : System W → PiDirent → List ℕ → Outcome PiFile
  read s directory filename = do
    assert s.fat_ready
    assert directory.is_dir_p
    dirents ← get_dirents sd fuel s directory.cluster_id
    idx ← read_index 0 dirents filename
    d ← elem_at dirents idx
    length ← get_cluster_chain_length fuel s.fs.fat (start_cluster d)
    let nbytes_alloc = u32 (s.fs.sectors_per_cluster * 512 * length)
    if nbytes_alloc == 0 then ok (record { bytes = []; n_alloc = 0; n_data = 0 }) else (do
      (bytes, nbytes) ← read_cluster_chain sd fuel s (start_cluster d)
      ok (record { bytes = bytes; n_alloc = nbytes_alloc; n_data = d.file_nbytes }))

  -- The part of `fat32_create` behind `if (is_dir)`: the entry and the state with the new cluster
  -- marked, the table on the card, and the cluster cleared.
  unfoldable pub fill_new : System W → Dirent → Bool → Outcome (Dirent × System W)
  fill_new s d false = ok (record (set_start d 0) { attr = attr_archive; file_nbytes = 0 }, s)
  fill_new s d true = do
    cluster ← find_free_cluster s.fs 3
    s' ← set_fat s cluster last_mark
    s'' ← write_fat_to_disk sd s'
    lba ← cluster_to_lba s''.fs cluster
    old ← pi_sec_read sd s'' lba s''.fs.sectors_per_cluster
    s''' ←
        pi_sd_write sd s'' (replicate (s''.fs.sectors_per_cluster * 512) 0) lba
          s''.fs.sectors_per_cluster
    ok (record (set_start d cluster) { attr = attr_dir; file_nbytes = 4096 }, s''')

  unfoldable pub create : System W → PiDirent → List ℕ → Bool → Outcome (Option PiDirent × System W)
  unfolding fill_new
  create s directory filename is_dir = do
    assert s.fat_ready
    if not (is_valid_name filename) then ok (none, s) else (do
      dirents ← get_dirents sd fuel s directory.cluster_id
      idx ← find_dirent_with_name dirents filename
      elim idx [
        | some i ↦ (do d ← elem_at dirents i; e ← dirent_convert d; ok (some e, s))
        | none ↦ (do
          (slot, new_end) ← find_slot (length dirents) 0 dirents
          old ← elem_at dirents slot
          named ← dirent_set_name old filename
          (d, s') ← fill_new s named is_dir
          s'' ← write_dirent sd s' d directory slot
          s''' ←
              (if new_end
                then (do
                  behind ← elem_at dirents (slot + 1)
                  write_dirent sd s'' (set_first behind 0) directory (slot + 1))
                else ok s'')
          e ← dirent_convert d
          ok (some e, s'''))
      ])

  -- The result says whether the file was there.
  unfoldable pub delete : System W → PiDirent → List ℕ → Outcome (Bool × System W)
  delete s directory filename = do
    assert s.fat_ready
    if not (is_valid_name filename) then ok (false, s) else (do
      dirents ← get_dirents sd fuel s directory.cluster_id
      idx ← find_dirent_with_name dirents filename
      elim idx [
        | none ↦ ok (false, s)
        | some i ↦ (do
          old ← elem_at dirents i
          let d = set_first old 0xe5
          s' ← (if start_cluster d == 0 then ok s else free_loop fuel s (start_cluster d))
          s'' ← write_dirent sd s' d directory i
          s''' ← write_fat_to_disk sd s''
          ok (true, s'''))
      ])

  unfoldable pub rename : System W → PiDirent → List ℕ → List ℕ → Outcome (Bool × System W)
  unfolding delete
  rename s directory oldname newname = do
    assert s.fat_ready
    if not (is_valid_name newname) then ok (false, s) else (do
      dirents ← get_dirents sd fuel s directory.cluster_id
      idx ← find_dirent_with_name dirents oldname
      elim idx [
        | none ↦ ok (false, s)
        | some i ↦ (do
          new_idx ← find_dirent_with_name dirents newname
          s' ← elim new_idx [
            | none ↦ ok s
            | some j ↦ (do (gone, t) ← delete s directory newname; ok t)
          ]
          old ← elem_at dirents i
          d ← dirent_set_name old newname
          s'' ← write_dirent sd s' d directory i
          ok (true, s''))
      ])

  -- The checks of `fat32_write` behind `verify_write`: the entry is read back, and the chain is
  -- walked.
  unfoldable pub verify_write : System W → Dirent → PiDirent → ℕ → PiFile → ℕ → Outcome (Unit {0})
  unfolding verify_chain
  verify_write s d directory idx file start = do
    let per_cluster = 16 * s.fs.sectors_per_cluster
    cluster ← nth_cluster s (idx / per_cluster) directory.cluster_id
    lba ← cluster_to_lba s.fs cluster
    bytes ← pi_sec_read sd s lba s.fs.sectors_per_cluster
    let back = decode (drop (32 * (idx % per_cluster)) bytes)
    assert (back.access_date == d.access_date)
    assert (back.attr == d.attr)
    assert (back.file_nbytes == file.n_data)
    assert (back.lo_start == start % 2 ^ 16)
    assert (back.hi_start == start / 2 ^ 16 % 2 ^ 16)
    let size = u32 (s.fs.sectors_per_cluster * 512)
    let clusters = u32 (file.n_alloc + size - 1) / size
    if ltb 0 file.n_alloc then verify_chain s clusters start else assert (start == 0)

  unfoldable pub write : System W → PiDirent → List ℕ → PiFile → Outcome (Bool × System W)
  unfolding verify_write
  write s directory filename file = do
    assert s.fat_ready
    assert directory.is_dir_p
    dirents ← get_dirents sd fuel s directory.cluster_id
    idx ← find_dirent_with_name dirents filename
    elim idx [
      | none ↦ ok (false, s)
      | some i ↦ (do
        old ← elem_at dirents i
        (start, s') ← write_cluster_chain sd file.bytes file.n_alloc fuel s (start_cluster old)
        let d = record (set_start old start) { file_nbytes = file.n_data }
        s'' ← write_dirent sd s' d directory i
        s''' ← write_fat_to_disk sd s''
        checked ← verify_write s''' d directory i file start
        ok (true, s'''))
    ]

  unfoldable pub truncate : System W → PiDirent → List ℕ → ℕ → Outcome (Bool × System W)
  unfolding read create delete write
  truncate s directory filename size = do
    assert s.fat_ready
    there ← stat sd fuel s directory filename
    elim there [
      | none ↦ ok (false, s)
      | some e ↦ (do
        file ← read s directory filename
        let file' =
            if ltb size file.n_data
            then record file { n_data = size; n_alloc = size }
            else if ltb file.n_data size
            then record file { n_alloc = size }
            else file
        (gone, s') ← delete s directory filename
        assert gone
        (made, s'') ← create s' directory filename false
        assert (elim made [ none ↦ false | some _ ↦ true ])
        (written, s''') ← write s'' directory filename file'
        assert written
        ok (true, s'''))
    ]
