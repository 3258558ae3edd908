-- ===== src/Fat32/Directory.antt =====
-- fat32/fat32.c and fat32/pi-files.h: directories. Reading one, finding a name in it, and writing
-- one entry back.
pub mod Find
mod Tests
use dfs_pios_ro.Fat32.Names.{matches, copy_at}
use dfs_pios_ro.Fat32.Clusters.{get_cluster_chain_length, read_cluster_chain, cluster_to_lba}
use dfs_pios_ro.Fat32.Dirent.{Dirent, byte_at, dirent_name, start_cluster, decode_all, encode}
use dfs_pios_ro.Fat32.Disk.{SdCard, System, fat_at, pi_sec_read, pi_sd_write}
use dfs_pios_ro.Base.{
  ok, List, ℕ, Bool, Outcome, u32, suc, ◌>>=◌, Option, ◌∷◌, ◌>>◌, if◌then◌else◌, none, ◌==◌, assert,
  ◌*◌, zero, ◌+◌, ◌||◌, ◌/◌, some, [], true, elem_at, ltb, not, ◌%◌,
}

-- `pi_dirent_t`.
pub record PiDirent : Type 0 where
  pub name : List ℕ
  pub raw_name : List ℕ
  pub cluster_id : ℕ
  pub is_dir_p : Bool
  pub nbytes : ℕ

-- `dirent_convert`.
unfoldable pub dirent_convert : Dirent → Outcome PiDirent
dirent_convert d = do
  name ← dirent_name d
  ok (record {
    name = name;
    raw_name = d.filename;
    cluster_id = start_cluster d;
    is_dir_p = not (d.attr / 16 % 2 == 0);
    nbytes = d.file_nbytes;
  })

-- The entries that `fat32_readdir` and `find_dirent_with_name` pass over.
unfoldable pub skipped : Dirent → Bool
skipped d = (byte_at d.filename 0 == 0) || ((byte_at d.filename 0 == 0xe5) || ltb 0 (d.attr % 16))

-- `find_dirent_with_name` from index `i` on; `none` is -1.
unfoldable pub find_from : ℕ → List Dirent → List ℕ → Outcome (Option ℕ)
unfolding skipped
find_from i [] filename = ok none
find_from i (d ∷ ds) filename =
    let rest = find_from (i + 1) ds filename in
    if skipped d
    then rest
    else (do tmp ← dirent_name d; if matches tmp filename then ok (some i) else rest)

unfoldable pub find_dirent_with_name : List Dirent → List ℕ → Outcome (Option ℕ)
unfolding find_from
find_dirent_with_name ds filename = find_from 0 ds filename

-- The loop of `fat32_readdir`.
unfoldable pub convert_all : List Dirent → Outcome (List PiDirent)
unfolding skipped
convert_all [] = ok []
convert_all (d ∷ ds) =
    let rest = convert_all ds in
    if skipped d then rest else (do e ← dirent_convert d; es ← rest; ok (e ∷ es))

unfoldable pub get_root : {W : Type 0} → System W → Outcome PiDirent
get_root s = do
  assert s.fat_ready
  ok (record {
    name = [];
    raw_name = [];
    cluster_id = s.fs.root_dir_first_cluster;
    is_dir_p = true;
    nbytes = 0;
  })

-- The walk of `fat32_write_dirent` and `fat32_write` along `n` entries of the table.
unfoldable pub nth_cluster : {W : Type 0} → System W → ℕ → ℕ → Outcome ℕ
nth_cluster s zero cluster = ok cluster
nth_cluster s (suc n) cluster = do next ← fat_at s cluster; nth_cluster s n next

module _ {W : Type 0} (sd : SdCard W) (fuel : ℕ) where
  unfoldable pub get_dirents : System W → ℕ → Outcome (List Dirent)
  get_dirents s cluster_start = do
    length ← get_cluster_chain_length fuel s.fs.fat cluster_start
    (bytes, nbytes) ← read_cluster_chain sd fuel s cluster_start
    ok (decode_all (nbytes / 32) bytes)

  unfoldable pub readdir : System W → PiDirent → Outcome (List PiDirent)
  readdir s dirent = do
    assert s.fat_ready
    assert dirent.is_dir_p
    dirents ← get_dirents s dirent.cluster_id
    convert_all dirents

  unfoldable pub stat : System W → PiDirent → List ℕ → Outcome (Option PiDirent)
  stat s directory filename = do
    assert s.fat_ready
    assert directory.is_dir_p
    dirents ← get_dirents s directory.cluster_id
    idx ← find_dirent_with_name dirents filename
    elim idx [
      | none ↦ ok none
      | some i ↦ (do d ← elem_at dirents i; e ← dirent_convert d; ok (some e))
    ]

module _ {W : Type 0} (sd : SdCard W) where
  -- `fat32_write_dirent`, and the write of the entry in `fat32_write`: the cluster that holds entry
  -- `idx` is read, the 32 bytes of the entry are replaced, and it is written back.
  unfoldable pub write_dirent : System W → Dirent → PiDirent → ℕ → Outcome (System W)
  write_dirent s dirent directory idx = do
    let per_cluster = u32 (s.fs.sectors_per_cluster * 16)
    cluster ← nth_cluster s (idx / per_cluster) directory.cluster_id
    let slot = idx % per_cluster
    lba ← cluster_to_lba s.fs cluster
    bytes ← pi_sec_read sd s lba s.fs.sectors_per_cluster
    pi_sd_write sd s (copy_at bytes (32 * slot) (encode dirent)) lba s.fs.sectors_per_cluster
