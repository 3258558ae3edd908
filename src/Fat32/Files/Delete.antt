-- ===== src/Fat32/Files/Delete.antt =====
-- `fat32_delete` of a file that is there.
use dfs_pios_ro.Fat32.Writing.Fit.{Mounted-with_disk}
use dfs_pios_ro.Fat32.Writing.Shrink.{Mounted-clear}
use dfs_pios_ro.Fat32.Writing.Store.{IsCluster, SameOn, with_disk}
use dfs_pios_ro.Fat32.Clusters.Free.{clear, free_loop-clear, get_elem?-clear, Chain-lt-length}
use dfs_pios_ro.Fat32.Clusters.{free_loop, write_fat_to_disk}
use dfs_pios_ro.Fat32.Clusters.Chain.{Chain, has, Chain-ge_two}
use dfs_pios_ro.Fat32.Names.{is_valid_name, copy_at}
use dfs_pios_ro.Fat32.Files.Entry.{TableOnCard, write_dirent-ok, write_fat_to_disk-ok}
use dfs_pios_ro.Fat32.Clusters.Contents.{Mounted, lba_of}
use dfs_pios_ro.Fat32.Files.{delete, set_first}
use dfs_pios_ro.Fat32.Directory.{
  PiDirent, get_dirents, find_dirent_with_name, nth_cluster, write_dirent,
}
use dfs_pios_ro.Fat32.Disk.{SdCard, System, Reliable, with_fat}
use dfs_pios_ro.Fat32.Dirent.{start_cluster, Dirent, encode}
use dfs_pios_ro.Base.{
  ok, ℕ, List, ◌≡◌, true, some, get_elem?, if◌then◌else◌, length, ◌==◌, ◌≤◌, ◌/◌, ◌*◌, take, ◌%◌,
  ◌≢◌, ==-false_of_ne, arith, ◌∙◌,
}

module _ {W : Type 0} (sd : SdCard W) (fuel : ℕ) (s : System W) (directory : PiDirent)
    (filename : List ℕ) where
  delete-step :
      {ds : List Dirent} {i : ℕ} {old : Dirent} {freed entry stored : System W}
      → s.fat_ready ≡ true
      → is_valid_name filename ≡ true
      → get_dirents sd fuel s directory.cluster_id ≡ ok ds
      → find_dirent_with_name ds filename ≡ ok (some i)
      → get_elem? ds i ≡ some old
      → (if start_cluster (set_first old 0xe5) == 0
          then ok s
          else free_loop fuel s (start_cluster (set_first old 0xe5)))
        ≡ ok freed
      → write_dirent sd freed (set_first old 0xe5) directory i ≡ ok entry
      → write_fat_to_disk sd entry ≡ ok stored
      → delete sd fuel s directory filename ≡ ok (true, stored)
  unfolding delete
  delete-step ready v dirs found at fr en st = ground arith

-- On a reliable card and a mounted file system whose table lies in front of its clusters,
-- `fat32_delete` of a valid name whose first entry in the directory has a chain of clusters: with
-- as many rounds as clusters, it returns 1, sets the table entries of exactly those clusters to 0,
-- writes the 32 bytes of the entry back with the first byte 0xE5 in the cluster of the directory
-- that holds them, and leaves what every other cluster holds. The walk to that cluster of the
-- directory is taken in the new table.
pub delete-frees :
    {W : Type 0} {sd : SdCard W} {capacity : ℕ} (r : Reliable sd capacity) (fuel : ℕ) (s : System W)
    (directory : PiDirent) (filename : List ℕ) {ds : List Dirent} {i cl : ℕ} {old : Dirent}
    {cs : List ℕ}
    → Mounted capacity s
    → TableOnCard s
    → s.fat_ready ≡ true
    → is_valid_name filename ≡ true
    → get_dirents sd fuel s directory.cluster_id ≡ ok ds
    → find_dirent_with_name ds filename ≡ ok (some i)
    → get_elem? ds i ≡ some old
    → Chain s.fs.fat (start_cluster old) cs
    → length cs ≤ fuel
    → nth_cluster
        (with_fat s (clear s.fs.fat cs))
        (i / (16 * s.fs.sectors_per_cluster))
        directory.cluster_id
      ≡ ok cl
    → IsCluster s.fs cl
    → (s' : System W) × (before : List ℕ) × (delete sd fuel s directory filename ≡ ok (true, s'))
      × ((c : ℕ) → get_elem? s'.fs.fat c ≡ (if has c cs then some 0 else get_elem? s.fs.fat c))
      × (sd.readblock s.disk (lba_of s.fs cl) s.fs.sectors_per_cluster ≡ some before)
      × (sd.readblock s'.disk (lba_of s.fs cl) s.fs.sectors_per_cluster
          ≡ some (
              take (512 * s.fs.sectors_per_cluster) (
                copy_at before
                  (32 * (i % (16 * s.fs.sectors_per_cluster)))
                  (encode (set_first old 0xe5)))))
      × ((c : ℕ) → IsCluster s.fs c → cl ≢ c → SameOn sd s.fs s.disk s'.disk c)
unfolding start_cluster
delete-frees {sd} r fuel s directory filename {i} {cl} {old} {cs} m t ready v dirs found at ch le
      place is =
    let freed = with_fat s (clear s.fs.fat cs) in
    let mf = Mounted-clear cs m in
    let (w, before, en, reads, back, apart) =
      write_dirent-ok r mf (set_first old 0xe5) directory i place is in
    let me = Mounted-with_disk w mf in
    let (w', st, same) = write_fat_to_disk-ok r me (record { in_front = t.in_front }) in
    (
      with_disk freed w',
      before,
      delete-step sd fuel s directory filename ready v dirs found at
          (rw (==-false_of_ne (start_cluster old) 0 (ground (arith, Chain-ge_two ch)))
            (free_loop-clear fuel s ch le))
          en st,
      λ c. ground (arith, get_elem?-clear cs s.fs.fat c, Chain-lt-length c ch),
      reads,
      same cl is ∙ back,
      λ c is' ne. same c is' ∙ apart c is' ne,
    )
