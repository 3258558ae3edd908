-- ===== src/Fat32/Files/Entry.antt =====
-- `fat32_write_dirent` and `write_fat_to_disk` on a mounted file system.
use dfs_pios_ro.Fat32.Dirent.{Dirent, encode}
use dfs_pios_ro.Fat32.Writing.Store.{with_disk, IsCluster, SameOn, write_one}
use dfs_pios_ro.Fat32.Directory.{write_dirent, PiDirent, nth_cluster}
use dfs_pios_ro.Fat32.Names.{copy_at}
use dfs_pios_ro.Fat32.Clusters.Contents.{Mounted, lba_of, lba_of-le, cluster_to_lba-eq}
use dfs_pios_ro.Fat32.Disk.{SdCard, Reliable, System, pi_sec_read, pi_sd_write}
use dfs_pios_ro.Fat32.Clusters.{word_bytes, write_fat_to_disk, cluster_to_lba}
use dfs_pios_ro.Base.{
  ok, List, ℕ, length, ◌≡◌, ◌≤◌, ◌*◌, arith, ◌∷◌, ◌+◌, ◌/◌, [], length-append, refl, take, ◌++◌,
  drop, length-take, inl, some, length-drop, ◌%◌, ◌≢◌, u32, Outcome, true,
}

pub length-copy_at :
    (dst : List ℕ) (off : ℕ) (src : List ℕ) → length dst ≤ length (copy_at dst off src)
length-copy_at dst off src = omega (
  arith,
  length-append (take off dst) (src ++ drop (off + length src) dst),
  length-append src (drop (off + length src) dst),
  length-take off dst,
  length-drop (off + length src) dst,
)

pub length-word_bytes : (ws : List ℕ) → length (word_bytes ws) ≡ 4 * length ws
unfolding word_bytes
length-word_bytes [] = refl
length-word_bytes (w ∷ ws) = omega (arith, length-word_bytes ws)

module _ {W : Type 0} (sd : SdCard W) (s : System W) where
  pi_sec_read-ok :
      (lba n : ℕ) {b : List ℕ}
      → s.sd_ready ≡ true
      → sd.readblock s.disk lba n ≡ some b
      → pi_sec_read sd s lba n ≡ ok b
  unfolding pi_sec_read
  pi_sec_read-ok lba n ready reads = ground arith

  write_dirent-step :
      (d : Dirent) (directory : PiDirent) (idx per_cluster lba : ℕ) {cl : ℕ} {old : List ℕ}
      {done : Outcome (System W)}
      → u32 (s.fs.sectors_per_cluster * 16) ≡ per_cluster
      → nth_cluster s (idx / per_cluster) directory.cluster_id ≡ ok cl
      → cluster_to_lba s.fs cl ≡ ok lba
      → pi_sec_read sd s lba s.fs.sectors_per_cluster ≡ ok old
      → pi_sd_write sd s
          (copy_at old (32 * (idx % per_cluster)) (encode d))
          lba
          s.fs.sectors_per_cluster
        ≡ done
      → write_dirent sd s d directory idx ≡ done
  unfolding write_dirent
  write_dirent-step d directory idx per_cluster lba size at place reads wr =
      rw (size, at, place, reads) wr

-- The table lies on the card in front of the clusters.
pub record TableOnCard {W : Type 0} (s : System W) : Type 0 where
  pub in_front : s.fs.fat_begin_lba + s.fs.n_entries / 128 ≤ s.fs.cluster_begin_lba

module _ {W : Type 0} {sd : SdCard W} {capacity : ℕ} (r : Reliable sd capacity) {s : System W}
    (m : Mounted capacity s) where
  -- On a reliable card and a mounted file system, where the walk along the directory ends at a
  -- cluster of the table: `fat32_write_dirent` replaces the 32 bytes of entry `idx` in that cluster
  -- by those of `d`, leaves its other bytes, every other cluster and the table in memory, and
  -- returns.
  pub write_dirent-ok :
      (d : Dirent) (directory : PiDirent) (idx : ℕ) {cl : ℕ}
      → nth_cluster s (idx / (16 * s.fs.sectors_per_cluster)) directory.cluster_id ≡ ok cl
      → IsCluster s.fs cl
      → (w : W) × (old : List ℕ) × (write_dirent sd s d directory idx ≡ ok (with_disk s w))
        × (sd.readblock s.disk (lba_of s.fs cl) s.fs.sectors_per_cluster ≡ some old)
        × (sd.readblock w (lba_of s.fs cl) s.fs.sectors_per_cluster
            ≡ some (
                take
                  (512 * s.fs.sectors_per_cluster)
                  (copy_at old (32 * (idx % (16 * s.fs.sectors_per_cluster))) (encode d))))
        × ((c : ℕ) → IsCluster s.fs c → cl ≢ c → SameOn sd s.fs s.disk w c)
  write_dirent-ok d directory idx {cl} at is =
      let spc = s.fs.sectors_per_cluster in
      let (old, reads, len) =
        r.read_ok s.disk (lba_of s.fs cl) spc (omega (arith, lba_of-le m cl is.0 is.1)) in
      let bytes = copy_at old (32 * (idx % (16 * spc))) (encode d) in
      let (w, wr, back, apart) =
        write_one r m cl bytes is
          (omega (arith, length-copy_at old (32 * (idx % (16 * spc))) (encode d))) in
      let size : u32 (spc * 16) ≡ 16 * spc = omega (arith, m.small) in
      (
        w,
        old,
        write_dirent-step sd s d directory idx (16 * spc) (lba_of s.fs cl) size at
            (cluster_to_lba-eq s.fs cl is.0)
            (pi_sec_read-ok sd s (lba_of s.fs cl) spc m.ready reads) wr,
        reads,
        back,
        apart,
      )

  pub write_fat_to_disk-ok :
      TableOnCard s
      → (w : W) × (write_fat_to_disk sd s ≡ ok (with_disk s w))
        × ((c : ℕ) → IsCluster s.fs c → SameOn sd s.fs s.disk w c)
  unfolding write_fat_to_disk pi_sd_write
  write_fat_to_disk-ok t =
      let spc = s.fs.sectors_per_cluster in
      let bytes = word_bytes s.fs.fat in
      let (w, done, back) =
        r.write_ok s.disk bytes s.fs.fat_begin_lba (s.fs.n_entries / 128)
          (omega (arith, t.in_front, m.on_card))
          (omega (arith, length-word_bytes s.fs.fat, m.entries)) in
      (
        w,
        ground (arith, m.ready, done),
        λ c is.
            r.write_apart s.disk w bytes s.fs.fat_begin_lba (s.fs.n_entries / 128) (lba_of s.fs c)
              spc done (inl (omega (arith, t.in_front, lba_of-le m c is.0 is.1))),
      )
