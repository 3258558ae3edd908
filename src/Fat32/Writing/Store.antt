-- ===== src/Fat32/Writing/Store.antt =====
-- One write to a cluster, and the clusters that it leaves.
use dfs_pios_ro.Base.{arith, ℕ, ◌≤◌, ◌≡◌, ◌<◌, List, ◌*◌, length, ok, some, take, ◌≢◌}
use dfs_pios_ro.Fat32.Disk.{SdCard, Reliable, Fs, System, pi_sd_write}
use dfs_pios_ro.Fat32.Clusters.Contents.{lba_of, Mounted, lba_of-le, lba_of-apart}

abbrev pub with_disk : {W : Type 0} → System W → W → System W
with_disk s w = record s { disk = w }

-- The cluster `d` reads alike on the cards `w` and `w'`.
abbrev pub SameOn : {W : Type 0} → SdCard W → Fs → W → W → ℕ → Type 0
SameOn sd f w w' d =
    sd.readblock w' (lba_of f d) f.sectors_per_cluster
    ≡ sd.readblock w (lba_of f d) f.sectors_per_cluster

-- `d` is the number of a cluster with an entry in the table.
abbrev pub IsCluster : Fs → ℕ → Type 0
IsCluster f d = (2 ≤ d) × (d < f.n_entries)

module _ {W : Type 0} {sd : SdCard W} {capacity : ℕ} (r : Reliable sd capacity) {s : System W}
    (m : Mounted capacity s) where
  pub write_one :
      (c : ℕ) (bytes : List ℕ)
      → IsCluster s.fs c
      → 512 * s.fs.sectors_per_cluster ≤ length bytes
      → (w : W) × (pi_sd_write sd s bytes (lba_of s.fs c) s.fs.sectors_per_cluster
          ≡ ok (with_disk s w))
        × (sd.readblock w (lba_of s.fs c) s.fs.sectors_per_cluster
            ≡ some (take (512 * s.fs.sectors_per_cluster) bytes))
        × ((d : ℕ) → IsCluster s.fs d → c ≢ d → SameOn sd s.fs s.disk w d)
  unfolding pi_sd_write
  write_one c bytes (lo, hi) enough =
      let spc = s.fs.sectors_per_cluster in
      let (w, done, reads) =
        r.write_ok s.disk bytes (lba_of s.fs c) spc (omega (arith, lba_of-le m c lo hi)) enough in
      (
        w,
        ground (arith, m.ready, done),
        reads,
        λ d (ld, hd) ne.
            r.write_apart s.disk w bytes (lba_of s.fs c) spc (lba_of s.fs d) spc done
              (lba_of-apart m c d lo hi ld hd ne),
      )
