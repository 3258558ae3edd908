-- ===== src/Fat32/Writing/Grow.antt =====
-- `write_cluster_chain` on a file with no cluster yet.
use dfs_pios_ro.Fat32.Writing.Extend.{
  fresh_walk, write_cluster_chain-fresh, extend_step-first_done, extend_step-first_more,
  extend_step-next, extend_loop-done, extend_loop-again, Chain-last_mark, read_cluster_chain-single,
}
use dfs_pios_ro.Fat32.Writing.Shrink.{Mounted-with_fat}
use dfs_pios_ro.Fat32.Writing.Fit.{Mounted-with_disk}
use dfs_pios_ro.Fat32.Clusters.Free.{find_free_cluster-ok, lt-length_of_some}
use dfs_pios_ro.Fat32.Writing.Store.{with_disk, IsCluster, write_one, SameOn}
use dfs_pios_ro.Fat32.Clusters.{find_free_cluster, read_cluster_chain}
use dfs_pios_ro.Fat32.Writing.{write_cluster_chain, last_mark}
use dfs_pios_ro.Fat32.Disk.{System, SdCard, with_fat, Reliable}
use dfs_pios_ro.Base.{
  suc, arith, List, true, ℕ, ◌<◌, ◌≡◌, false, ok, ◌≤◌, length, drop, set, leb, u32, ◌+◌, ◌*◌,
  length-set, ◌∷◌, [], take, ◌≢◌, ◌∙◌, le→leb, length-drop, leb-false_of_lt, ==-false_of_ne,
  length-take,
}
use dfs_pios_ro.Fat32.Clusters.Contents.{Mounted}
use dfs_pios_ro.Fat32.Clusters.Chain.{Chain}

module _ {W : Type 0} {sd : SdCard W} {capacity : ℕ} (r : Reliable sd capacity) (bytes : List ℕ)
    (nbytes k : ℕ) (s : System W) {f : ℕ} (m : Mounted capacity s)
    (free : find_free_cluster s.fs 3 ≡ ok f) where
  -- On a reliable card and a mounted file system, for data of at most one cluster and at least a
  -- byte, written to a file that has no cluster: `write_cluster_chain` takes the cluster that
  -- `find_free_cluster` returns, marks it as the last and returns it; `read_cluster_chain` then
  -- returns the data, and every other cluster keeps what it held.
  pub write_cluster_chain-one_new :
      0 < nbytes
      → nbytes ≤ 512 * s.fs.sectors_per_cluster
      → 512 * s.fs.sectors_per_cluster ≤ length bytes
      → (w : W) × (write_cluster_chain sd bytes nbytes (suc k) s 0
          ≡ ok (f, with_fat (with_disk s w) (set s.fs.fat f last_mark)))
        × (read_cluster_chain sd (suc k) (with_fat (with_disk s w) (set s.fs.fat f last_mark)) f
            ≡ ok (take (512 * s.fs.sectors_per_cluster) bytes, 512 * s.fs.sectors_per_cluster))
        × ((d : ℕ) → IsCluster s.fs d → f ≢ d → SameOn sd s.fs s.disk w d)
  write_cluster_chain-one_new pos one mem =
      let spc = s.fs.sectors_per_cluster in
      let (ge, (v, entry, is)) = find_free_cluster-ok s.fs 3 f free in
      let lt = lt-length_of_some s.fs.fat f entry in
      let (w, wr, reads, apart) =
        write_one r m f bytes (omega arith, omega (arith, m.entries)) mem in
      let stop : leb nbytes (u32 (0 + 512 * spc)) ≡ true =
        le→leb nbytes _ (omega (arith, m.small)) in
      (
        w,
        write_cluster_chain-fresh sd bytes nbytes k s pos (
            extend_loop-done sd bytes nbytes k (fresh_walk s)
              (extend_step-first_done sd bytes nbytes s free (omega arith) lt wr stop)),
        read_cluster_chain-single sd k (with_fat (with_disk s w) (set s.fs.fat f last_mark))
            (Chain-last_mark s.fs.fat f (omega arith) lt) m.ready m.small reads
            (omega (arith, length-take (512 * spc) bytes)),
        apart,
      )

  -- On a reliable card and a mounted file system, for data of two clusters written to a file that
  -- has none: the table entry of the first new cluster is still 0 when the second is sought, so the
  -- same cluster is found again. `write_cluster_chain` returns it with a table in which it is the
  -- only cluster of the file, and it reads back as the second half of the data.
  pub write_cluster_chain-two_new :
      512 * s.fs.sectors_per_cluster < nbytes
      → nbytes ≤ 2 * (512 * s.fs.sectors_per_cluster)
      → 2 * (512 * s.fs.sectors_per_cluster) ≤ length bytes
      → (s' : System W) × (write_cluster_chain sd bytes nbytes (suc (suc k)) s 0 ≡ ok (f, s'))
        × Chain s'.fs.fat f (f ∷ [])
        × (read_cluster_chain sd (suc k) s' f
            ≡ ok (
              take (512 * s.fs.sectors_per_cluster) (drop (512 * s.fs.sectors_per_cluster) bytes),
              512 * s.fs.sectors_per_cluster,
            ))
  write_cluster_chain-two_new more two mem =
      let spc = s.fs.sectors_per_cluster in
      let (ge, (v, entry, is)) = find_free_cluster-ok s.fs 3 f free in
      let lt = lt-length_of_some s.fs.fat f entry in
      let cl : IsCluster s.fs f = (omega arith, omega (arith, m.entries)) in
      let (w, wr, reads, apart) = write_one r m f bytes cl (omega arith) in
      let s' = with_disk s w in
      let m' = Mounted-with_fat f f (Mounted-with_disk w m) in
      let (w', wr', reads', apart') =
        write_one r m' f (drop (512 * spc) bytes) cl
          (rw (length-drop (512 * spc) bytes) (omega arith)) in
      let again : leb nbytes (u32 (0 + 512 * spc)) ≡ false =
        leb-false_of_lt nbytes _ (omega (arith, m.small)) in
      let stop : leb nbytes (u32 (512 * spc + 512 * spc)) ≡ true =
        le→leb nbytes _ (omega (arith, m.small)) in
      let wrapless : u32 (0 + 512 * spc) ≡ 512 * spc = omega (arith, m.small) in
      let s'' = with_fat (with_disk s w') (set (set s.fs.fat f f) f last_mark) in
      let whole : Chain s''.fs.fat f (f ∷ []) =
        Chain-last_mark (set s.fs.fat f f) f (omega arith)
          (omega (arith, length-set s.fs.fat f f)) in
      (
        s'',
        write_cluster_chain-fresh sd bytes nbytes (suc k) s (omega arith) (
            extend_loop-again sd bytes nbytes (suc k) (fresh_walk s)
              (extend_step-first_more sd bytes nbytes s free (omega arith) lt wr again wrapless)
            ∙ extend_loop-done sd bytes nbytes k _ (
                extend_step-next sd bytes nbytes s' f f (512 * spc)
                  (==-false_of_ne f 0 (ground arith)) lt free (omega arith) lt wr' stop)),
        whole,
        read_cluster_chain-single sd k s'' whole m.ready m.small reads' (
            omega (
              arith,
              length-take (512 * spc) (drop (512 * spc) bytes),
              length-drop (512 * spc) bytes,
            )),
      )
