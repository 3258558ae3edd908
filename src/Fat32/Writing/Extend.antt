-- ===== src/Fat32/Writing/Extend.antt =====
-- fat32/fat32.c: the rounds of the second loop of write_cluster_chain, on a file with no cluster yet.
use dfs_pios_ro.Fat32.Writing.Fit.{contents-read}
use dfs_pios_ro.Fat32.Entry.{fat_entry_type, last_cluster}
use dfs_pios_ro.Fat32.Writing.Store.{with_disk}
use dfs_pios_ro.Fat32.Clusters.{get_cluster_chain_length, find_free_cluster, read_cluster_chain}
use dfs_pios_ro.Fat32.Writing.{Walked, extend_step, write_cluster_chain, extend_loop, last_mark}
use dfs_pios_ro.Fat32.Disk.{System, SdCard, set_fat, pi_sd_write, with_fat}
use dfs_pios_ro.Base.{
  suc, refl, arith, List, true, ℕ, ◌<◌, ◌==◌, ◌≡◌, false, ok, ◌≤◌, length, lt→ltb, drop, set,
  if◌then◌else◌, leb, u32, ◌+◌, ◌*◌, length-set, ◌∷◌, [], some, get_elem?-set_self, ◌∙◌, append-nil,
  ap,
}
use dfs_pios_ro.Fat32.Clusters.Contents.{lba_of, cluster_to_lba-eq, read_cluster_chain-contents}
use dfs_pios_ro.Fat32.Clusters.Chain.{Chain, end}

-- The variables with which the second loop starts where the file has no cluster.
abbrev pub fresh_walk : {W : Type 0} → System W → Walked W
fresh_walk s = record { cluster = 0; start = 0; data_index = 0; more = true; sys = s }

module _ {W : Type 0} (sd : SdCard W) (bytes : List ℕ) (nbytes : ℕ) where
  pub write_cluster_chain-fresh :
      (k : ℕ) (s : System W) {v : Walked W}
      → 0 < nbytes
      → extend_loop sd bytes nbytes (suc k) (fresh_walk s) ≡ ok v
      → write_cluster_chain sd bytes nbytes (suc k) s 0 ≡ ok (v.start, v.sys)
  unfolding write_cluster_chain get_cluster_chain_length
  write_cluster_chain-fresh k s pos e = rw (lt→ltb 0 nbytes pos, e)

  -- One round that takes the free cluster `f` as the first of the file.
  pub extend_step-first :
      (s : System W) {f : ℕ} {w : W}
      → find_free_cluster s.fs 3 ≡ ok f
      → 2 ≤ f
      → f < length s.fs.fat
      → pi_sd_write sd s (drop 0 bytes) (lba_of s.fs f) s.fs.sectors_per_cluster
        ≡ ok (with_disk s w)
      → extend_step sd bytes nbytes (fresh_walk s) ≡ (
          if leb nbytes (u32 (0 + 512 * s.fs.sectors_per_cluster))
          then ok (
            true,
            record {
              cluster = f;
              start = f;
              data_index = u32 (0 + 512 * s.fs.sectors_per_cluster);
              more = true;
              sys = with_fat (with_disk s w) (set s.fs.fat f last_mark);
            },
          )
          else ok (
            false,
            record {
              cluster = f;
              start = f;
              data_index = u32 (0 + 512 * s.fs.sectors_per_cluster);
              more = true;
              sys = with_disk s w;
            },
          ))
  unfolding extend_step set_fat
  extend_step-first s {f} free lo hi wr =
      rw (free, cluster_to_lba-eq s.fs f lo, wr, lt→ltb f (length s.fs.fat) hi)

  pub extend_step-first_done :
      (s : System W) {f : ℕ} {w : W}
      → find_free_cluster s.fs 3 ≡ ok f
      → 2 ≤ f
      → f < length s.fs.fat
      → pi_sd_write sd s (drop 0 bytes) (lba_of s.fs f) s.fs.sectors_per_cluster
        ≡ ok (with_disk s w)
      → leb nbytes (u32 (0 + 512 * s.fs.sectors_per_cluster)) ≡ true
      → extend_step sd bytes nbytes (fresh_walk s)
        ≡ ok (
          true,
          record {
            cluster = f;
            start = f;
            data_index = u32 (0 + 512 * s.fs.sectors_per_cluster);
            more = true;
            sys = with_fat (with_disk s w) (set s.fs.fat f last_mark);
          },
        )
  extend_step-first_done s free lo hi wr stop = extend_step-first s free lo hi wr ∙ rw stop

  pub extend_step-first_more :
      (s : System W) {f : ℕ} {w : W}
      → find_free_cluster s.fs 3 ≡ ok f
      → 2 ≤ f
      → f < length s.fs.fat
      → pi_sd_write sd s (drop 0 bytes) (lba_of s.fs f) s.fs.sectors_per_cluster
        ≡ ok (with_disk s w)
      → leb nbytes (u32 (0 + 512 * s.fs.sectors_per_cluster)) ≡ false
      → u32 (0 + 512 * s.fs.sectors_per_cluster) ≡ 512 * s.fs.sectors_per_cluster
      → extend_step sd bytes nbytes (fresh_walk s)
        ≡ ok (
          false,
          record {
            cluster = f;
            start = f;
            data_index = 512 * s.fs.sectors_per_cluster;
            more = true;
            sys = with_disk s w;
          },
        )
  extend_step-first_more s free lo hi wr again wrapless =
      extend_step-first s free lo hi wr ∙ rw (again, wrapless)

  -- One round behind the cluster `c` of a file that starts at `a`.
  pub extend_step-next :
      (s : System W) (a c index : ℕ) {f : ℕ} {w : W}
      → (a == 0) ≡ false
      → c < length s.fs.fat
      → find_free_cluster s.fs 3 ≡ ok f
      → 2 ≤ f
      → f < length s.fs.fat
      → pi_sd_write sd
          (with_fat s (set s.fs.fat c f))
          (drop index bytes)
          (lba_of s.fs f)
          s.fs.sectors_per_cluster
        ≡ ok (with_disk (with_fat s (set s.fs.fat c f)) w)
      → leb nbytes (u32 (index + 512 * s.fs.sectors_per_cluster)) ≡ true
      → extend_step sd bytes nbytes
          (record { cluster = c; start = a; data_index = index; more = true; sys = s })
        ≡ ok (
          true,
          record {
            cluster = f;
            start = a;
            data_index = u32 (index + 512 * s.fs.sectors_per_cluster);
            more = true;
            sys = with_fat (with_disk s w) (set (set s.fs.fat c f) f last_mark);
          },
        )
  unfolding extend_step set_fat
  extend_step-next s a c index {f} ne hc free lo hi wr enough = rw (
    free,
    cluster_to_lba-eq s.fs f lo,
    ne,
    lt→ltb c (length s.fs.fat) hc,
    wr,
    enough,
    length-set s.fs.fat c f,
    lt→ltb f (length s.fs.fat) hi,
  )

  pub extend_loop-done :
      (k : ℕ) (v : Walked W) {v' : Walked W}
      → extend_step sd bytes nbytes v ≡ ok (true, v')
      → extend_loop sd bytes nbytes (suc k) v ≡ ok v'
  unfolding extend_loop
  extend_loop-done k v e = rw e

  pub extend_loop-again :
      (k : ℕ) (v : Walked W) {v' : Walked W}
      → extend_step sd bytes nbytes v ≡ ok (false, v')
      → extend_loop sd bytes nbytes (suc k) v ≡ extend_loop sd bytes nbytes k v'
  unfolding extend_loop
  extend_loop-again k v e = rw e

pub last_mark-last : fat_entry_type last_mark ≡ ok last_cluster
unfolding fat_entry_type
last_mark-last = refl

pub Chain-last_mark :
    (fat : List ℕ) (f : ℕ) → 2 ≤ f → f < length fat → Chain (set fat f last_mark) f (f ∷ [])
Chain-last_mark fat f lo hi = end lo (get_elem?-set_self fat f last_mark hi) last_mark-last

-- A chain of one cluster reads as what the cluster holds.
pub read_cluster_chain-single :
    {W : Type 0} (sd : SdCard W) (k : ℕ) (s : System W) {f : ℕ} {b : List ℕ}
    → Chain s.fs.fat f (f ∷ [])
    → s.sd_ready ≡ true
    → s.fs.sectors_per_cluster ≤ 128
    → sd.readblock s.disk (lba_of s.fs f) s.fs.sectors_per_cluster ≡ some b
    → length b ≡ 512 * s.fs.sectors_per_cluster
    → read_cluster_chain sd (suc k) s f ≡ ok (b, 512 * s.fs.sectors_per_cluster)
read_cluster_chain-single sd k s {f} {b} ch ready small reads full =
    read_cluster_chain-contents sd (suc k) s ch (omega arith)
      (contents-read sd s f [] ready reads (omega arith) refl) (omega arith)
    ∙ rw (append-nil b) (ap (λ n. ok (b, n)) (omega arith))
