-- ===== src/Fat32/Writing/Steps.antt =====
-- One round of the walk along the old chain, for each of its branches. `before` and `after` stand
-- for the bytes that the clusters up to the current one, without it and with it, take.
use dfs_pios_ro.Fat32.Clusters.Free.{lt-length_of_some}
use dfs_pios_ro.Fat32.Writing.Store.{with_disk}
use dfs_pios_ro.Fat32.Entry.{fat_entry_type, used_cluster, last_cluster}
use dfs_pios_ro.Fat32.Writing.{walk_step, last_mark}
use dfs_pios_ro.Base.{
  arith, List, ℕ, ◌≤◌, get_elem?, ◌≡◌, some, u32, drop, ◌*◌, ◌+◌, ◌-◌, ok, leb, true, false, ltb,
  set,
}
use dfs_pios_ro.Fat32.Disk.{SdCard, System, pi_sd_write, set_fat, with_fat}
use dfs_pios_ro.Fat32.Clusters.Contents.{lba_of, cluster_to_lba-eq}

module _ {W : Type 0} (sd : SdCard W) (bytes : List ℕ) (nbytes : ℕ) (s : System W) {c n : ℕ}
    (start index count : ℕ) (lo : 2 ≤ c) (entry : get_elem? s.fs.fat c ≡ some n) where
  abbrev pub before : ℕ
  before = u32 ((count - 1) * 512 * s.fs.sectors_per_cluster)

  abbrev pub after : ℕ
  after = u32 (count * 512 * s.fs.sectors_per_cluster)

  abbrev pub index' : ℕ
  index' = u32 (index + 512 * s.fs.sectors_per_cluster)

  abbrev pub Written : W → Type 0
  Written w =
      pi_sd_write sd s (drop index bytes) (lba_of s.fs c) s.fs.sectors_per_cluster
      ≡ ok (with_disk s w)

  pub walk_step-middle :
      {w : W}
      → fat_entry_type n ≡ ok used_cluster
      → Written w
      → leb nbytes before ≡ false
      → leb nbytes after ≡ false
      → walk_step sd bytes nbytes s c start index count
        ≡ ok (
          true,
          record {
            cluster = n;
            start = start;
            data_index = index';
            more = false;
            sys = with_disk s w;
          },
        )
  unfolding walk_step
  walk_step-middle t wr b a = ground (arith, cluster_to_lba-eq s.fs c lo)

  pub walk_step-enough :
      {w : W}
      → fat_entry_type n ≡ ok used_cluster
      → Written w
      → leb nbytes before ≡ false
      → leb nbytes after ≡ true
      → walk_step sd bytes nbytes s c start index count
        ≡ ok (
          true,
          record {
            cluster = n;
            start = start;
            data_index = index';
            more = false;
            sys = with_fat (with_disk s w) (set s.fs.fat c last_mark);
          },
        )
  unfolding walk_step set_fat
  walk_step-enough t wr b a =
      ground (arith, cluster_to_lba-eq s.fs c lo, lt-length_of_some s.fs.fat c entry)

  pub walk_step-last :
      {w : W}
      → fat_entry_type n ≡ ok last_cluster
      → Written w
      → leb nbytes before ≡ false
      → walk_step sd bytes nbytes s c start index count
        ≡ ok (
          false,
          record {
            cluster = c;
            start = start;
            data_index = index';
            more = ltb after nbytes;
            sys = with_disk s w;
          },
        )
  unfolding walk_step
  walk_step-last t wr b = ground (arith, cluster_to_lba-eq s.fs c lo)

  pub walk_step-free :
      fat_entry_type n ≡ ok used_cluster
      → leb nbytes before ≡ true
      → walk_step sd bytes nbytes s c start index count
        ≡ ok (
          true,
          record {
            cluster = n;
            start = start;
            data_index = index;
            more = false;
            sys = with_fat s (set s.fs.fat c 0);
          },
        )
  unfolding walk_step set_fat
  walk_step-free t b = ground (arith, lt-length_of_some s.fs.fat c entry)

  pub walk_step-free_last :
      fat_entry_type n ≡ ok last_cluster
      → leb nbytes before ≡ true
      → walk_step sd bytes nbytes s c start index count
        ≡ ok (
          false,
          record {
            cluster = c;
            start = 0;
            data_index = index;
            more = false;
            sys = with_fat s (set s.fs.fat c 0);
          },
        )
  unfolding walk_step set_fat
  walk_step-free_last t b = ground (arith, lt-length_of_some s.fs.fat c entry)
