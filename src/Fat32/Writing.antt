-- ===== src/Fat32/Writing.antt =====
-- fat32/fat32.c, `write_cluster_chain`: the walk along the old chain, then the loop that takes new
-- clusters.
pub mod Store
pub mod Steps
pub mod Rounds
pub mod Fit
pub mod Shrink
pub mod Surplus
pub mod Extend
pub mod Grow
mod Tests
use dfs_pios_ro.Base.{
  ℕ, zero, suc, ◌+◌, ◌*◌, ◌-◌, Bool, true, false, List, drop, leb, ltb, ◌==◌, if◌then◌else◌, u32,
  Outcome, ok, out_of_fuel, ◌>>=◌,
}
use dfs_pios_ro.Fat32.Entry.{fat_entry_type, is_last}
use dfs_pios_ro.Fat32.Disk.{SdCard, System, pi_sd_write, fat_at, set_fat}
use dfs_pios_ro.Fat32.Clusters.{cluster_to_lba, find_free_cluster, get_cluster_chain_length}

-- The variables of `write_cluster_chain` between its two loops; `more` is `need_more_clusters`.
pub record Walked (W : Type 0) : Type 0 where
  pub cluster : ℕ
  pub start : ℕ
  pub data_index : ℕ
  pub more : Bool
  pub sys : System W

-- `0xFFFFFFFF`, the mark that the code writes for the last cluster.
abbrev pub last_mark : ℕ
last_mark = 0xffffffff

module _ {W : Type 0} (sd : SdCard W) (bytes : List ℕ) (nbytes : ℕ) where
  -- One round of the first `while (1)`, at a cluster that is not 0. `count` is `cluster_count`
  -- after its increment. The result: whether the loop goes on, and the variables.
  unfoldable pub walk_step : System W → ℕ → ℕ → ℕ → ℕ → Outcome (Bool × Walked W)
  walk_step s cluster start data_index count = do
    next ← fat_at s cluster
    if leb nbytes (u32 ((count - 1) * 512 * s.fs.sectors_per_cluster))
        then (do
          type ← fat_entry_type next
          s' ← set_fat s cluster 0
          if is_last type
              then ok (
                false,
                record {
                  cluster = cluster;
                  start = 0;
                  data_index = data_index;
                  more = false;
                  sys = s';
                },
              )
              else ok (
                true,
                record {
                  cluster = next;
                  start = start;
                  data_index = data_index;
                  more = false;
                  sys = s';
                },
              ))
        else (do
          lba ← cluster_to_lba s.fs cluster
          s' ← pi_sd_write sd s (drop data_index bytes) lba s.fs.sectors_per_cluster
          let data_index' = u32 (data_index + 512 * s.fs.sectors_per_cluster)
          let enough = leb nbytes (u32 (count * 512 * s.fs.sectors_per_cluster))
          type ← fat_entry_type next
          if is_last type
              then ok (
                false,
                record {
                  cluster = cluster;
                  start = start;
                  data_index = data_index';
                  more = ltb (u32 (count * 512 * s.fs.sectors_per_cluster)) nbytes;
                  sys = s';
                },
              )
              else (do
                s'' ← (if enough then set_fat s' cluster last_mark else ok s')
                ok (
                  true,
                  record {
                    cluster = next;
                    start = start;
                    data_index = data_index';
                    more = false;
                    sys = s'';
                  },
                )))

  unfoldable pub walk_loop : ℕ → System W → ℕ → ℕ → ℕ → ℕ → Outcome (Walked W)
  unfolding walk_step
  walk_loop zero s cluster start data_index count = out_of_fuel
  walk_loop (suc k) s cluster start data_index count =
      if cluster == 0
      then ok (record {
        cluster = cluster;
        start = start;
        data_index = data_index;
        more = ltb 0 nbytes;
        sys = s;
      })
      else (do
        (going, v) ← walk_step s cluster start data_index (u32 (count + 1))
        if going then walk_loop k v.sys v.cluster v.start v.data_index (u32 (count + 1)) else ok v)

  -- One round of the second `while (1)`; the Boolean says whether it was the last.
  unfoldable pub extend_step : Walked W → Outcome (Bool × Walked W)
  extend_step v = do
    free ← find_free_cluster v.sys.fs 3
    lba ← cluster_to_lba v.sys.fs free
    s ← (if v.start == 0 then ok v.sys else set_fat v.sys v.cluster free)
    let start' = if v.start == 0 then free else v.start
    s' ← pi_sd_write sd s (drop v.data_index bytes) lba s.fs.sectors_per_cluster
    let data_index' = u32 (v.data_index + 512 * s.fs.sectors_per_cluster)
    if leb nbytes data_index'
        then (do
          s'' ← set_fat s' free last_mark
          ok (
            true,
            record {
              cluster = free;
              start = start';
              data_index = data_index';
              more = true;
              sys = s'';
            },
          ))
        else ok (
          false,
          record {
            cluster = free;
            start = start';
            data_index = data_index';
            more = true;
            sys = s';
          },
        )

  unfoldable pub extend_loop : ℕ → Walked W → Outcome (Walked W)
  unfolding extend_step
  extend_loop zero v = out_of_fuel
  extend_loop (suc k) v = do (done, v') ← extend_step v; if done then ok v' else extend_loop k v'

  -- The call of `get_cluster_chain_length` at the start is kept: it may fault or run on.
  unfoldable pub write_cluster_chain : ℕ → System W → ℕ → Outcome (ℕ × System W)
  unfolding walk_loop extend_loop
  write_cluster_chain fuel s start_cluster = do
    length ← get_cluster_chain_length fuel s.fs.fat start_cluster
    v ← walk_loop fuel s start_cluster start_cluster 0 0
    v' ← (if v.more then extend_loop fuel v else ok v)
    ok (v'.start, v'.sys)
