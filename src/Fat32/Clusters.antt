-- ===== src/Fat32/Clusters.antt =====
-- fat32/fat32.c: walking, reading, freeing and finding clusters through the in-memory table.
-- A loop along a chain is given `fuel` rounds.
pub mod Chain
pub mod Walk
pub mod Contents
pub mod Free
mod Tests
use dfs_pios_ro.Base.{
  ℕ, zero, suc, ◌+◌, ◌-◌, ◌*◌, ◌/◌, ◌%◌, ◌^◌, List, [], ◌∷◌, ◌++◌, leb, ltb, ◌==◌, if◌then◌else◌,
  u32, elem_at, Outcome, ok, panic, out_of_fuel, ◌>>=◌, ◌>>◌, assert, length, fault, take, drop,
}
use dfs_pios_ro.Fat32.Entry.{EntryType, fat_entry_type, is_last, is_free}
use dfs_pios_ro.Fat32.Disk.{SdCard, Fs, System, pi_sec_read, pi_sd_write, fat_at, set_fat}

-- The `- 2` is reached only behind the assertion.
unfoldable pub cluster_to_lba : Fs → ℕ → Outcome ℕ
cluster_to_lba f cluster_num = do
  assert (leb 2 cluster_num)
  ok (u32 (f.cluster_begin_lba + (cluster_num - 2) * f.sectors_per_cluster))

unfoldable pub chain_length_loop : ℕ → List ℕ → ℕ → ℕ → Outcome ℕ
chain_length_loop zero fat cluster count = out_of_fuel
chain_length_loop (suc k) fat cluster count = do
  next ← elem_at fat cluster
  type ← fat_entry_type next
  if is_last type then ok (count + 1) else chain_length_loop k fat next (count + 1)

unfoldable pub get_cluster_chain_length : ℕ → List ℕ → ℕ → Outcome ℕ
unfolding chain_length_loop
get_cluster_chain_length fuel fat start_cluster =
    if start_cluster == 0 then ok 0 else chain_length_loop fuel fat start_cluster 0

-- The search is a counted loop: `left` is `n_entries - cluster`.
unfoldable pub find_free_loop : ℕ → List ℕ → ℕ → Outcome ℕ
find_free_loop zero fat cluster = panic
find_free_loop (suc left) fat cluster = do
  entry ← elem_at fat cluster
  type ← fat_entry_type entry
  if is_free type then ok cluster else find_free_loop left fat (cluster + 1)

unfoldable pub find_free_cluster : Fs → ℕ → Outcome ℕ
unfolding find_free_loop
find_free_cluster fs start_cluster =
    let start : ℕ = if ltb start_cluster 3 then 3 else start_cluster in
    find_free_loop (fs.n_entries - start) fs.fat start

module _ {W : Type 0} where
  -- The loop of `fat32_delete` that frees the clusters of the file.
  unfoldable pub free_loop : ℕ → System W → ℕ → Outcome (System W)
  free_loop zero s cluster = out_of_fuel
  free_loop (suc k) s cluster = do
    next ← fat_at s cluster
    s' ← set_fat s cluster 0
    type ← fat_entry_type next
    if is_last type then ok s' else free_loop k s' next

-- The bytes of an array of `uint32_t`, as they lie in memory.
unfoldable pub word_bytes : List ℕ → List ℕ
word_bytes [] = []
word_bytes (w ∷ ws) =
    w % 256 ∷ w / 2 ^ 8 % 256 ∷ w / 2 ^ 16 % 256 ∷ w / 2 ^ 24 % 256 ∷ word_bytes ws

-- `memcpy(data + at, bytes, n)`, where `buffer` is what `data` holds so far, with no gap.
unfoldable pub copy_in : List ℕ → ℕ → List ℕ → ℕ → Outcome (List ℕ)
copy_in buffer at bytes n =
    if ltb (length bytes) n
    then fault
    else ok (take at buffer ++ (take n bytes ++ drop (at + n) buffer))

module _ {W : Type 0} (sd : SdCard W) where
  -- `buffer` is what has been copied so far, and `data_index` the place of the next copy, which goes
  -- back to the start of the buffer where it wraps.
  unfoldable pub read_loop : ℕ → System W → ℕ → List ℕ → ℕ → Outcome (List ℕ × ℕ)
  unfolding copy_in
  read_loop zero s cluster buffer data_index = out_of_fuel
  read_loop (suc k) s cluster buffer data_index = do
    lba ← cluster_to_lba s.fs cluster
    next ← fat_at s cluster
    bytes ← pi_sec_read sd s lba s.fs.sectors_per_cluster
    buffer' ← copy_in buffer data_index bytes (s.fs.sectors_per_cluster * 512)
    let data_index' = u32 (data_index + s.fs.sectors_per_cluster * 512)
    type ← fat_entry_type next
    if is_last type then ok (buffer', data_index') else read_loop k s next buffer' data_index'

  unfoldable pub read_cluster_chain : ℕ → System W → ℕ → Outcome (List ℕ × ℕ)
  unfolding read_loop
  read_cluster_chain fuel s start_cluster =
      if start_cluster == 0 then ok ([], 0) else read_loop fuel s start_cluster [] 0

  unfoldable pub write_fat_to_disk : System W → Outcome (System W)
  unfolding word_bytes
  write_fat_to_disk s =
      pi_sd_write sd s (word_bytes s.fs.fat) s.fs.fat_begin_lba (s.fs.n_entries / 128)
