-- ===== src/Fat32/Entry.antt =====
-- fat32/fat32-helpers.h and fat32/fat32-helpers.c: the kinds of entry of the file allocation table.
use dfs_pios_ro.Base.{
  ℕ, ◌*◌, ◌/◌, Bool, true, false, ◌&&◌, leb, ◌==◌, if◌then◌else◌, u32, Outcome, ok, panic,
}

-- `fat32_cluster_t`.
pub data EntryType : Type 0 where
  free_cluster reserved_cluster bad_cluster last_cluster used_cluster : EntryType

-- `fat32_fat_entry_type`: `x << 4` drops the upper four bits of a `uint32_t`.
unfoldable pub fat_entry_type : ℕ → Outcome EntryType
fat_entry_type raw =
    let x : ℕ = u32 (raw * 16) / 16 in
    if x == 0
    then ok free_cluster
    else if x == 1
    then ok reserved_cluster
    else if x == 0xffffff7
    then ok bad_cluster
    else if leb 2 x && leb x 0xfffffef
    then ok used_cluster
    else if leb 0xffffff0 x && leb x 0xffffff6
    then panic
    else if leb 0xffffff8 x && leb x 0xfffffff
    then ok last_cluster
    else panic

abbrev pub is_last : EntryType → Bool
is_last last_cluster = true
is_last _ = false

abbrev pub is_free : EntryType → Bool
is_free free_cluster = true
is_free _ = false
