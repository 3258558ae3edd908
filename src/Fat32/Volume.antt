-- ===== src/Fat32/Volume.antt =====
-- fat32/mbr.c, fat32/mbr-helpers.c, the checks of fat32/fat32-helpers.c, and `fat32_mk` of
-- fat32/fat32.c: from the partition table to a mounted file system.
pub mod Mount
mod Tests
-- `struct partition_entry`.
use dfs_pios_ro.Fat32.Dirent.{byte_at, half_at, word_at, same_bytes}
use dfs_pios_ro.Base.{
  List, Outcome, Bool, ℕ, true, ◌>>◌, bit_and, false, take, [], ◌==◌, ◌||◌, ◌+◌, u32, suc, ◌>>=◌,
  if◌then◌else◌, ◌∷◌, assert, drop, ◌^◌, zero, ◌&&◌, not, ltb, ◌*◌, ◌/◌, ok, ◌-◌, length,
}
use dfs_pios_ro.Fat32.Disk.{SdCard, System, pi_sec_read, Fs}

pub record Partition : Type 0 where
  pub bootable_p : ℕ
  pub chs_start : ℕ
  pub part_type : ℕ
  pub chs_end : ℕ
  pub lba_start : ℕ
  pub nsec : ℕ

unfoldable pub decode_partition : List ℕ → Partition
decode_partition bs = record {
  bootable_p = byte_at bs 0;
  chs_start = byte_at bs 1 + 256 * half_at bs 2;
  part_type = byte_at bs 4;
  chs_end = byte_at bs 5 + 256 * half_at bs 6;
  lba_start = word_at bs 8;
  nsec = word_at bs 12;
}

unfoldable pub memiszero : List ℕ → Bool
memiszero [] = true
memiszero (b ∷ bs) = (b == 0) && memiszero bs

-- The sixteen bytes of entry `partno` of the partition table, in the 512 bytes of a `struct mbr`.
abbrev pub part_tab : List ℕ → ℕ → List ℕ
part_tab mbr partno = take 16 (drop (446 + 16 * partno) mbr)

abbrev pub mbr_part_is_fat32 : ℕ → Bool
mbr_part_is_fat32 t = (t == 0xb) || (t == 0xc)

unfoldable pub mbr_check : List ℕ → Outcome (Unit {0})
unfolding decode_partition memiszero
mbr_check mbr = do
  assert (half_at mbr 510 == 0xaa55)
  let p = decode_partition (part_tab mbr 0)
  assert (mbr_part_is_fat32 p.part_type)
  assert (not (memiszero (part_tab mbr 0)))
  assert (memiszero (part_tab mbr 1))
  assert (memiszero (part_tab mbr 2))
  assert (memiszero (part_tab mbr 3))

unfoldable pub mbr_get_partition : List ℕ → ℕ → Outcome Partition
unfolding decode_partition
mbr_get_partition mbr partno = do assert (ltb partno 4); ok (decode_partition (part_tab mbr partno))

-- The fields of `fat32_boot_sec_t` that the code reads.
pub record BootSector : Type 0 where
  pub bytes_per_sec : ℕ
  pub sec_per_cluster : ℕ
  pub reserved_area_nsec : ℕ
  pub nfats : ℕ
  pub max_files : ℕ
  pub fs_nsec : ℕ
  pub zero_16 : ℕ
  pub nsec_in_fs : ℕ
  pub nsec_per_fat : ℕ
  pub first_cluster : ℕ
  pub info_sec_num : ℕ
  pub backup_boot_loc : ℕ
  pub extended_sig : ℕ
  pub sig : ℕ

unfoldable pub decode_boot : List ℕ → BootSector
decode_boot bs = record {
  bytes_per_sec = half_at bs 11;
  sec_per_cluster = byte_at bs 13;
  reserved_area_nsec = half_at bs 14;
  nfats = byte_at bs 16;
  max_files = half_at bs 17;
  fs_nsec = half_at bs 19;
  zero_16 = half_at bs 22;
  nsec_in_fs = word_at bs 32;
  nsec_per_fat = word_at bs 36;
  first_cluster = word_at bs 44;
  info_sec_num = half_at bs 48;
  backup_boot_loc = half_at bs 50;
  extended_sig = byte_at bs 66;
  sig = half_at bs 510;
}

-- The macro `is_pow2` on an `int`; 0 passes.
abbrev pub is_pow2 : ℕ → Bool
is_pow2 x = bit_and x (u32 (2 ^ 32 - x)) == x

unfoldable pub volume_id_check : BootSector → Outcome (Unit {0})
volume_id_check b = do
  assert (b.bytes_per_sec == 512)
  assert (b.nfats == 2)
  assert (b.sig == 0xaa55)
  assert (is_pow2 b.sec_per_cluster)
  let n = b.bytes_per_sec
  assert ((n == 512) || ((n == 1024) || ((n == 2048) || (n == 4096))))
  assert (b.max_files == 0)
  assert (b.fs_nsec == 0)
  assert (b.zero_16 == 0)
  assert (not (b.nsec_in_fs == 0))
  assert (b.info_sec_num == 1)
  assert (b.backup_boot_loc == 6)
  assert (b.extended_sig == 0x29)

-- On the 512 bytes of a `struct fsinfo`.
unfoldable pub fsinfo_check : List ℕ → Outcome (Unit {0})
fsinfo_check bs = do
  assert (word_at bs 0 == 0x41615252)
  assert (word_at bs 484 == 0x61417272)
  assert (word_at bs 508 == 0xaa550000)

-- `n` words as they lie in memory.
unfoldable pub words_of : ℕ → List ℕ → List ℕ
words_of zero bs = []
words_of (suc n) bs = word_at bs 0 ∷ words_of n (drop 4 bs)

-- The static variable `verify_fat`.
abbrev pub verify_fat : Bool
verify_fat = false

module _ {W : Type 0} (sd : SdCard W) where
  unfoldable pub mbr_read : System W → Outcome (List ℕ)
  unfolding mbr_check
  mbr_read s = do mbr ← pi_sec_read sd s 0 1; mbr_check mbr; ok mbr

  -- The comparison of the first two copies of the table, where `verify_fat` asks for it.
  unfoldable pub check_copy : System W → BootSector → ℕ → List ℕ → Outcome (Unit {0})
  unfolding words_of
  check_copy s b fat_begin_lba fat =
      if verify_fat
      then (do
        bytes ← pi_sec_read sd s (u32 (fat_begin_lba + b.nsec_per_fat)) b.nsec_per_fat
        assert (same_bytes (words_of (length fat) bytes) fat))
      else ok tt

  -- `fat32_mk`: the `fat32_fs_t` that it returns is that of the new state.
  unfoldable pub mk : System W → Partition → Outcome (System W)
  unfolding decode_boot volume_id_check fsinfo_check words_of check_copy
  mk s partition = do
    assert (not s.fat_ready)
    boot ← pi_sec_read sd s partition.lba_start 1
    let b = decode_boot boot
    volume_id_check b
    assert (b.info_sec_num == 1)
    info ← pi_sec_read sd s (u32 (partition.lba_start + 1)) 1
    fsinfo_check info
    let fat_begin_lba = u32 (partition.lba_start + b.reserved_area_nsec)
    let cluster_begin_lba = u32 (fat_begin_lba + b.nfats * b.nsec_per_fat)
    let n_entries = u32 (b.nsec_per_fat * b.bytes_per_sec) / 4
    bytes ← pi_sec_read sd s fat_begin_lba b.nsec_per_fat
    let fat = words_of n_entries bytes
    check_copy s b fat_begin_lba fat
    let fs : Fs = record {
      lba_start = partition.lba_start;
      fat_begin_lba = fat_begin_lba;
      cluster_begin_lba = cluster_begin_lba;
      sectors_per_cluster = b.sec_per_cluster;
      root_dir_first_cluster = b.first_cluster;
      fat = fat;
      n_entries = n_entries;
    }
    ok (record s { fat_ready = true; fs = fs })
