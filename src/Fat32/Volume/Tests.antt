-- ===== src/Fat32/Volume/Tests.antt =====
-- The theorems on mounting at a volume of 128 clusters in a partition that starts at sector 4.

-- The bytes of a card that are not 0.
use dfs_pios_ro.Fat32.Files.Entry.{TableOnCard}
use dfs_pios_ro.Fat32.Volume.Mount.{Words, Sound, mk-Mounted, write_fat_to_disk-words_of}
use dfs_pios_ro.Fat32.Clusters.{write_fat_to_disk}
use dfs_pios_ro.Fat32.Card.{Bytes, range, card, card-Reliable}
use dfs_pios_ro.Fat32.Clusters.Contents.{Mounted}
use dfs_pios_ro.Fat32.Volume.{volume_id_check, fsinfo_check, Partition, mk, decode_boot, words_of}
use dfs_pios_ro.Base.{
  ℕ, List, [], ◌∷◌, replicate, arith, ◌++◌, true, ◌≡◌, false, suc, refl, if◌then◌else◌, ok, zero,
  ◌==◌,
}
use dfs_pios_ro.Fat32.Disk.{Fs, System, pi_sec_read}

abbrev marked : List (ℕ × ℕ) → Bytes
marked [] i = 0
marked ((at, b) ∷ rest) i = if i == at then b else marked rest i

abbrev boot_bytes : List (ℕ × ℕ)
boot_bytes =
    (2060, 2)
    ∷ (2061, 1)
    ∷ (2062, 2)
    ∷ (2064, 2)
    ∷ (2080, 200)
    ∷ (2084, 1)
    ∷ (2092, 2)
    ∷ (2096, 1)
    ∷ (2098, 6)
    ∷ (2114, 0x29)
    ∷ (2558, 0x55)
    ∷ (2559, 0xaa)
    ∷ []

abbrev info_bytes : List (ℕ × ℕ)
info_bytes =
    (2560, 0x52)
    ∷ (2561, 0x52)
    ∷ (2562, 0x61)
    ∷ (2563, 0x41)
    ∷ (3044, 0x72)
    ∷ (3045, 0x72)
    ∷ (3046, 0x41)
    ∷ (3047, 0x61)
    ∷ (3070, 0x55)
    ∷ (3071, 0xaa)
    ∷ []

abbrev formatted : Bytes
formatted = marked (boot_bytes ++ info_bytes)

abbrev no_fs : Fs
no_fs = record {
  lba_start = 0;
  fat_begin_lba = 0;
  cluster_begin_lba = 0;
  sectors_per_cluster = 0;
  root_dir_first_cluster = 0;
  fat = [];
  n_entries = 0;
}

abbrev unmounted : System Bytes
unmounted = record { disk = formatted; sd_ready = true; fat_ready = false; fs = no_fs }

abbrev partition : Partition
partition = record {
  bootable_p = 0;
  chs_start = 0;
  part_type = 0xb;
  chs_end = 0;
  lba_start = 4;
  nsec = 196;
}

abbrev boot : List ℕ
boot = range formatted 2048 512

partition-Sound : Sound 200 partition (decode_boot boot)
unfolding volume_id_check decode_boot
partition-Sound = record {
  checked = refl;
  clusters = omega arith;
  small = omega arith;
  table = omega arith;
  fits = omega arith;
  second = omega arith;
  words = omega arith;
}

info_checked : fsinfo_check (range formatted 2560 512) ≡ ok tt
unfolding fsinfo_check
info_checked = refl

mk-Mounted_example :
    (s' : System Bytes) × (mk card unmounted partition ≡ ok s')
    × Mounted 200 s'
    × TableOnCard s'
    × (s'.fat_ready ≡ true)
    × (s'.disk ≡ formatted)
mk-Mounted_example =
    mk-Mounted card unmounted partition partition-Sound (card-Reliable 200) refl refl refl refl
      info_checked

Words-replicate : (n : ℕ) → Words (replicate n 0)
Words-replicate zero = tt
Words-replicate (suc n) = (omega arith, Words-replicate n)

abbrev empty_fs : Fs
empty_fs = record no_fs {
  fat_begin_lba = 6;
  cluster_begin_lba = 8;
  sectors_per_cluster = 1;
  fat = replicate 128 0;
  n_entries = 128;
}

abbrev empty_volume : System Bytes
empty_volume = record { disk = formatted; sd_ready = true; fat_ready = true; fs = empty_fs }

empty_volume-Mounted : Mounted 200 empty_volume
empty_volume-Mounted = record {
  ready = refl;
  entries = refl;
  on_card = omega arith;
  words = omega arith;
  nonempty = omega arith;
  small = omega arith;
}

write_fat_to_disk-words_of_example :
    (s' : System Bytes) × (bytes : List ℕ) × (write_fat_to_disk card empty_volume ≡ ok s')
    × (pi_sec_read card s' 6 1 ≡ ok bytes)
    × (words_of 128 bytes ≡ replicate 128 0)
write_fat_to_disk-words_of_example =
    write_fat_to_disk-words_of (card-Reliable 200) empty_volume empty_volume-Mounted
      (record { in_front = omega arith }) (Words-replicate 128) (omega arith)
