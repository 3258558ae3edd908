-- ===== src/Fat32/Volume/Mount.antt =====
-- fat32/fat32.c: fat32_mk on a sound volume, and the table on the card.
use dfs_pios_ro.Fat32.Writing.Store.{with_disk}
use dfs_pios_ro.Fat32.Files.Entry.{TableOnCard, length-word_bytes}
use dfs_pios_ro.Fat32.Clusters.Contents.{Mounted}
use dfs_pios_ro.Fat32.Disk.{SdCard, pi_sd_write, Fs, System, pi_sec_read, Reliable}
use dfs_pios_ro.Fat32.Clusters.{word_bytes, write_fat_to_disk}
use dfs_pios_ro.Fat32.Volume.{
  volume_id_check, words_of, BootSector, Partition, decode_boot, mk, check_copy, fsinfo_check,
}
use dfs_pios_ro.Base.{
  List, ℕ, length, ◌≡◌, ◌∷◌, suc, ◌%◌, ◌<◌, ok, ap, arith, ◌^◌, ◌+◌, ◌*◌, drop, [], ◌/◌, zero, refl,
  ◌≤◌, true, false, some, u32, take, take-all,
}

length-words_of : (n : ℕ) (bs : List ℕ) → length (words_of n bs) ≡ n
unfolding words_of
length-words_of zero bs = refl
length-words_of (suc n) bs = ap suc (length-words_of n (drop 4 bs))

volume_id_check-ok :
    (b : BootSector)
    → volume_id_check b ≡ ok tt
    → (b.bytes_per_sec ≡ 512) × (b.nfats ≡ 2) × (b.info_sec_num ≡ 1)
unfolding volume_id_check
volume_id_check-ok b e = ground arith

-- Every entry of the table is a `uint32_t`.
abbrev pub Words : List ℕ → Type 0
Words [] = Unit {0}
Words (w ∷ ws) = (w < 2 ^ 32) × Words ws

pub words_of-word_bytes : (ws : List ℕ) → Words ws → words_of (length ws) (word_bytes ws) ≡ ws
unfolding words_of word_bytes
words_of-word_bytes [] small = refl
words_of-word_bytes (w ∷ ws) (lt, small) =
    let first : w % 256
          + 256 * (w / 2 ^ 8 % 256)
          + 2 ^ 16 * (w / 2 ^ 16 % 256 + 256 * (w / 2 ^ 24 % 256))
        ≡ w =
      omega arith in
    rw (first, words_of-word_bytes ws small)

-- A volume in the partition `p` whose table and clusters lie on a card of `capacity` sectors.
pub record Sound (capacity : ℕ) (p : Partition) (b : BootSector) : Type 0 where
  pub checked : volume_id_check b ≡ ok tt
  pub clusters : 0 < b.sec_per_cluster
  pub small : b.sec_per_cluster ≤ 128
  pub table : b.nsec_per_fat * 512 < 2 ^ 32
  pub fits :
      p.lba_start
        + b.reserved_area_nsec
        + 2 * b.nsec_per_fat
        + 128 * b.nsec_per_fat * b.sec_per_cluster
      ≤ capacity
  pub second : p.lba_start + 1 < capacity
  pub words : capacity < 2 ^ 32

-- What `fat32_mk` leaves in the state.
abbrev mounted_fs : Partition → BootSector → List ℕ → Fs
mounted_fs p b bytes = record {
  lba_start = p.lba_start;
  fat_begin_lba = p.lba_start + b.reserved_area_nsec;
  cluster_begin_lba = p.lba_start + b.reserved_area_nsec + 2 * b.nsec_per_fat;
  sectors_per_cluster = b.sec_per_cluster;
  root_dir_first_cluster = b.first_cluster;
  fat = words_of (128 * b.nsec_per_fat) bytes;
  n_entries = 128 * b.nsec_per_fat;
}

module _ {W : Type 0} (sd : SdCard W) {capacity : ℕ} (s : System W) (p : Partition)
    {boot info : List ℕ} (v : Sound capacity p (decode_boot boot)) where
  mk-step :
      {bytes : List ℕ}
      → s.sd_ready ≡ true
      → s.fat_ready ≡ false
      → sd.readblock s.disk p.lba_start 1 ≡ some boot
      → sd.readblock s.disk (p.lba_start + 1) 1 ≡ some info
      → sd.readblock s.disk
          (p.lba_start + (decode_boot boot).reserved_area_nsec)
          (decode_boot boot).nsec_per_fat
        ≡ some bytes
      → fsinfo_check info ≡ ok tt
      → mk sd s p ≡ ok (record s { fat_ready = true; fs = mounted_fs p (decode_boot boot) bytes })
  unfolding mk check_copy pi_sec_read
  mk-step ready fresh first second table good =
      let b = decode_boot boot in
      let (sector, copies, place) = volume_id_check-ok b v.checked in
      let next : u32 (p.lba_start + 1) ≡ p.lba_start + 1 = omega (arith, v.second, v.words) in
      let begin : u32 (p.lba_start + b.reserved_area_nsec) ≡ p.lba_start + b.reserved_area_nsec =
        omega (arith, v.fits, v.words) in
      let after : u32 (p.lba_start + b.reserved_area_nsec + 2 * b.nsec_per_fat)
          ≡ p.lba_start + b.reserved_area_nsec + 2 * b.nsec_per_fat =
        omega (arith, v.fits, v.words) in
      let n : u32 (b.nsec_per_fat * 512) / 4 ≡ 128 * b.nsec_per_fat = omega (arith, v.table) in
      rw (
        ready, fresh, first, v.checked, place, next, second, good, begin, sector, copies, after, n,
        table,
      )

  -- On a reliable card, for a partition whose boot sector and fsinfo sector pass the checks, with
  -- clusters of 1 to 128 sectors, a table of less than 2 ^ 32 bytes, and all of it on the card:
  -- `fat32_mk` returns, with a file system of which no sector number wraps, every cluster lies on
  -- the card and the table lies in front of the clusters; the module is in use, and the card is as
  -- it was.
  pub mk-Mounted :
      Reliable sd capacity
      → s.sd_ready ≡ true
      → s.fat_ready ≡ false
      → sd.readblock s.disk p.lba_start 1 ≡ some boot
      → sd.readblock s.disk (p.lba_start + 1) 1 ≡ some info
      → fsinfo_check info ≡ ok tt
      → (s' : System W) × (mk sd s p ≡ ok s')
        × Mounted capacity s'
        × TableOnCard s'
        × (s'.fat_ready ≡ true)
        × (s'.disk ≡ s.disk)
  mk-Mounted r ready fresh first second good =
      let b = decode_boot boot in
      let (bytes, table, len) =
        r.read_ok s.disk (p.lba_start + b.reserved_area_nsec) b.nsec_per_fat
          (omega (arith, v.fits)) in
      (
        record s { fat_ready = true; fs = mounted_fs p b bytes },
        mk-step ready fresh first second table good,
        record {
          ready = ready;
          entries = omega (arith, length-words_of (128 * b.nsec_per_fat) bytes);
          on_card = v.fits;
          words = omega (arith, v.words);
          nonempty = v.clusters;
          small = v.small;
        },
        record { in_front = omega arith },
        refl,
        refl,
      )

-- On a reliable card and a mounted file system whose table, of 32-bit words and whole sectors, lies
-- in front of the clusters: `write_fat_to_disk` returns, and the sectors of the table then read as
-- the words of the table in memory.
pub write_fat_to_disk-words_of :
    {W : Type 0} {sd : SdCard W} {capacity : ℕ}
    → Reliable sd capacity
    → (s : System W) → Mounted capacity s
    → TableOnCard s
    → Words s.fs.fat
    → s.fs.n_entries % 128 ≡ 0
    → (s' : System W) × (bytes : List ℕ) × (write_fat_to_disk sd s ≡ ok s')
      × (pi_sec_read sd s' s.fs.fat_begin_lba (s.fs.n_entries / 128) ≡ ok bytes)
      × (words_of s.fs.n_entries bytes ≡ s.fs.fat)
unfolding write_fat_to_disk pi_sd_write pi_sec_read
write_fat_to_disk-words_of {sd} r s m t small whole =
    let bytes = word_bytes s.fs.fat in
    let (w, done, back) =
      r.write_ok s.disk bytes s.fs.fat_begin_lba (s.fs.n_entries / 128)
        (omega (arith, t.in_front, m.on_card))
        (omega (arith, length-word_bytes s.fs.fat, m.entries)) in
    let all : take (512 * (s.fs.n_entries / 128)) bytes ≡ bytes =
      take-all (512 * (s.fs.n_entries / 128)) bytes
        (omega (arith, length-word_bytes s.fs.fat, m.entries)) in
    (
      with_disk s w,
      bytes,
      ground (arith, m.ready, done),
      rw (m.ready, back, all),
      rw m.entries (words_of-word_bytes s.fs.fat small),
    )
