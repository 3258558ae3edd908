-- ===== src/Fat32/Disk.antt =====
-- fat32/pi-sd.c and the state of fat32/fat32.c. The driver of the card (sd_init, sd_readblock,
-- sd_writeblock) is a parameter, `SdCard`; `Reliable` is what the file system relies on of it.
use dfs_pios_ro.Base.{
  ℕ, ◌+◌, ◌*◌, ◌≤◌, ◌≡◌, ◌⊎◌, Bool, true, Option, none, some, List, length, take, ltb,
  if◌then◌else◌, set, elem_at, Outcome, ok, panic, fault, ◌>>◌, assert,
}

-- `readblock w lba n` is `none` where the driver reports less than `512 * n` bytes.
pub record SdCard (W : Type 0) : Type 0 where
  pub sd_init : W → Option W
  pub readblock : W → ℕ → ℕ → Option (List ℕ)
  pub writeblock : W → List ℕ → ℕ → ℕ → Option W

-- A card of `capacity` sectors that keeps what is written to it.
pub record Reliable {W : Type 0} (sd : SdCard W) (capacity : ℕ) : Type 0 where
  pub read_ok :
      (w : W) (lba n : ℕ)
      → lba + n ≤ capacity
      → (bytes : List ℕ) × (sd.readblock w lba n ≡ some bytes) × (length bytes ≡ 512 * n)
  pub write_ok :
      (w : W) (bytes : List ℕ) (lba n : ℕ)
      → lba + n ≤ capacity
      → 512 * n ≤ length bytes
      → (w' : W) × (sd.writeblock w bytes lba n ≡ some w')
        × (sd.readblock w' lba n ≡ some (take (512 * n) bytes))
  pub write_apart :
      (w w' : W) (bytes : List ℕ) (lba n lba' n' : ℕ)
      → sd.writeblock w bytes lba n ≡ some w'
      → (lba + n ≤ lba') ⊎ (lba' + n' ≤ lba)
      → sd.readblock w' lba' n' ≡ sd.readblock w lba' n'

-- `fat32_fs_t`; the table of `n_entries` words is the list `fat`.
pub record Fs : Type 0 where
  pub lba_start : ℕ
  pub fat_begin_lba : ℕ
  pub cluster_begin_lba : ℕ
  pub sectors_per_cluster : ℕ
  pub root_dir_first_cluster : ℕ
  pub fat : List ℕ
  pub n_entries : ℕ

-- The card, the `init_p` of pi-sd.c and that of fat32.c, and the `fat32_fs_t` that the callers of
-- fat32.c share by pointer.
pub record System (W : Type 0) : Type 0 where
  pub disk : W
  pub sd_ready : Bool
  pub fat_ready : Bool
  pub fs : Fs

module _ {W : Type 0} (sd : SdCard W) where
  unfoldable pub pi_sd_init : System W → Outcome (System W)
  pi_sd_init s = elim (sd.sd_init s.disk) [
    | none ↦ panic
    | some w ↦ ok (record s { disk = w; sd_ready = true })
  ]

  -- Also `pi_sd_read`, which it calls with the buffer that it allocates.
  unfoldable pub pi_sec_read : System W → ℕ → ℕ → Outcome (List ℕ)
  pi_sec_read s lba nsec = do
    assert s.sd_ready
    elim (sd.readblock s.disk lba nsec) [ none ↦ panic | some bytes ↦ ok bytes ]

  -- `bytes` is the memory from the pointer on: the driver takes `512 * nsec` bytes of it.
  unfoldable pub pi_sd_write : System W → List ℕ → ℕ → ℕ → Outcome (System W)
  pi_sd_write s bytes lba nsec = do
    assert s.sd_ready
    elim (sd.writeblock s.disk bytes lba nsec) [
      | none ↦ panic
      | some w ↦ ok (record s { disk = w })
    ]

module _ {W : Type 0} where
  abbrev pub with_fat : System W → List ℕ → System W
  with_fat s fat = record s { fs = record (s.fs) { fat = fat } }

  -- `fs->fat[cluster]`, read and written.
  abbrev pub fat_at : System W → ℕ → Outcome ℕ
  fat_at s cluster = elem_at s.fs.fat cluster

  unfoldable pub set_fat : System W → ℕ → ℕ → Outcome (System W)
  set_fat s cluster v =
      if ltb cluster (length s.fs.fat) then ok (with_fat s (set s.fs.fat cluster v)) else fault
