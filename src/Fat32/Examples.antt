-- ===== src/Fat32/Examples.antt =====
-- A small file system for the tests: clusters of one sector, eight entries in the table. The root
-- directory is cluster 2, a file has the clusters 3 and 4, another the cluster 5; 6 and 7 are free.
use dfs_pios_ro.Fat32.Names.{is_valid_name}
use dfs_pios_ro.Fat32.Clusters.Free.{Typed}
use dfs_pios_ro.Fat32.Clusters.Chain.{Chain, link, end}
use dfs_pios_ro.Fat32.Entry.{fat_entry_type, EntryType, free_cluster, last_cluster, used_cluster}
use dfs_pios_ro.Base.{
  List, if◌then◌else◌, arith, ◌≡◌, true, ℕ, refl, ok, leb, ◌∷◌, [], get_or, ◌-◌, replicate, suc,
  zero,
}
use dfs_pios_ro.Fat32.Dirent.{Dirent, encode}
use dfs_pios_ro.Fat32.Clusters.{find_free_cluster}
use dfs_pios_ro.Fat32.Files.Entry.{TableOnCard}
use dfs_pios_ro.Fat32.Clusters.Contents.{Mounted, contents}
use dfs_pios_ro.Fat32.Card.{Bytes, card}
use dfs_pios_ro.Fat32.Disk.{Fs, System, pi_sec_read}

abbrev pub table : List ℕ
table = 0x0ffffff8 ∷ 0x0fffffff ∷ 0x0fffffff ∷ 4 ∷ 0x0fffffff ∷ 0x0fffffff ∷ 0 ∷ 0 ∷ []

abbrev pub volume : Fs
volume = record {
  lba_start = 0;
  fat_begin_lba = 1;
  cluster_begin_lba = 10;
  sectors_per_cluster = 1;
  root_dir_first_cluster = 2;
  fat = table;
  n_entries = 8;
}

-- `AB.TXT` is the file in the clusters 3 and 4.
abbrev pub raw_ab : List ℕ
raw_ab = b'A' ∷ b'B' ∷ b' ' ∷ b' ' ∷ b' ' ∷ b' ' ∷ b' ' ∷ b' ' ∷ b'T' ∷ b'X' ∷ b'T' ∷ []

abbrev pub name_ab : List ℕ
name_ab = b'A' ∷ b'B' ∷ b'.' ∷ b'T' ∷ b'X' ∷ b'T' ∷ []

abbrev pub entry_ab : Dirent
entry_ab = record {
  filename = raw_ab;
  attr = 0x20;
  reserved0 = 0;
  ctime_tenths = 0;
  ctime = 0;
  create_date = 0;
  access_date = 0;
  hi_start = 0;
  mod_time = 0;
  mod_date = 0;
  lo_start = 3;
  file_nbytes = 700;
}

abbrev pub image : Bytes
image i = if leb 5120 i then get_or (encode entry_ab) (i - 5120) 0 else 0

abbrev pub mounted : System Bytes
mounted = record { disk = image; sd_ready = true; fat_ready = true; fs = volume }

pub mounted-Mounted : Mounted 100 mounted
mounted-Mounted = record {
  ready = refl;
  entries = refl;
  on_card = omega arith;
  words = omega arith;
  nonempty = omega arith;
  small = omega arith;
}

pub mounted-TableOnCard : TableOnCard mounted
mounted-TableOnCard = record { in_front = omega arith }

pub Chain-ab : Chain table 3 (3 ∷ 4 ∷ [])
unfolding fat_entry_type
Chain-ab = link (omega arith) refl refl (end (omega arith) refl refl)

pub free_6 : find_free_cluster volume 3 ≡ ok 6
unfolding find_free_cluster fat_entry_type
free_6 = refl

pub Chain-4 : Chain table 4 (4 ∷ [])
unfolding fat_entry_type
Chain-4 = end (omega arith) refl refl

pub Chain-5 : Chain table 5 (5 ∷ [])
unfolding fat_entry_type
Chain-5 = end (omega arith) refl refl

-- The file holds zeros.
pub stored_ab : contents card mounted (3 ∷ 4 ∷ []) ≡ ok (replicate 1024 0)
unfolding pi_sec_read encode
stored_ab = refl

Typed-[] : Typed []
Typed-[] i lt = absurd (omega arith)

Typed-∷ :
    (x : ℕ) (xs : List ℕ) (t : EntryType) → fat_entry_type x ≡ ok t → Typed xs → Typed (x ∷ xs)
Typed-∷ x xs t is rest zero lt = (t, (x, refl, is))
Typed-∷ x xs t is rest (suc i) lt = rest i (omega arith)

pub table-Typed : Typed table
unfolding fat_entry_type
table-Typed =
    let from7 = Typed-∷ 0 [] free_cluster refl Typed-[] in
    let from6 = Typed-∷ 0 (0 ∷ []) free_cluster refl from7 in
    let from5 = Typed-∷ 0x0fffffff (0 ∷ 0 ∷ []) last_cluster refl from6 in
    let from4 = Typed-∷ 0x0fffffff (0x0fffffff ∷ 0 ∷ 0 ∷ []) last_cluster refl from5 in
    let from3 = Typed-∷ 4 (0x0fffffff ∷ 0x0fffffff ∷ 0 ∷ 0 ∷ []) used_cluster refl from4 in
    let from2 =
      Typed-∷ 0x0fffffff (4 ∷ 0x0fffffff ∷ 0x0fffffff ∷ 0 ∷ 0 ∷ []) last_cluster refl from3 in
    let from1 =
      Typed-∷ 0x0fffffff (0x0fffffff ∷ 4 ∷ 0x0fffffff ∷ 0x0fffffff ∷ 0 ∷ 0 ∷ []) last_cluster refl
        from2 in
    Typed-∷ 0x0ffffff8 (0x0fffffff ∷ 0x0fffffff ∷ 4 ∷ 0x0fffffff ∷ 0x0fffffff ∷ 0 ∷ 0 ∷ [])
      last_cluster refl from1

pub valid_ab : is_valid_name name_ab ≡ true
unfolding is_valid_name
valid_ab = refl
