-- ===== src/Fat32/Dirent.antt =====
-- fat32/fat32-helpers.h, fat32/fat32-helpers.c and fat32/fat32-lfn-helpers.c: the 32-byte directory
-- entry, its layout on the card, and the tests on it.
pub mod Lookup
use dfs_pios_ro.Fat32.Names.{raw_name, to_8dot3}
use dfs_pios_ro.Base.{
  ok, ℕ, List, Outcome, Bool, ◌∷◌, [], ◌==◌, ◌>>◌, ◌+◌, ◌++◌, if◌then◌else◌, ◌%◌, take, ◌*◌, not,
  bit_and, Option, ◌>>=◌, ◌/◌, get_or, true, assert, suc, ◌^◌, none, ◌||◌, drop, some, false, zero,
  ◌&&◌,
}

-- `fat32_dirent_t`; `filename` holds eleven bytes.
pub record Dirent : Type 0 where
  pub filename : List ℕ
  pub attr : ℕ
  pub reserved0 : ℕ
  pub ctime_tenths : ℕ
  pub ctime : ℕ
  pub create_date : ℕ
  pub access_date : ℕ
  pub hi_start : ℕ
  pub mod_time : ℕ
  pub mod_date : ℕ
  pub lo_start : ℕ
  pub file_nbytes : ℕ

-- Little-endian fields of a packed structure.
abbrev pub byte_at : List ℕ → ℕ → ℕ
byte_at bs i = get_or bs i 0

abbrev pub half_at : List ℕ → ℕ → ℕ
half_at bs i = byte_at bs i + 256 * byte_at bs (i + 1)

abbrev pub word_at : List ℕ → ℕ → ℕ
word_at bs i = half_at bs i + 2 ^ 16 * half_at bs (i + 2)

unfoldable pub decode : List ℕ → Dirent
decode bs = record {
  filename = take 11 bs;
  attr = byte_at bs 11;
  reserved0 = byte_at bs 12;
  ctime_tenths = byte_at bs 13;
  ctime = half_at bs 14;
  create_date = half_at bs 16;
  access_date = half_at bs 18;
  hi_start = half_at bs 20;
  mod_time = half_at bs 22;
  mod_date = half_at bs 24;
  lo_start = half_at bs 26;
  file_nbytes = word_at bs 28;
}

-- The bytes behind the name.
abbrev pub encode_rest : Dirent → List ℕ
encode_rest d =
    d.attr
    ∷ d.reserved0
    ∷ d.ctime_tenths
    ∷ d.ctime % 256
    ∷ d.ctime / 256 % 256
    ∷ d.create_date % 256
    ∷ d.create_date / 256 % 256
    ∷ d.access_date % 256
    ∷ d.access_date / 256 % 256
    ∷ d.hi_start % 256
    ∷ d.hi_start / 256 % 256
    ∷ d.mod_time % 256
    ∷ d.mod_time / 256 % 256
    ∷ d.mod_date % 256
    ∷ d.mod_date / 256 % 256
    ∷ d.lo_start % 256
    ∷ d.lo_start / 256 % 256
    ∷ d.file_nbytes % 256
    ∷ d.file_nbytes / 256 % 256
    ∷ d.file_nbytes / 2 ^ 16 % 256
    ∷ d.file_nbytes / 2 ^ 24 % 256
    ∷ []

-- The 32 bytes that an entry, a packed `fat32_dirent_t`, takes in memory.
unfoldable pub encode : Dirent → List ℕ
encode d = d.filename ++ encode_rest d

-- An array of `n` directory entries in a buffer.
unfoldable pub decode_all : ℕ → List ℕ → List Dirent
unfolding decode
decode_all zero bs = []
decode_all (suc n) bs = decode bs ∷ decode_all n (drop 32 bs)

abbrev pub attr_lfn : ℕ
attr_lfn = 0x0f

abbrev pub attr_dir : ℕ
attr_dir = 0x10

abbrev pub attr_archive : ℕ
attr_archive = 0x20

-- `fat32_cluster_id`: the two halves are 16 bits wide, so the bits of `|` do not meet.
unfoldable pub start_cluster : Dirent → ℕ
start_cluster d = d.hi_start * 2 ^ 16 + d.lo_start

-- The stores of a start cluster in `fat32_create` and `fat32_write`.
unfoldable pub set_start : Dirent → ℕ → Dirent
set_start d c = record d { hi_start = c / 2 ^ 16 % 2 ^ 16; lo_start = c % 2 ^ 16 }

-- `fat32_is_dir`.
unfoldable pub is_dir : Dirent → Bool
is_dir d = d.attr == attr_dir

-- `fat32_is_attr`, and `is_attr` of the long-name helpers.
unfoldable pub is_attr : ℕ → ℕ → Bool
is_attr x flag = if x == attr_lfn then x == flag else bit_and x flag == flag

unfoldable pub lfn_is_last : ℕ → Bool
lfn_is_last seqno = not (seqno / 2 ^ 6 % 2 == 0)

-- `seqno &= ~(1 << 6)` in a byte.
unfoldable pub lfn_is_first : ℕ → Bool
lfn_is_first seqno = bit_and seqno 0xbf == 1

unfoldable pub lfn_is_deleted : ℕ → Bool
lfn_is_deleted seqno = bit_and seqno 0xe5 == 0xe5

-- `fat32_dirent_is_deleted_lfn`: the first byte is the sequence number.
unfoldable pub dirent_is_deleted_lfn : Dirent → Outcome Bool
unfolding lfn_is_deleted
dirent_is_deleted_lfn d = do assert (d.attr == attr_lfn); ok (lfn_is_deleted (byte_at d.filename 0))

unfoldable pub dirent_is_lfn : Dirent → Bool
dirent_is_lfn d = d.attr == attr_lfn

unfoldable pub dirent_free : Dirent → Outcome Bool
unfolding dirent_is_deleted_lfn
dirent_free d =
    let x = byte_at d.filename 0 in
    if d.attr == attr_lfn then dirent_is_deleted_lfn d else ok ((x == 0) || (x == 0xe5))

-- `memcmp(a, b, 11) == 0` and `strcmp(a, b) == 0`, on lists of bytes.
unfoldable pub same_bytes : List ℕ → List ℕ → Bool
same_bytes [] [] = true
same_bytes [] (y ∷ ys) = false
same_bytes (x ∷ xs) [] = false
same_bytes (x ∷ xs) (y ∷ ys) = (x == y) && same_bytes xs ys

-- `fat32_dir_lookup` from index `i` on; `none` is -1.
unfoldable pub lookup_from : List ℕ → ℕ → List Dirent → Outcome (Option ℕ)
unfolding dirent_free dirent_is_lfn same_bytes
lookup_from name i [] = ok none
lookup_from name i (d ∷ ds) = do
  free ← dirent_free d
  if free || dirent_is_lfn d
      then lookup_from name (i + 1) ds
      else (let rest = lookup_from name (i + 1) ds in
          if same_bytes name d.filename then ok (some i) else rest)

unfoldable pub dir_lookup : List ℕ → List Dirent → Outcome (Option ℕ)
unfolding lookup_from
dir_lookup name ds = lookup_from name 0 ds

-- `lfn_checksum`, from the sum so far.
unfoldable pub lfn_checksum_from : ℕ → List ℕ → ℕ
lfn_checksum_from sum [] = sum
lfn_checksum_from sum (c ∷ cs) = lfn_checksum_from ((sum % 2 * 2 ^ 7 + sum / 2 + c) % 256) cs

unfoldable pub lfn_checksum : List ℕ → ℕ
unfolding lfn_checksum_from
lfn_checksum name = lfn_checksum_from 0 (take 11 name)

-- `fat32_dirent_name` and `fat32_dirent_set_name`.
unfoldable pub dirent_name : Dirent → Outcome (List ℕ)
unfolding to_8dot3
dirent_name d = to_8dot3 d.filename

unfoldable pub dirent_set_name : Dirent → List ℕ → Outcome Dirent
unfolding raw_name
dirent_set_name d name = do raw ← raw_name name; ok (record d { filename = raw })
