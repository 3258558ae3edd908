-- ===== src/Fat32/Calls/Tests.antt =====
-- The theorems on the calls, for a mirror in the root of the small file system.
use dfs_pios_ro.Fat32.Names.{matches}
use dfs_pios_ro.Fat32.Disk.{pi_sec_read}
use dfs_pios_ro.Fat32.Entry.{fat_entry_type}
use dfs_pios_ro.Fat32.Clusters.{get_cluster_chain_length, read_cluster_chain, cluster_to_lba}
use dfs_pios_ro.Fat32.Card.{card}
use dfs_pios_ro.Fat32.Examples.{name_ab, raw_ab, mounted}
use dfs_pios_ro.Base.{false, refl, [], true, ◌≡◌, ok, some, ◌∷◌}
use dfs_pios_ro.Fat32.Calls.Chain.{MirrorOk, fs_changedir-MirrorOk, fs_changedir-up_down}
use dfs_pios_ro.Fat32.Dirent.{same_bytes, decode_all, encode, dirent_name, start_cluster}
use dfs_pios_ro.Fat32.Directory.{stat, PiDirent, get_dirents, find_dirent_with_name, dirent_convert}
use dfs_pios_ro.Fat32.Calls.{
  Mirror, fs_changedir, dirname_to_directory, strip_slash, dir_home, go_up, dir_same, dir_up,
}

abbrev root : PiDirent
root = record { name = []; raw_name = []; cluster_id = 2; is_dir_p = true; nbytes = 0 }

abbrev mirror : Mirror
mirror = record { cwd = root; here = root; parents = [] }

mirror-MirrorOk : MirrorOk root mirror
mirror-MirrorOk = record { current = refl; rooted = refl }

-- There is no parent of the root.
up_fails : fs_changedir card 2 root mounted mirror dir_up ≡ ok (false, mirror)
unfolding fs_changedir dirname_to_directory strip_slash same_bytes go_up
up_fails = refl

fs_changedir-MirrorOk_example : MirrorOk root mirror × (false ≡ false → mirror ≡ mirror)
fs_changedir-MirrorOk_example =
    fs_changedir-MirrorOk card 2 root mounted mirror dir_up mirror-MirrorOk up_fails

abbrev found : PiDirent
found = record { name = name_ab; raw_name = raw_ab; cluster_id = 3; is_dir_p = false; nbytes = 700 }

stat_ab : stat card 2 mounted root (strip_slash name_ab) ≡ ok (some found)
unfolding stat get_dirents get_cluster_chain_length fat_entry_type read_cluster_chain cluster_to_lba
    pi_sec_read find_dirent_with_name decode_all encode dirent_name matches strip_slash
    dirent_convert start_cluster
stat_ab = refl

not_special :
    (same_bytes (strip_slash name_ab) dir_home ≡ false)
    × (same_bytes (strip_slash name_ab) dir_same ≡ false)
    × (same_bytes (strip_slash name_ab) dir_up ≡ false)
unfolding same_bytes strip_slash
not_special = (refl, refl, refl)

fs_changedir-up_down_example :
    (m' : Mirror) × (fs_changedir card 2 root mounted mirror name_ab ≡ ok (true, m'))
    × (m'.cwd ≡ found)
    × (fs_changedir card 2 root mounted m' dir_up ≡ ok (true, mirror))
fs_changedir-up_down_example =
    fs_changedir-up_down card 2 root mounted mirror b'A' (b'B' ∷ b'.' ∷ b'T' ∷ b'X' ∷ b'T' ∷ [])
      mirror-MirrorOk (not_special.0) (not_special.1) (not_special.2) stat_ab
