-- ===== src/Fat32/Files/Tests.antt =====
-- The theorems on files at the small file system.
use dfs_pios_ro.Fat32.Entry.{fat_entry_type}
use dfs_pios_ro.Fat32.Clusters.{get_cluster_chain_length, read_cluster_chain, cluster_to_lba}
use dfs_pios_ro.Fat32.Files.Delete.{delete-frees}
use dfs_pios_ro.Fat32.Names.{copy_at, matches}
use dfs_pios_ro.Fat32.Clusters.Contents.{lba_of}
use dfs_pios_ro.Fat32.Writing.Store.{IsCluster, SameOn}
use dfs_pios_ro.Fat32.Files.{delete, set_first}
use dfs_pios_ro.Fat32.Clusters.Free.{clear}
use dfs_pios_ro.Fat32.Clusters.Chain.{Chain, has}
use dfs_pios_ro.Fat32.Examples.{
  mounted, entry_ab, name_ab, table, Chain-ab, image, volume, mounted-Mounted, mounted-TableOnCard,
  valid_ab,
}
use dfs_pios_ro.Base.{
  List, ◌∷◌, ℕ, [], ◌≡◌, ◌/◌, replicate, true, ok, get_elem?, some, refl, if◌then◌else◌, take, ◌≢◌,
  arith,
}
use dfs_pios_ro.Fat32.Card.{Bytes, card, card-Reliable}
use dfs_pios_ro.Fat32.Dirent.{Dirent, start_cluster, decode, encode, dirent_name, decode_all}
use dfs_pios_ro.Fat32.Disk.{System, with_fat, pi_sec_read}
use dfs_pios_ro.Fat32.Directory.{nth_cluster, PiDirent, get_dirents, find_dirent_with_name}

abbrev root : PiDirent
root = record { name = b'/' ∷ []; raw_name = []; cluster_id = 2; is_dir_p = true; nbytes = 0 }

-- An entry of zeros.
abbrev blank : Dirent
blank = decode (replicate 32 0)

abbrev entries : List Dirent
entries = entry_ab ∷ replicate 15 blank

root_entries : get_dirents card 2 mounted 2 ≡ ok entries
unfolding get_dirents get_cluster_chain_length fat_entry_type read_cluster_chain cluster_to_lba
    pi_sec_read decode_all encode
root_entries = refl

found_ab : find_dirent_with_name entries name_ab ≡ ok (some 0)
unfolding find_dirent_with_name dirent_name matches
found_ab = refl

root_0 : nth_cluster mounted (3 / 16) 2 ≡ ok 2
unfolding nth_cluster
root_0 = refl

root_0_cleared : nth_cluster (with_fat mounted (clear table (3 ∷ 4 ∷ []))) (0 / 16) 2 ≡ ok 2
unfolding nth_cluster
root_0_cleared = refl

Chain-of_ab : Chain table (start_cluster entry_ab) (3 ∷ 4 ∷ [])
unfolding start_cluster
Chain-of_ab = Chain-ab

delete-frees_example :
    (s' : System Bytes) × (before : List ℕ) × (delete card 2 mounted root name_ab ≡ ok (true, s'))
    × ((c : ℕ) → get_elem? s'.fs.fat c ≡ (if has c (3 ∷ 4 ∷ []) then some 0 else get_elem? table c))
    × (card.readblock image (lba_of volume 2) 1 ≡ some before)
    × (card.readblock s'.disk (lba_of volume 2) 1
        ≡ some (take 512 (copy_at before 0 (encode (set_first entry_ab 0xe5)))))
    × ((c : ℕ) → IsCluster volume c → 2 ≢ c → SameOn card volume image s'.disk c)
delete-frees_example =
    delete-frees (card-Reliable 100) 2 mounted root name_ab mounted-Mounted mounted-TableOnCard refl
      valid_ab root_entries found_ab refl Chain-of_ab (omega arith) root_0_cleared
      (omega arith, omega arith)
