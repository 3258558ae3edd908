-- ===== src/Fat32/Writing/Tests.antt =====
-- The theorems on `write_cluster_chain` at the small file system.

use dfs_pios_ro.Fat32.Writing.Fit.{write_cluster_chain-read_back}
use dfs_pios_ro.Fat32.Writing.Shrink.{write_cluster_chain-empty}
use dfs_pios_ro.Fat32.Writing.Grow.{write_cluster_chain-two_new, write_cluster_chain-one_new}
use dfs_pios_ro.Fat32.Clusters.{read_cluster_chain}
use dfs_pios_ro.Fat32.Writing.Surplus.{write_cluster_chain-surplus}
use dfs_pios_ro.Fat32.Writing.Store.{with_disk, IsCluster, SameOn}
use dfs_pios_ro.Fat32.Clusters.Chain.{Chain, has}
use dfs_pios_ro.Fat32.Examples.{mounted, table, mounted-Mounted, Chain-ab, volume, free_6, image}
use dfs_pios_ro.Fat32.Writing.{write_cluster_chain, last_mark}
use dfs_pios_ro.Fat32.Disk.{System, with_fat}
use dfs_pios_ro.Fat32.Card.{Bytes, card, card-Reliable}
use dfs_pios_ro.Base.{
  length, List, ◌≡◌, ℕ, refl, replicate, [], ◌++◌, ok, get_elem?, set, ◌∷◌, take, if◌then◌else◌,
  drop, some, arith, ◌≢◌, false,
}

-- Two clusters of data.
abbrev data2 : List ℕ
data2 = replicate 512 1 ++ replicate 512 2

length-data2 : length data2 ≡ 1024
length-data2 = refl

write_cluster_chain-read_back_example :
    (w : Bytes) × (write_cluster_chain card data2 700 2 mounted 3 ≡ ok (3, with_disk mounted w))
    × (read_cluster_chain card 2 (with_disk mounted w) 3 ≡ ok (take 1024 data2, 1024))
    × ((d : ℕ) → IsCluster volume d → has d (3 ∷ 4 ∷ []) ≡ false → SameOn card volume image w d)
write_cluster_chain-read_back_example =
    write_cluster_chain-read_back (card-Reliable 100) data2 700 2 mounted mounted-Mounted Chain-ab
      (omega arith) (omega arith) (omega arith) (omega arith) (omega (arith, length-data2))

write_cluster_chain-empty_example :
    (fat' : List ℕ) × (write_cluster_chain card [] 0 2 mounted 3 ≡ ok (0, with_fat mounted fat'))
    × ((i : ℕ) → get_elem? fat' i ≡ (if has i (3 ∷ 4 ∷ []) then some 0 else get_elem? table i))
write_cluster_chain-empty_example =
    write_cluster_chain-empty card [] 0 2 mounted (omega arith) Chain-ab (omega arith) (omega arith)
      refl

write_cluster_chain-surplus_example :
    (s' : System Bytes) × (write_cluster_chain card data2 300 2 mounted 3 ≡ ok (0, s'))
write_cluster_chain-surplus_example =
    write_cluster_chain-surplus (card-Reliable 100) data2 300 2 mounted mounted-Mounted Chain-ab
      (omega arith) (omega arith) (omega arith) (omega (arith, length-data2))

write_cluster_chain-one_new_example :
    (w : Bytes) × (write_cluster_chain card data2 300 1 mounted 0
      ≡ ok (6, with_fat (with_disk mounted w) (set table 6 last_mark)))
    × (read_cluster_chain card 1 (with_fat (with_disk mounted w) (set table 6 last_mark)) 6
        ≡ ok (take 512 data2, 512))
    × ((d : ℕ) → IsCluster volume d → 6 ≢ d → SameOn card volume image w d)
write_cluster_chain-one_new_example =
    write_cluster_chain-one_new (card-Reliable 100) data2 300 0 mounted mounted-Mounted free_6
      (omega arith) (omega arith) (omega (arith, length-data2))

write_cluster_chain-two_new_example :
    (s' : System Bytes) × (write_cluster_chain card data2 700 2 mounted 0 ≡ ok (6, s'))
    × Chain s'.fs.fat 6 (6 ∷ [])
    × (read_cluster_chain card 1 s' 6 ≡ ok (take 512 (drop 512 data2), 512))
write_cluster_chain-two_new_example =
    write_cluster_chain-two_new (card-Reliable 100) data2 700 0 mounted mounted-Mounted free_6
      (omega arith) (omega arith) (omega (arith, length-data2))
