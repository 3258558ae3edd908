-- ===== src/Fat32/Clusters/Tests.antt =====
-- The theorems on chains at the small file system.
use dfs_pios_ro.Fat32.Clusters.Walk.{get_cluster_chain_length-Chain}
use dfs_pios_ro.Fat32.Examples.{
  table, volume, mounted, Chain-ab, mounted-Mounted, stored_ab, table-Typed,
}
use dfs_pios_ro.Fat32.Clusters.Free.{FirstFree, AllTaken, find_free_cluster-FirstFree}
use dfs_pios_ro.Fat32.Card.{card}
use dfs_pios_ro.Fat32.Clusters.Contents.{read_cluster_chain-contents, cluster_to_lba-apart}
use dfs_pios_ro.Fat32.Clusters.{
  get_cluster_chain_length, read_cluster_chain, find_free_cluster, cluster_to_lba,
}
use dfs_pios_ro.Base.{ℕ, ◌≤◌, ◌+◌, ◌≡◌, ◌⊎◌, ok, replicate, panic, arith, refl}

get_cluster_chain_length-Chain_example : get_cluster_chain_length 2 table 3 ≡ ok 2
get_cluster_chain_length-Chain_example = get_cluster_chain_length-Chain 2 Chain-ab (omega arith)

cluster_to_lba-apart_example :
    (a b : ℕ) × (cluster_to_lba volume 3 ≡ ok a)
    × (cluster_to_lba volume 5 ≡ ok b)
    × ((a + 1 ≤ b) ⊎ (b + 1 ≤ a))
    × (a + 1 ≤ 100)
    × (b + 1 ≤ 100)
cluster_to_lba-apart_example =
    cluster_to_lba-apart mounted-Mounted 3 5 (omega arith) (omega arith) (omega arith) (omega arith)
      (λ e. absurd (omega arith))

read_cluster_chain-contents_example :
    read_cluster_chain card 2 mounted 3 ≡ ok (replicate 1024 0, 1024)
read_cluster_chain-contents_example =
    read_cluster_chain-contents card 2 mounted Chain-ab (omega arith) stored_ab (omega arith)

find_free_cluster-FirstFree_example :
    ((c : ℕ) × (find_free_cluster volume 3 ≡ ok c) × FirstFree table 3 c)
    ⊎ ((find_free_cluster volume 3 ≡ panic) × AllTaken table 3 8)
find_free_cluster-FirstFree_example =
    find_free_cluster-FirstFree volume 3 table-Typed refl (omega arith) (omega arith)
