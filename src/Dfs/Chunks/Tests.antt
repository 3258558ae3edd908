-- ===== src/Dfs/Chunks/Tests.antt =====
-- The theorems on the table of chunks at a small table.
use dfs_pios_ro.Dfs.Chunks.Table.{updated-misplaced}
use dfs_pios_ro.Dfs.Chunks.{ChunkMap, add_replica, updated}
use dfs_pios_ro.Base.{ℕ, List, arith, ◌≡◌, ◌∷◌, [], ok, refl, get_elem?, some}

abbrev chunk : ℕ → ChunkMap
chunk id = record { addr0 = 0x6a6a6a; addr1 = 0; addr2 = 0; chunk_id = id; num_replica = 1 }

abbrev two_chunks : List ChunkMap
two_chunks = chunk 1 ∷ chunk 70000 ∷ []

abbrev replicated : ChunkMap
replicated = record { addr0 = 0x6a6a6a; addr1 = 0x6b6b6b; addr2 = 0; chunk_id = 5; num_replica = 2 }

added : add_replica (chunk 1) 5 0x6b6b6b ≡ ok replicated
unfolding add_replica
added = refl

updated-misplaced_example :
    (maps' : List ChunkMap) × (updated two_chunks 5 0 0x6b6b6b ≡ ok maps')
    × (get_elem? maps' 0 ≡ some (chunk 1))
    × (get_elem? maps' 1 ≡ some replicated)
updated-misplaced_example = updated-misplaced two_chunks 5 0 0x6b6b6b (omega arith) refl added
