-- ===== src/Dfs/Chunks/Table.antt =====
-- dfs/dfs-master-fat.c: the table of chunks with a server more.
use dfs_pios_ro.Dfs.Chunks.{updated, ChunkMap, add_replica}
use dfs_pios_ro.Base.{
  List, ℕ, ◌+◌, ◌<◌, ◌∷◌, length, get_elem?, [], ◌++◌, take, ◌≡◌, some, refl, arith, suc, ok, zero,
  ◌-◌, length-take, ◌∙◌, sym,
}

get_elem?-append_left :
    (xs ys : List ChunkMap) (k : ℕ) → k < length xs → get_elem? (xs ++ ys) k ≡ get_elem? xs k
get_elem?-append_left [] ys k lt = absurd (omega arith)
get_elem?-append_left (x ∷ xs) ys zero lt = refl
get_elem?-append_left (x ∷ xs) ys (suc k) lt = get_elem?-append_left xs ys k (omega arith)

get_elem?-append_end :
    (xs : List ChunkMap) (y : ChunkMap) (k : ℕ)
    → k ≡ length xs
    → get_elem? (xs ++ (y ∷ [])) k ≡ some y
get_elem?-append_end [] y zero e = refl
get_elem?-append_end [] y (suc k) e = absurd (omega arith)
get_elem?-append_end (x ∷ xs) y zero e = absurd (omega arith)
get_elem?-append_end (x ∷ xs) y (suc k) e = get_elem?-append_end xs y k (omega arith)

get_elem?-take :
    (n : ℕ) (xs : List ChunkMap) (k : ℕ) → k < n → get_elem? (take n xs) k ≡ get_elem? xs k
get_elem?-take zero xs k lt = absurd (omega arith)
get_elem?-take (suc n) [] k lt = refl
get_elem?-take (suc n) (x ∷ xs) zero lt = refl
get_elem?-take (suc n) (x ∷ xs) (suc k) lt = get_elem?-take n xs k (omega arith)

updated-step :
    (maps : List ChunkMap) (chunk_id sqn addr : ℕ) {old new : ChunkMap}
    → sqn < length maps
    → get_elem? maps sqn ≡ some old
    → add_replica old chunk_id addr ≡ ok new
    → updated maps chunk_id sqn addr ≡ ok (take (length maps - 1) maps ++ (new ∷ []))
unfolding updated
updated-step maps chunk_id sqn addr lt at added = ground (arith, at, added)

-- For a chunk that the table has, but not in its last place, and that has room for a server: the
-- table that `master_fat32_add_chunk_server` writes has the map of that chunk unchanged, and the
-- new map in the last place.
pub updated-misplaced :
    (maps : List ChunkMap) (chunk_id sqn addr : ℕ) {old new : ChunkMap}
    → sqn + 1 < length maps
    → get_elem? maps sqn ≡ some old
    → add_replica old chunk_id addr ≡ ok new
    → (maps' : List ChunkMap) × (updated maps chunk_id sqn addr ≡ ok maps')
      × (get_elem? maps' sqn ≡ some old)
      × (get_elem? maps' (length maps - 1) ≡ some new)
updated-misplaced maps chunk_id sqn addr {old} {new} lt at added =
    let few = take (length maps - 1) maps in
    let size : length few ≡ length maps - 1 = omega (arith, length-take (length maps - 1) maps) in
    (
      few ++ (new ∷ []),
      updated-step maps chunk_id sqn addr (omega arith) at added,
      get_elem?-append_left few (new ∷ []) sqn (omega arith)
          ∙ get_elem?-take (length maps - 1) maps sqn (omega arith)
          ∙ at,
      get_elem?-append_end few new (length maps - 1) (sym size),
    )
