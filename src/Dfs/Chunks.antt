-- ===== src/Dfs/Chunks.antt =====
-- dfs/dfs-master-fat.c: the table of the chunks of a file, which the master keeps as the contents
-- of a file of its own. The padding of a `chunk_map_t` is 0 in the model.
pub mod Table
mod Tests
-- `chunk_map_t`, of 20 bytes.
use dfs_pios_ro.Fat32.Calls.{Mirror, fs_read, dir_same, fs_write}
use dfs_pios_ro.Fat32.Dirent.{word_at, byte_at}
use dfs_pios_ro.Fat32.Directory.{PiDirent}
use dfs_pios_ro.Fat32.Disk.{SdCard, System}
use dfs_pios_ro.Fat32.Clusters.{word_bytes}
use dfs_pios_ro.Base.{
  List, ℕ, ◌∷◌, [], Outcome, ◌+◌, if◌then◌else◌, suc, ◌++◌, leb, drop, ◌%◌, length, ◌==◌, ◌>>=◌,
  zero, ok, fault, elem_at, take, ◌/◌, ◌-◌, ◌*◌,
}

pub record ChunkMap : Type 0 where
  pub addr0 : ℕ
  pub addr1 : ℕ
  pub addr2 : ℕ
  pub chunk_id : ℕ
  pub num_replica : ℕ

unfoldable pub decode_map : List ℕ → ChunkMap
decode_map bs = record {
  addr0 = word_at bs 0;
  addr1 = word_at bs 4;
  addr2 = word_at bs 8;
  chunk_id = word_at bs 12;
  num_replica = byte_at bs 16;
}

unfoldable pub decode_maps : ℕ → List ℕ → List ChunkMap
unfolding decode_map
decode_maps zero bs = []
decode_maps (suc n) bs = decode_map bs ∷ decode_maps n (drop 20 bs)

-- The memory of an array of `chunk_map_t`, with the padding behind the last field.
unfoldable pub encode_maps : List ChunkMap → List ℕ
unfolding word_bytes
encode_maps [] = []
encode_maps (m ∷ ms) =
    word_bytes (m.addr0 ∷ m.addr1 ∷ m.addr2 ∷ m.chunk_id ∷ [])
    ++ (m.num_replica ∷ 0 ∷ 0 ∷ 0 ∷ encode_maps ms)

-- The map with a server more; a fourth would be written behind the array.
unfoldable pub add_replica : ChunkMap → ℕ → ℕ → Outcome ChunkMap
add_replica old chunk_id addr =
    let new = record old { chunk_id = chunk_id; num_replica = (old.num_replica + 1) % 256 } in
    if old.num_replica == 0
    then ok (record new { addr0 = addr })
    else if old.num_replica == 1
    then ok (record new { addr1 = addr })
    else if old.num_replica == 2
    then ok (record new { addr2 = addr })
    else fault

-- The table that `master_fat32_add_chunk_server` writes.
unfoldable pub updated : List ChunkMap → ℕ → ℕ → ℕ → Outcome (List ChunkMap)
updated maps chunk_id sqn addr =
    if leb (length maps) sqn
    then ok (
        maps
        ++ (record { addr0 = addr; addr1 = 0; addr2 = 0; chunk_id = chunk_id; num_replica = 1 }
            ∷ []))
    else (do
      old ← elem_at maps sqn
      new ← add_replica old chunk_id addr
      ok (take (length maps - 1) maps ++ (new ∷ [])))

module _ {W : Type 0} (sd : SdCard W) (fuel : ℕ) (root : PiDirent) where
  unfoldable pub get_chunk_num : System W → Mirror → List ℕ → Outcome ℕ
  get_chunk_num s m filename = do
    (bytes, nbytes) ← fs_read sd fuel root s m dir_same filename
    ok (nbytes / 20)

  unfoldable pub get_chunks : System W → Mirror → List ℕ → ℕ → Outcome ChunkMap
  unfolding decode_maps
  get_chunks s m filename sqn = do
    (bytes, nbytes) ← fs_read sd fuel root s m dir_same filename
    elem_at (decode_maps (length bytes / 20) bytes) sqn

  unfoldable pub add_chunk_server : System W → Mirror → List ℕ → ℕ → ℕ → ℕ → Outcome (System W)
  unfolding decode_maps encode_maps updated
  add_chunk_server s m filename chunk_id sqn addr = do
    (bytes, nbytes) ← fs_read sd fuel root s m dir_same filename
    maps ← updated (decode_maps (nbytes / 20) bytes) chunk_id sqn addr
    (done, s') ← fs_write sd fuel root s m dir_same filename (encode_maps maps) (20 * length maps)
    ok s'
