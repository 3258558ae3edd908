-- ===== src/Dfs/ChunkServer/Data.antt =====
-- dfs/dfs-chunkserver.c: one packet of the data of a chunk.
use dfs_pios_ro.Fat32.Clusters.{word_bytes}
use dfs_pios_ro.Base.{
  ok, length-take, length-drop, length, List, ◌≡◌, ℕ, ◌∷◌, ◌≤◌, ◌+◌, arith, drop, length-append,
  ◌++◌, [], ◌∙◌, replicate, take, ◌-◌, length-replicate, le→leb, refl, get_or,
}
use dfs_pios_ro.Dfs.Packets.Layout.{
  length-put_bytes, drop-put_bytes, length-put_word, get_or-put_bytes_before, get_or-put_bytes_at,
}
use dfs_pios_ro.Dfs.Packets.{Pkt, put_bytes, status_success}
use dfs_pios_ro.Dfs.ChunkServer.{data_pkt, slice}

-- The data of packets, one behind the other.
abbrev pub received : List Pkt → List ℕ
received [] = []
received (p ∷ ps) = drop 12 p.t_pkt ++ received ps

-- A packet with data.
abbrev pub IsData : Pkt → Type 0
IsData p = (get_or p.t_pkt 4 0 ≡ status_success) × (length p.t_pkt ≡ 28)

module _ (stack : Pkt) (whole : length stack.t_pkt ≡ 28) (chunk_id : ℕ) where
  pub data_pkt-received :
      (op cur_offset n : ℕ) (part : List ℕ)
      → length part ≡ n
      → n ≤ 16
      → drop 12 (data_pkt stack op chunk_id cur_offset n part).t_pkt ≡ part ++ replicate (16 - n) 0
  unfolding data_pkt
  data_pkt-received op cur_offset n part len le =
      let b1 = put_bytes stack.t_pkt 0 (word_bytes (chunk_id ∷ [])) in
      let b2 = put_bytes b1 4 (status_success ∷ []) in
      let b3 = put_bytes b2 8 (word_bytes (cur_offset ∷ [])) in
      let zeros : List ℕ = replicate (16 - n) 0 in
      let l1 : length b1 ≡ 28 = length-put_word stack.t_pkt 0 chunk_id (omega arith) ∙ whole in
      let l2 : length b2 ≡ 28 = length-put_bytes b1 4 (status_success ∷ []) (omega arith) ∙ l1 in
      let l3 : length b3 ≡ 28 = length-put_word b2 8 cur_offset (omega arith) ∙ l2 in
      let pad : length zeros ≡ 16 - n = length-replicate {A = ℕ} (16 - n) 0 in
      drop-put_bytes b3 12 (part ++ zeros) (omega (arith, l3, length-append part zeros, pad))

  -- The packet is whole and reports success.
  pub data_pkt-IsData :
      (op cur_offset n : ℕ) (part : List ℕ)
      → length part ≡ n
      → n ≤ 16
      → IsData (data_pkt stack op chunk_id cur_offset n part)
  unfolding data_pkt
  data_pkt-IsData op cur_offset n part len le =
      let b1 = put_bytes stack.t_pkt 0 (word_bytes (chunk_id ∷ [])) in
      let b2 = put_bytes b1 4 (status_success ∷ []) in
      let b3 = put_bytes b2 8 (word_bytes (cur_offset ∷ [])) in
      let zeros : List ℕ = replicate (16 - n) 0 in
      let l1 : length b1 ≡ 28 = length-put_word stack.t_pkt 0 chunk_id (omega arith) ∙ whole in
      let l2 : length b2 ≡ 28 = length-put_bytes b1 4 (status_success ∷ []) (omega arith) ∙ l1 in
      let l3 : length b3 ≡ 28 = length-put_word b2 8 cur_offset (omega arith) ∙ l2 in
      let pad : length zeros ≡ 16 - n = length-replicate {A = ℕ} (16 - n) 0 in
      (
        get_or-put_bytes_before b3 12 (part ++ zeros) 4 (omega arith) (omega arith)
            ∙ (get_or-put_bytes_before b2 8 (word_bytes (cur_offset ∷ [])) 4 (omega arith)
                  (omega arith)
                ∙ get_or-put_bytes_at b1 4 status_success [] (omega arith)),
        length-put_bytes b3 12 (part ++ zeros) (omega (arith, length-append part zeros)) ∙ l3,
      )

  pub data_pkt-op :
      (op cur_offset n : ℕ) (part : List ℕ)
      → (data_pkt stack op chunk_id cur_offset n part).op_code ≡ op
  unfolding data_pkt
  data_pkt-op op cur_offset n part = refl

pub slice-in :
    (bytes : List ℕ) (from n : ℕ)
    → from + n ≤ length bytes
    → (slice bytes from n ≡ ok (take n (drop from bytes))) × (length (take n (drop from bytes)) ≡ n)
slice-in bytes from n le = (
  rw (le→leb (from + n) (length bytes) le) refl,
  omega (arith, length-take n (drop from bytes), length-drop from bytes),
)
