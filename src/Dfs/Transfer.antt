-- ===== src/Dfs/Transfer.antt =====
-- dfs/dfs-client.c: how a client sends the data of a chunk to a chunk server, and receives it.
pub mod Received
pub mod Written
mod Tests
use dfs_pios_ro.Base.{
  none, some, Option, Outcome, ok, List, ℕ, Bool, if◌then◌else◌, ◌>>=◌, false, take, u32, ltb, drop,
  ◌==◌, [], ◌+◌, fault, ◌^◌, true, out_of_fuel, ◌-◌, suc, ◌++◌, leb, not, replicate, ◌∷◌, zero,
}
use dfs_pios_ro.Dfs.Packets.{
  Pkt, set_bytes, set_word, dfs_rd, dfs_end_rd, dfs_wr, dfs_end_wr, status_failed,
}
use dfs_pios_ro.Dfs.Client.{
  Connection, Arrival, timeout, incomplete, full, of_conn, status, chunk_size,
}
use dfs_pios_ro.Dfs.ChunkServer.{chunk_server_pkt_size, slice}

-- The 16 bytes of `payload.data.data`.
abbrev pub data_of : Pkt → List ℕ
data_of p = take chunk_server_pkt_size (drop 12 p.t_pkt)

-- The loop of `dfs_client_query_chunk_data`, with room for `room` bytes more: whether the last packet
-- has come, and the data. Of an incomplete packet it would read bytes that were never written.
unfoldable pub query_loop : ℕ → List Arrival → Outcome (Bool × List ℕ)
query_loop room [] = ok (false, [])
query_loop room (timeout ∷ later) = ok (false, [])
query_loop room (incomplete ∷ later) = fault
query_loop room (full p ∷ later) =
    if status p == status_failed
    then ok (false, [])
    else if p.op_code == dfs_rd
    then (if ltb room chunk_server_pkt_size then fault else (do
      (done, bytes) ← query_loop (room - chunk_server_pkt_size) later
      ok (done, data_of p ++ bytes)))
    else if p.op_code == dfs_end_rd
    then (if ltb room chunk_server_pkt_size then fault else ok (true, data_of p))
    else query_loop room later

unfoldable pub query_chunk_data :
    Bool → Pkt → Connection → ℕ → ℕ → List Arrival → Outcome (Bool × List ℕ × Pkt)
unfolding query_loop
query_chunk_data sent stack conn chunk_id room arrivals = do
  let pkt = set_word (set_word (set_word (of_conn stack conn dfs_rd) 0 chunk_id) 8 0) 12 chunk_size
  (done, bytes) ← if sent then query_loop room arrivals else ok (false, [])
  ok (done, bytes, pkt)

-- The packet of a round of the loop of `dfs_client_write_chunk_data`.
unfoldable pub write_pkt : Pkt → Connection → ℕ → List ℕ → ℕ → ℕ → Outcome Pkt
write_pkt stack conn chunk_id bytes total sent = do
  let left = u32 (total + 2 ^ 32 - sent)
  let last = leb left chunk_server_pkt_size
  let n = if last then left else chunk_server_pkt_size
  part ← slice bytes sent n
  let pkt = set_word (of_conn stack conn (if last then dfs_end_wr else dfs_wr)) 0 chunk_id
  ok (set_bytes (set_word pkt 8 sent) 12 (part ++ replicate (chunk_server_pkt_size - n) 0))

-- The loop, with packet `i` next: whether all were sent, and the packets.
unfoldable pub write_loop :
    ℕ → (ℕ → Bool) → ℕ → Pkt → Connection → ℕ → List ℕ → ℕ → ℕ → Outcome (Bool × List Pkt)
unfolding write_pkt
write_loop zero radio i stack conn chunk_id bytes total sent =
    if ltb sent total then out_of_fuel else ok (true, [])
write_loop (suc rounds) radio i stack conn chunk_id bytes total sent =
    if not (ltb sent total) then ok (true, []) else (do
      pkt ← write_pkt stack conn chunk_id bytes total sent
      elim (radio i) [
        | false ↦ ok (false, pkt ∷ [])
        | true ↦ (do
          (all_sent, later) ←
              write_loop rounds radio (i + 1) stack conn chunk_id bytes total
                (u32 (sent + chunk_server_pkt_size))
          ok (all_sent, pkt ∷ later))
      ])

-- The loop that waits for DFS_END_WR.
unfoldable pub await_end : List Arrival → Bool
await_end [] = false
await_end (timeout ∷ later) = false
await_end (incomplete ∷ later) = false
await_end (full p ∷ later) =
    let rest = await_end later in if p.op_code == dfs_end_wr then true else rest

unfoldable pub write_chunk_data :
    ℕ → (ℕ → Bool) → Pkt → Connection → ℕ → List ℕ → ℕ → List Arrival → Outcome (Bool × List Pkt)
unfolding write_loop await_end
write_chunk_data rounds radio stack conn chunk_id bytes total arrivals = do
  (all_sent, pkts) ← write_loop rounds radio 0 stack conn chunk_id bytes total 0
  ok (if all_sent then await_end arrivals else false, pkts)
