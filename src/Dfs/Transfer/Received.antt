-- ===== src/Dfs/Transfer/Received.antt =====
-- dfs/dfs-client.c and dfs/dfs-chunkserver.c: what a client receives of a chunk.
use dfs_pios_ro.Base.{
  ok, ℕ, ◌≡◌, List, All, ◌∷◌, drop, length, Bool, ◌≤◌, true, ◌>>=◌, ◌*◌, arith, [], take, ◌∙◌, ◌+◌,
  length-append, ◌-◌, ltb-false_of_le, length-drop, ap, ◌++◌, ◌<◌, refl, sym, ◌^◌, replicate,
  append-nil, >>=-ok, length-replicate, length-take, take-all,
}
use dfs_pios_ro.Dfs.Packets.{Pkt, EndsOnce, dfs_rd, dfs_end_rd}
use dfs_pios_ro.Dfs.Client.{all_arrive, Arrival, full, chunk_size}
use dfs_pios_ro.Dfs.ChunkServer.{send_chunk}
use dfs_pios_ro.Dfs.ChunkServer.Data.{received, IsData}
use dfs_pios_ro.Dfs.ChunkServer.Reading.{send_chunk-PartOf}
use dfs_pios_ro.Dfs.Transfer.{data_of, query_loop}

data_of-IsData :
    (p : Pkt) → IsData p → (data_of p ≡ drop 12 p.t_pkt) × (length (drop 12 p.t_pkt) ≡ 16)
data_of-IsData p good =
    let len : length (drop 12 p.t_pkt) ≡ 16 = omega (arith, length-drop 12 p.t_pkt, good.1) in
    (take-all 16 (drop 12 p.t_pkt) (omega arith), len)

length-received : (pkts : List Pkt) → All IsData pkts → length (received pkts) ≡ 16 * length pkts
length-received [] good = refl
length-received (p ∷ ps) good = omega (
  arith,
  length-append (drop 12 p.t_pkt) (received ps),
  (data_of-IsData p good.0).1,
  length-received ps good.1,
)

query_loop-more :
    (room : ℕ) (p : Pkt) (later : List Arrival)
    → IsData p
    → p.op_code ≡ dfs_rd
    → 16 ≤ room
    → query_loop room (full p ∷ later)
      ≡ (do (done, bytes) ← query_loop (room - 16) later; ok (done, data_of p ++ bytes))
unfolding query_loop
query_loop-more room p later good op enough = rw (good.0, op, ltb-false_of_le room 16 enough) refl

query_loop-end :
    (room : ℕ) (p : Pkt) (later : List Arrival)
    → IsData p
    → p.op_code ≡ dfs_end_rd
    → 16 ≤ room
    → query_loop room (full p ∷ later) ≡ ok (true, data_of p)
unfolding query_loop
query_loop-end room p later good op enough = rw (good.0, op, ltb-false_of_le room 16 enough) refl

query_loop-received :
    (pkts : List Pkt) (room : ℕ)
    → EndsOnce dfs_rd dfs_end_rd pkts
    → All IsData pkts
    → 16 * length pkts ≤ room
    → query_loop room (all_arrive pkts) ≡ ok (true, received pkts)
query_loop-received [] room ends good enough = elim ends [ ]
query_loop-received (p ∷ []) room ends good enough =
    query_loop-end room p [] good.0 ends (omega arith)
    ∙ ap (λ l. ok (true, l)) ((data_of-IsData p good.0).0 ∙ sym (append-nil (drop 12 p.t_pkt)))
query_loop-received (p ∷ q ∷ ps) room ends good enough =
    query_loop-more room p (all_arrive (q ∷ ps)) good.0 ends.0 (omega arith)
    ∙ (>>=-ok _ (query_loop-received (q ∷ ps) (room - 16) ends.1 good.1 (omega arith))
        ∙ ap (λ l. ok (true, l ++ received (q ∷ ps))) (data_of-IsData p good.0).0)

module _ (radio : ℕ → Bool) (works : (i : ℕ) → radio i ≡ true) (stack : Pkt)
    (whole : length stack.t_pkt ≡ 28) (chunk_id : ℕ) (bytes : List ℕ) (from total : ℕ)
    (inside : from + total ≤ length bytes) (small : from + total + 16 < 2 ^ 32) where
  -- Where every packet can be sent and arrives, the part asked for is not empty, lies in the memory
  -- of the chunk and is at most CHUNK_SIZE, its end with 16 more is below 2 ^ 32, a packet has 28
  -- bytes behind its head, and there are as many rounds as packets: the loop of the chunk server
  -- returns, and from its packets the loop of `dfs_client_query_chunk_data`, with a buffer of
  -- CHUNK_SIZE bytes, receives that part, filled up with less than 16 zeros, and ends.
  pub query_loop-send_chunk :
      (rounds : ℕ)
      → 0 < total
      → total ≤ 16 * rounds
      → total ≤ chunk_size
      → (pkts : List Pkt) × (pad : ℕ) × (send_chunk rounds radio 0 stack chunk_id bytes from total 0
          ≡ ok pkts)
        × (pad < 16)
        × (query_loop chunk_size (all_arrive pkts)
            ≡ ok (true, take total (drop from bytes) ++ replicate pad 0))
  query_loop-send_chunk rounds some_bytes enough fits =
      let (pkts, e, (pad, few, data_is), ends, good) =
        send_chunk-PartOf radio works stack whole chunk_id bytes from total inside small rounds
          some_bytes enough in
      let part = take total (drop from bytes) in
      let zeros : List ℕ = replicate pad 0 in
      let count : 16 * length pkts ≡ total + pad =
        let l1 = length-received pkts good in
        let l2 : length (received pkts) ≡ length (part ++ zeros) = ap length data_is in
        let l3 = length-append part zeros in
        let l4 : length zeros ≡ pad = length-replicate {A = ℕ} pad 0 in
        let l5 = length-take total (drop from bytes) in
        let l6 = length-drop from bytes in omega arith in
      (
        pkts,
        pad,
        e,
        few,
        query_loop-received pkts chunk_size ends good (omega arith)
            ∙ ap (λ l. ok (true, l)) data_is,
      )
