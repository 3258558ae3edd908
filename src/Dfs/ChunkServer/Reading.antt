-- ===== src/Dfs/ChunkServer/Reading.antt =====
-- dfs/dfs-chunkserver.c: the packets in which a part of a chunk is sent.
use dfs_pios_ro.Dfs.ChunkServer.Data.{
  received, IsData, data_pkt-received, data_pkt-IsData, data_pkt-op, slice-in,
}
use dfs_pios_ro.Base.{
  Outcome, ok, length, List, ◌≡◌, ℕ, ◌∷◌, ◌≤◌, ◌+◌, arith, drop, ◌++◌, [], ◌∙◌, replicate, take,
  ◌-◌, append-nil, le→leb, Bool, refl, true, ltb-false_of_le, ◌<◌, ◌^◌, suc, zero, ◌>>=◌, u32,
  lt→ltb, leb-false_of_lt, ◌*◌, sym, dec_lt, subst, drop-drop, take-add, >>=-ok, append_assoc, All,
}
use dfs_pios_ro.Dfs.Packets.{Pkt, dfs_rd, dfs_end_rd, EndsOnce, EndsOnce-more}
use dfs_pios_ro.Dfs.ChunkServer.{round_pkt, send_chunk, data_pkt}

module _ (radio : ℕ → Bool) (works : (i : ℕ) → radio i ≡ true) (stack : Pkt) (chunk_id : ℕ)
    (bytes : List ℕ) (from total : ℕ) where
  send_chunk-done :
      (rounds i sent : ℕ)
      → total ≤ sent
      → send_chunk rounds radio i stack chunk_id bytes from total sent ≡ ok []
  unfolding send_chunk
  send_chunk-done zero i sent le = rw (ltb-false_of_le sent total le) refl
  send_chunk-done (suc rounds) i sent le = rw (ltb-false_of_le sent total le) refl

  send_chunk-step :
      (rounds i sent : ℕ) (pkt : Pkt)
      → sent < total
      → sent + 16 < 2 ^ 32
      → round_pkt stack chunk_id bytes from total sent ≡ ok pkt
      → send_chunk (suc rounds) radio i stack chunk_id bytes from total sent ≡ (do
        later ← send_chunk rounds radio (i + 1) stack chunk_id bytes from total (sent + 16)
        ok (pkt ∷ later))
  unfolding send_chunk
  send_chunk-step rounds i sent pkt lt small e =
      let e3 : u32 (sent + 16) ≡ sent + 16 = omega arith in
      rw (lt→ltb sent total lt, e, works i, e3) refl

-- The packet of a round before the last one, and of the last.
module _ (stack : Pkt) (chunk_id : ℕ) (bytes : List ℕ) (from total : ℕ)
    (inside : from + total ≤ length bytes) (small : from + total + 16 < 2 ^ 32) where
  round_pkt-more :
      (sent : ℕ)
      → sent + 16 < total
      → round_pkt stack chunk_id bytes from total sent
        ≡ ok (data_pkt stack dfs_rd chunk_id (from + sent) 16 (take 16 (drop (from + sent) bytes)))
  unfolding round_pkt
  round_pkt-more sent lt =
      let e1 : u32 (from + sent) ≡ from + sent = omega arith in
      let e2 : u32 (total + 2 ^ 32 - sent) ≡ total - sent = omega arith in
      let e3 = leb-false_of_lt (total - sent) 16 (omega arith) in
      rw (e1, e2, e3, (slice-in bytes (from + sent) 16 (omega arith)).0) refl

  round_pkt-last :
      (sent : ℕ)
      → sent < total
      → total ≤ sent + 16
      → round_pkt stack chunk_id bytes from total sent
        ≡ ok (
            data_pkt stack dfs_end_rd chunk_id
              (from + sent)
              (total - sent)
              (take (total - sent) (drop (from + sent) bytes)))
  unfolding round_pkt
  round_pkt-last sent lt le =
      let e1 : u32 (from + sent) ≡ from + sent = omega arith in
      let e2 : u32 (total + 2 ^ 32 - sent) ≡ total - sent = omega arith in
      let e3 = le→leb (total - sent) 16 (omega arith) in
      rw (e1, e2, e3, (slice-in bytes (from + sent) (total - sent) (omega arith)).0) refl

-- What the packets of a part of the bytes are: the data, filled up with zeros.
abbrev pub PartOf : List ℕ → Outcome (List Pkt) → Type 0
PartOf part r =
    (pkts : List Pkt) × (r ≡ ok pkts)
    × ((pad : ℕ) × (pad < 16) × (received pkts ≡ part ++ replicate pad 0))
    × EndsOnce dfs_rd dfs_end_rd pkts
    × All IsData pkts

module _ (radio : ℕ → Bool) (works : (i : ℕ) → radio i ≡ true) (stack : Pkt)
    (whole : length stack.t_pkt ≡ 28) (chunk_id : ℕ) (bytes : List ℕ) (from total : ℕ)
    (inside : from + total ≤ length bytes) (small : from + total + 16 < 2 ^ 32) where
  last-PartOf :
      (rounds i sent : ℕ)
      → sent < total
      → total ≤ sent + 16
      → PartOf
          (take (total - sent) (drop (from + sent) bytes))
          (send_chunk (suc rounds) radio i stack chunk_id bytes from total sent)
  last-PartOf rounds i sent lt le =
      let n = total - sent in
      let part = take n (drop (from + sent) bytes) in
      let (sliced, len) = slice-in bytes (from + sent) n (omega arith) in
      (
        data_pkt stack dfs_end_rd chunk_id (from + sent) n part ∷ [],
        send_chunk-step radio works stack chunk_id bytes from total rounds i sent _ lt (omega arith)
              (round_pkt-last stack chunk_id bytes from total inside small sent lt le)
            ∙ >>=-ok _ (
                send_chunk-done radio works stack chunk_id bytes from total rounds (i + 1)
                  (sent + 16) le),
        (
          16 - n,
          omega arith,
          append-nil _
              ∙ data_pkt-received stack whole chunk_id dfs_end_rd (from + sent) n part len
                  (omega arith),
        ),
        data_pkt-op stack whole chunk_id dfs_end_rd (from + sent) n part,
        (
          data_pkt-IsData stack whole chunk_id dfs_end_rd (from + sent) n part len (omega arith),
          tt,
        ),
      )

  more-PartOf :
      (rounds i sent : ℕ)
      → sent + 16 < total
      → PartOf
          (take (total - (sent + 16)) (drop (from + (sent + 16)) bytes))
          (send_chunk rounds radio (i + 1) stack chunk_id bytes from total (sent + 16))
      → PartOf
          (take (total - sent) (drop (from + sent) bytes))
          (send_chunk (suc rounds) radio i stack chunk_id bytes from total sent)
  more-PartOf rounds i sent lt (pkts, e, (pad, few, data_of), ends, good) =
      let here = drop (from + sent) bytes in
      let part = take 16 here in
      let (sliced, len) = slice-in bytes (from + sent) 16 (omega arith) in
      let pkt = data_pkt stack dfs_rd chunk_id (from + sent) 16 part in
      let first : drop 12 pkt.t_pkt ≡ part =
        data_pkt-received stack whole chunk_id dfs_rd (from + sent) 16 part len (omega arith)
        ∙ append-nil part in
      let joint : take (total - sent) here
          ≡ part ++ take (total - (sent + 16)) (drop (from + (sent + 16)) bytes) =
        let count : total - sent ≡ 16 + (total - (sent + 16)) = omega arith in
        let place : from + (sent + 16) ≡ from + sent + 16 = omega arith in
        rw (count, place, sym (drop-drop (from + sent) 16 bytes))
          (take-add 16 (total - (sent + 16)) here) in
      (
        pkt ∷ pkts,
        send_chunk-step radio works stack chunk_id bytes from total rounds i sent _ (omega arith)
              (omega arith) (round_pkt-more stack chunk_id bytes from total inside small sent lt)
            ∙ >>=-ok _ e,
        (
          pad,
          few,
          rw (first, data_of, joint)
              (sym (
                append_assoc part (take (total - (sent + 16)) (drop (from + (sent + 16)) bytes))
                  (replicate pad 0))),
        ),
        EndsOnce-more dfs_rd dfs_end_rd pkt pkts
            (data_pkt-op stack whole chunk_id dfs_rd (from + sent) 16 part) ends,
        (data_pkt-IsData stack whole chunk_id dfs_rd (from + sent) 16 part len (omega arith), good),
      )

  send_chunk-from :
      (rounds i sent : ℕ)
      → sent < total
      → total ≤ sent + 16 * rounds
      → PartOf
          (take (total - sent) (drop (from + sent) bytes))
          (send_chunk rounds radio i stack chunk_id bytes from total sent)
  send_chunk-from zero i sent lt enough = absurd (omega arith)
  send_chunk-from (suc rounds) i sent lt enough = elim (dec_lt (sent + 16) total) [
    | yes more ↦
        more-PartOf rounds i sent more
          (send_chunk-from rounds (i + 1) (sent + 16) more (omega arith))
    | no last ↦ last-PartOf rounds i sent lt (omega arith)
  ]

  -- Where every packet can be sent, the part asked for is not empty and lies in the memory of the
  -- chunk, its end with 16 more is below 2 ^ 32, a packet has 28 bytes behind its head, and there
  -- are as many rounds as packets: the loop of the chunk server sends packets whose data, put
  -- together, is that part, filled up with less than 16 zeros; only the last packet is DFS_END_RD.
  pub send_chunk-PartOf :
      (rounds : ℕ)
      → 0 < total
      → total ≤ 16 * rounds
      → PartOf
          (take total (drop from bytes))
          (send_chunk rounds radio 0 stack chunk_id bytes from total 0)
  send_chunk-PartOf rounds some_bytes enough =
      let n : total - 0 ≡ total = omega arith in
      let i : from + 0 ≡ from = omega arith in
      let same : take (total - 0) (drop (from + 0) bytes) ≡ take total (drop from bytes) =
        rw (n, i) refl in
      subst (λ l. PartOf l (send_chunk rounds radio 0 stack chunk_id bytes from total 0)) same
        (send_chunk-from rounds 0 0 some_bytes (omega arith))
