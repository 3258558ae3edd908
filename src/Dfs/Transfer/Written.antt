-- ===== src/Dfs/Transfer/Written.antt =====
-- dfs/dfs-client.c and dfs/dfs-chunkserver.c: the text that a chunk server takes out of the packets
-- of a client that writes.
use dfs_pios_ro.Base.{
  Outcome, ok, List, length, ℕ, drop, ◌∷◌, ◌≡◌, replicate, ◌>>=◌, ◌+◌, ◌++◌, ◌-◌, [], ◌<◌, ◌^◌, ◌≤◌,
  suc, length-replicate, take, zero, u32, Bool, true, refl, arith, ap, lt→ltb, ◌∙◌, ltb-false_of_le,
  leb-false_of_lt, ◌*◌, le→leb, dec_lt, length-append, sym, append_assoc, drop-drop, ◌≢◌,
  ==-false_of_ne, take-append-drop, >>=-ok, length-drop, append-nil, take-all,
}
use dfs_pios_ro.Dfs.Packets.{Pkt, put_bytes, dfs_wr, dfs_end_wr, EndsOnce, EndsOnce-more}
use dfs_pios_ro.Dfs.Packets.Layout.{drop-put_bytes, length-put_word}
use dfs_pios_ro.Dfs.Client.{Connection}
use dfs_pios_ro.Dfs.ChunkServer.{text_of}
use dfs_pios_ro.Dfs.ChunkServer.Data.{slice-in}
use dfs_pios_ro.Dfs.Requests.Paging.{NoEnd, NoEnd-take, NoEnd-drop, c_string-append}
use dfs_pios_ro.Dfs.Transfer.{write_pkt, write_loop}
use dfs_pios_ro.Fat32.Names.{c_string}
use dfs_pios_ro.Fat32.Clusters.{word_bytes}

-- The texts of packets, one behind the other.
abbrev pub texts : List Pkt → Outcome (List ℕ)
texts [] = ok []
texts (p ∷ ps) = do t ← text_of p 0; rest ← texts ps; ok (t ++ rest)

zeros-end : (n : ℕ) → (tail : List ℕ) × (replicate n 0 ++ (0 ∷ []) ≡ 0 ∷ tail)
zeros-end zero = ([], refl)
zeros-end (suc n) = (replicate n 0 ++ (0 ∷ []), refl)

text_of-part :
    (p : Pkt) (n : ℕ) (part : List ℕ)
    → drop 12 p.t_pkt ≡ part ++ replicate (16 - n) 0
    → length part ≡ n
    → n ≤ 16
    → NoEnd part
    → text_of p 0 ≡ ok part
text_of-part p n part e len le h =
    let zeros : List ℕ = replicate (16 - n) 0 in
    let pad : length zeros ≡ 16 - n = length-replicate {A = ℕ} (16 - n) 0 in
    let copy : List ℕ = take 16 (drop 12 p.t_pkt) ++ (0 ∷ []) in
    let (tail, ends) = zeros-end (16 - n) in
    let whole : take 16 (drop 12 p.t_pkt) ≡ part ++ zeros =
      ap (take 16) e ∙ take-all 16 (part ++ zeros) (omega (arith, length-append part zeros)) in
    let copied : copy ≡ part ++ (0 ∷ tail) =
      ap (λ l. l ++ (0 ∷ [])) whole
      ∙ (append_assoc part zeros (0 ∷ []) ∙ ap (λ l. part ++ l) ends) in
    let text : c_string copy ≡ part = ap c_string copied ∙ c_string-append part tail h in
    let size : length copy ≡ length (part ++ (0 ∷ tail)) = ap length copied in
    let differs : length (c_string copy) ≢ length copy =
      λ same. absurd (omega (arith, ap length text, size, same, length-append part (0 ∷ tail))) in
    rw (==-false_of_ne (length (c_string copy)) (length copy) differs) (ap ok text)

module _ (stack : Pkt) (whole : length stack.t_pkt ≡ 28) (conn : Connection) (chunk_id : ℕ)
    (bytes : List ℕ) (small : length bytes + 16 < 2 ^ 32) (h : NoEnd bytes) where
  -- A packet with `n` of the bytes.
  abbrev packed : ℕ → ℕ → ℕ → Pkt
  packed op sent n = record {
    op_code = op;
    port_id = conn.port_id;
    t_pkt =
        put_bytes
          (put_bytes (put_bytes stack.t_pkt 0 (word_bytes (chunk_id ∷ []))) 8
            (word_bytes (sent ∷ [])))
          12 (take n (drop sent bytes) ++ replicate (16 - n) 0);
  }

  text_of-packed :
      (op sent n : ℕ)
      → sent + n ≤ length bytes
      → n ≤ 16
      → text_of (packed op sent n) 0 ≡ ok (take n (drop sent bytes))
  text_of-packed op sent n inside le =
      let part = take n (drop sent bytes) in
      let zeros : List ℕ = replicate (16 - n) 0 in
      let b1 = put_bytes stack.t_pkt 0 (word_bytes (chunk_id ∷ [])) in
      let b2 = put_bytes b1 8 (word_bytes (sent ∷ [])) in
      let l1 : length b1 ≡ 28 = length-put_word stack.t_pkt 0 chunk_id (omega arith) ∙ whole in
      let l2 : length b2 ≡ 28 = length-put_word b1 8 sent (omega arith) ∙ l1 in
      let pad : length zeros ≡ 16 - n = length-replicate {A = ℕ} (16 - n) 0 in
      let len = (slice-in bytes sent n inside).1 in
      text_of-part (packed op sent n) n part
        (drop-put_bytes b2 12 (part ++ zeros) (omega (arith, l2, length-append part zeros, pad)))
        len le (NoEnd-take n (drop sent bytes) (NoEnd-drop sent bytes h))

  write_pkt-more :
      (sent : ℕ)
      → sent + 16 < length bytes
      → write_pkt stack conn chunk_id bytes (length bytes) sent ≡ ok (packed dfs_wr sent 16)
  unfolding write_pkt
  write_pkt-more sent lt =
      let e2 : u32 (length bytes + 2 ^ 32 - sent) ≡ length bytes - sent = omega arith in
      let e3 = leb-false_of_lt (length bytes - sent) 16 (omega arith) in
      rw (e2, e3, (slice-in bytes sent 16 (omega arith)).0) refl

  write_pkt-last :
      (sent : ℕ)
      → sent < length bytes
      → length bytes ≤ sent + 16
      → write_pkt stack conn chunk_id bytes (length bytes) sent
        ≡ ok (packed dfs_end_wr sent (length bytes - sent))
  unfolding write_pkt
  write_pkt-last sent lt le =
      let e2 : u32 (length bytes + 2 ^ 32 - sent) ≡ length bytes - sent = omega arith in
      let e3 = le→leb (length bytes - sent) 16 (omega arith) in
      rw (e2, e3, (slice-in bytes sent (length bytes - sent) (omega arith)).0) refl

  module _ (radio : ℕ → Bool) (works : (i : ℕ) → radio i ≡ true) where
    write_loop-done :
        (rounds i sent : ℕ)
        → length bytes ≤ sent
        → write_loop rounds radio i stack conn chunk_id bytes (length bytes) sent ≡ ok (true, [])
    unfolding write_loop
    write_loop-done zero i sent le = rw (ltb-false_of_le sent (length bytes) le) refl
    write_loop-done (suc rounds) i sent le = rw (ltb-false_of_le sent (length bytes) le) refl

    write_loop-step :
        (rounds i sent : ℕ) (pkt : Pkt)
        → sent < length bytes
        → write_pkt stack conn chunk_id bytes (length bytes) sent ≡ ok pkt
        → write_loop (suc rounds) radio i stack conn chunk_id bytes (length bytes) sent ≡ (do
          (all_sent, later) ←
              write_loop rounds radio (i + 1) stack conn chunk_id bytes (length bytes) (sent + 16)
          ok (all_sent, pkt ∷ later))
    unfolding write_loop
    write_loop-step rounds i sent pkt lt e =
        let e3 : u32 (sent + 16) ≡ sent + 16 = omega arith in
        rw (lt→ltb sent (length bytes) lt, e, works i, e3) refl

    -- What is sent from byte `sent` on.
    abbrev Writes : ℕ → Outcome (Bool × List Pkt) → Type 0
    Writes sent r =
        (pkts : List Pkt) × (r ≡ ok (true, pkts))
        × (texts pkts ≡ ok (drop sent bytes))
        × EndsOnce dfs_wr dfs_end_wr pkts

    write_loop-Writes :
        (rounds i sent : ℕ)
        → sent < length bytes
        → length bytes ≤ sent + 16 * rounds
        → Writes sent (write_loop rounds radio i stack conn chunk_id bytes (length bytes) sent)
    write_loop-Writes zero i sent lt enough = absurd (omega arith)
    write_loop-Writes (suc rounds) i sent lt enough = elim (dec_lt (sent + 16) (length bytes)) [
      | yes more ↦
          let (pkts, e, shown, ends) =
            write_loop-Writes rounds (i + 1) (sent + 16) more (omega arith) in
          let pkt = packed dfs_wr sent 16 in
          let joint : take 16 (drop sent bytes) ++ drop (sent + 16) bytes ≡ drop sent bytes =
            ap (λ l. take 16 (drop sent bytes) ++ l) (sym (drop-drop sent 16 bytes))
            ∙ take-append-drop 16 (drop sent bytes) in
          (
            pkt ∷ pkts,
            write_loop-step rounds i sent pkt lt (write_pkt-more sent more) ∙ >>=-ok _ e,
            >>=-ok _ (text_of-packed dfs_wr sent 16 (omega arith) (omega arith))
                ∙ (>>=-ok _ shown ∙ ap ok joint),
            EndsOnce-more dfs_wr dfs_end_wr pkt pkts refl ends,
          )
      | no last ↦
          let n = length bytes - sent in
          let pkt = packed dfs_end_wr sent n in
          let all : take n (drop sent bytes) ≡ drop sent bytes =
            take-all n (drop sent bytes) (omega (arith, length-drop sent bytes)) in
          (
            pkt ∷ [],
            write_loop-step rounds i sent pkt lt (write_pkt-last sent lt (omega arith))
                ∙ >>=-ok _ (write_loop-done rounds (i + 1) (sent + 16) (omega arith)),
            >>=-ok _ (text_of-packed dfs_end_wr sent n (omega arith) (omega arith))
                ∙ ap ok (append-nil (take n (drop sent bytes)) ∙ all),
            refl,
          )
    ]

    -- Where every packet can be sent, for data of at least one byte and no zero byte, whose length
    -- with 16 more is below 2 ^ 32, a packet with 28 bytes behind its head, and as many rounds as
    -- packets: the loop of `dfs_client_write_chunk_data` sends everything, and the texts that a
    -- chunk server takes out of the packets are, put together, the data; only the last packet is
    -- DFS_END_WR.
    pub write_loop-texts :
        (rounds : ℕ)
        → 0 < length bytes
        → length bytes ≤ 16 * rounds
        → (pkts : List Pkt) × (write_loop rounds radio 0 stack conn chunk_id bytes (length bytes) 0
            ≡ ok (true, pkts))
          × (texts pkts ≡ ok bytes)
          × EndsOnce dfs_wr dfs_end_wr pkts
    write_loop-texts rounds some_bytes enough =
        write_loop-Writes rounds 0 0 some_bytes (omega arith)
