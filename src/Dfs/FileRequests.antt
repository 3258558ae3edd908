-- ===== src/Dfs/FileRequests.antt =====
-- dfs/dfs-master.c: the requests of a client that are about files: to read, to create, to remove and
-- to write one. The master answers where a chunk is; the data goes to the chunk server.
use dfs_pios_ro.Base.{
  none, some, Outcome, ok, ℕ, List, if◌then◌else◌, ◌>>=◌, ◌^◌, ◌-◌, leb, elem_at, ltb, u32, ◌==◌,
  [], not, ◌+◌, ◌∷◌, false,
}
use dfs_pios_ro.Dfs.Packets.{
  Pkt, Sent, set_op, set_bytes, set_word, set_status, status_success, status_failed, dfs_rd, dfs_wr,
  dfs_cr, dfs_rm, file_name, file_name_bytes, chunk_id_sqn,
}
use dfs_pios_ro.Dfs.Master.{get_server_for_new_chunk, dfs_max_conn}
use dfs_pios_ro.Dfs.Chunks.{get_chunk_num, get_chunks, add_chunk_server}
use dfs_pios_ro.Dfs.Requests.{Node, send_all, request_name, has_char}
use dfs_pios_ro.Fat32.Calls.{fs_create, fs_delete, dir_same}
use dfs_pios_ro.Fat32.Directory.{PiDirent}
use dfs_pios_ro.Fat32.Disk.{SdCard}

-- The answer that tells where a chunk is.
abbrev pub located : Pkt → Pkt → ℕ → ℕ → Pkt
located stack p chunk_id addr =
    set_bytes (set_word (set_word (set_status stack status_success) 0 chunk_id) 8 addr) 16
      (file_name_bytes p)

-- -1 as an address.
abbrev pub no_address : ℕ
no_address = 2 ^ 32 - 1

-- What is known of the chunk that a client writes: its id and its server, or that there is none.
pub data Place : Type 0 where
  at : ℕ → ℕ → Place
  nowhere : Place

abbrev pub wr_answer : Pkt → Pkt → Place → Pkt
wr_answer stack p (at chunk_id addr) = located (set_op stack dfs_wr) p chunk_id addr
wr_answer stack p nowhere = set_status (set_op stack dfs_wr) status_failed

module _ {W : Type 0} (sd : SdCard W) (fuel : ℕ) (root : PiDirent) (stack : Pkt) where
  -- The answer to DFS_RD.
  unfoldable pub rd_answer : Node W → Pkt → Outcome Pkt
  rd_answer n p = do
    let pkt = set_op stack dfs_rd
    filename ← file_name p
    chunk_num ← get_chunk_num sd fuel root n.sys n.mirror filename
    if leb chunk_num (chunk_id_sqn p)
        then ok (
            if chunk_id_sqn p == 0
            then set_word (set_status pkt status_success) 12 0
            else set_status pkt status_failed)
        else (do
          handle ← get_chunks sd fuel root n.sys n.mirror filename (chunk_id_sqn p)
          ok (
              if handle.addr0 == no_address
              then set_status pkt status_failed
              else set_word (located pkt p handle.chunk_id handle.addr0) 12 1))

  unfoldable pub on_rd : Node W → Pkt → Outcome (Node W × List Sent)
  unfolding rd_answer
  on_rd n p = if leb dfs_max_conn p.port_id then ok (n, []) else (do
    client_addr ← elem_at n.master.client_addrs p.port_id
    answer ← rd_answer n p
    ok (n, send_all client_addr (answer ∷ [])))

  -- A name without a dot is a directory's.
  unfoldable pub on_cr : Node W → Pkt → Outcome (Node W × List Sent)
  on_cr n p = if leb dfs_max_conn p.port_id then ok (n, []) else (do
    client_addr ← elem_at n.master.client_addrs p.port_id
    filename ← request_name p
    (done, mirror, sys) ←
        fs_create sd fuel root n.sys n.mirror dir_same filename (not (has_char b'.' filename)) false
    let answer = set_bytes (set_status (set_op stack dfs_cr) status_success) 16 (file_name_bytes p)
    ok (record n { mirror = mirror; sys = sys }, send_all client_addr (answer ∷ [])))

  unfoldable pub on_rm : Node W → Pkt → Outcome (Node W × List Sent)
  on_rm n p = if leb dfs_max_conn p.port_id then ok (n, []) else (do
    client_addr ← elem_at n.master.client_addrs p.port_id
    filename ← request_name p
    (done, sys) ← fs_delete sd fuel root n.sys n.mirror dir_same filename
    let answer = set_bytes (set_status (set_op stack dfs_rm) status_success) 16 (file_name_bytes p)
    ok (record n { sys = sys }, send_all client_addr (answer ∷ [])))

  -- A chunk behind the last of the file: the server that gets it, or none.
  unfoldable pub new_chunk : Node W → Pkt → ℕ → Outcome (Node W × Place)
  new_chunk n p chunk_num = do
    (server_id, master) ← get_server_for_new_chunk n.master
    let n' = record n { master = master }
    elim server_id [
      | none ↦ ok (n', nowhere)
      | some i ↦ (do
        server ← elem_at n'.master.chunkservers i
        filename ← file_name p
        sys ←
            add_chunk_server sd fuel root n'.sys n'.mirror filename n'.chunk_id chunk_num
              server.addr
        ok (record n' { sys = sys; chunk_id = u32 (n'.chunk_id + 1) }, at n'.chunk_id server.addr))
    ]

  -- For a chunk that the file has, the id is `chunk_num`, as in the code.
  unfoldable pub find_place : Node W → Pkt → ℕ → Outcome (Node W × Place)
  unfolding new_chunk
  find_place n p chunk_num =
      if ltb (chunk_id_sqn p) chunk_num
      then (do
        filename ← file_name p
        handle ← get_chunks sd fuel root n.sys n.mirror filename (chunk_id_sqn p)
        ok (n, at chunk_num handle.addr0))
      else if chunk_id_sqn p == chunk_num
      then new_chunk n p chunk_num
      else ok (n, nowhere)

  unfoldable pub on_wr : Node W → Pkt → Outcome (Node W × List Sent)
  unfolding find_place
  on_wr n p = if leb dfs_max_conn p.port_id then ok (n, []) else (do
    client_addr ← elem_at n.master.client_addrs p.port_id
    filename ← file_name p
    chunk_num ← get_chunk_num sd fuel root n.sys n.mirror filename
    (n', place) ← find_place n p chunk_num
    ok (n', send_all client_addr (wr_answer stack p place ∷ [])))
