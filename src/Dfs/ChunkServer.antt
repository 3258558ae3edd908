-- ===== src/Dfs/ChunkServer.antt =====
-- dfs/dfs-chunkserver.c and dfs/dfs-chunk-fat.c: a chunk server, which keeps each chunk in a file and
-- sends and receives it in packets of 16 bytes. `radio` and `stack` are as for the master, and
-- `spare` is what `kmalloc` leaves in the byte behind the 16 that are copied.
pub mod Data
pub mod Reading
use dfs_pios_ro.Base.{
  none, some, Option, Outcome, ok, List, ℕ, Bool, false, ◌>>◌, take, if◌then◌else◌, ◌++◌, ◌>>=◌,
  drop, ◌==◌, leb, ◌%◌, replicate, ltb, assert, ◌∷◌, u32, ◌+◌, out_of_fuel, true, ◌*◌, ◌||◌, [],
  set, ◌-◌, suc, ◌^◌, panic, elem_at, length, fault, not, zero,
}
use dfs_pios_ro.Dfs.Packets.{
  Pkt, Sent, set_op, set_bytes, set_word, set_status, status_success, dfs_rd, dfs_end_rd, dfs_wr,
  dfs_end_wr, dfs_rm, dfs_acp, dfs_rej, dfs_cnct, dfs_hb, nbytes, offset, chunk_id_sqn,
}
use dfs_pios_ro.Dfs.Master.{dfs_max_conn, scan_ports}
use dfs_pios_ro.Dfs.FileNames.{int_to_filename}
use dfs_pios_ro.Dfs.Requests.{send_all}
use dfs_pios_ro.Fat32.Calls.{Mirror, fs_create, fs_delete, fs_read, fs_append, dir_home}
use dfs_pios_ro.Fat32.Directory.{PiDirent}
use dfs_pios_ro.Fat32.Disk.{SdCard, System}
use dfs_pios_ro.Fat32.Dirent.{word_at}
use dfs_pios_ro.Fat32.Names.{c_string}

-- `dfs_chunkserver_t`, with `n_conns` of its `nrf`, and the static mirror.
pub record ChunkServer (W : Type 0) : Type 0 where
  pub addr : ℕ
  pub id : ℕ
  pub client_addrs : List ℕ
  pub n_conns : ℕ
  pub mirror : Mirror
  pub sys : System W

abbrev pub chunk_server_pkt_size : ℕ
chunk_server_pkt_size = 16

-- The constant `client_addr` of nrf-default-values.h, which the case DFS_END_WR names.
abbrev pub default_client_addr : ℕ
default_client_addr = 0xe6e6e6

-- `try_assign_port` of the chunk server, behind its loop.
unfoldable pub take_port :
    {W : Type 0} → ChunkServer W → ℕ → Option ℕ × Option ℕ → Outcome (Option ℕ × ChunkServer W)
take_port c client_addr (some i, first_idle) = ok (some i, c)
take_port c client_addr (none, none) = do assert (c.n_conns == dfs_max_conn); ok (none, c)
take_port c client_addr (none, some i) = ok (
  some i,
  record c { client_addrs = set c.client_addrs i client_addr; n_conns = u32 (c.n_conns + 1) },
)

-- `memcpy` of `n` bytes from the data of the chunk.
abbrev pub slice : List ℕ → ℕ → ℕ → Outcome (List ℕ)
slice bytes from n = if leb (from + n) (length bytes) then ok (take n (drop from bytes)) else fault

-- The number of bytes to send, of `n_data` in the chunk.
unfoldable pub bytes_to_send : ℕ → ℕ → ℕ → ℕ
bytes_to_send n_data from n =
    if leb n_data from
    then n
    else if ltb n_data (u32 (from + n))
    then u32 (n_data + 2 ^ 32 - from)
    else n

-- The packet with `n` bytes of the chunk from `cur_offset` on.
unfoldable pub data_pkt : Pkt → ℕ → ℕ → ℕ → ℕ → List ℕ → Pkt
data_pkt stack op chunk_id cur_offset n bytes =
    let pkt = set_status (set_word (set_op stack op) 0 chunk_id) status_success in
    set_bytes (set_word pkt 8 cur_offset) 12 (bytes ++ replicate (chunk_server_pkt_size - n) 0)

-- The packet of a round of the loop that sends a chunk, of which `sent` bytes have been sent.
unfoldable pub round_pkt : Pkt → ℕ → List ℕ → ℕ → ℕ → ℕ → Outcome Pkt
unfolding data_pkt
round_pkt stack chunk_id bytes from total sent = do
  let cur_offset = u32 (from + sent)
  let left = u32 (total + 2 ^ 32 - sent)
  let last = leb left chunk_server_pkt_size
  let n = if last then left else chunk_server_pkt_size
  part ← slice bytes cur_offset n
  ok (data_pkt stack (if last then dfs_end_rd else dfs_rd) chunk_id cur_offset n part)

-- The loop, with packet `i` next.
unfoldable pub send_chunk : ℕ → (ℕ → Bool) → ℕ → Pkt → ℕ → List ℕ → ℕ → ℕ → ℕ → Outcome (List Pkt)
unfolding round_pkt
send_chunk zero radio i stack chunk_id bytes from total sent =
    if ltb sent total then out_of_fuel else ok []
send_chunk (suc rounds) radio i stack chunk_id bytes from total sent =
    if not (ltb sent total) then ok [] else (do
      pkt ← round_pkt stack chunk_id bytes from total sent
      elim (radio i) [
        | false ↦ ok (pkt ∷ [])
        | true ↦ (do
          later ←
              send_chunk rounds radio (i + 1) stack chunk_id bytes from total
                (u32 (sent + chunk_server_pkt_size))
          ok (pkt ∷ later))
      ])

-- The C string in the copy of the data of a packet.
abbrev pub text_of : Pkt → ℕ → Outcome (List ℕ)
text_of p spare =
    let copy = take chunk_server_pkt_size (drop 12 p.t_pkt) ++ (spare ∷ []) in
    if length (c_string copy) == length copy then fault else ok (c_string copy)

module _ {W : Type 0} (sd : SdCard W) (fuel : ℕ) (root : PiDirent) where
  unfoldable pub create_chunk : ChunkServer W → ℕ → Outcome (Bool × ChunkServer W)
  unfolding int_to_filename
  create_chunk c chunk_id = do
    (done, mirror, sys) ←
        fs_create sd fuel root c.sys c.mirror dir_home (int_to_filename chunk_id false) false false
    ok (done, record c { mirror = mirror; sys = sys })

  unfoldable pub append_chunk : ChunkServer W → ℕ → List ℕ → ℕ → Outcome (Bool × ChunkServer W)
  unfolding int_to_filename
  append_chunk c chunk_id text spare = do
    (done, sys) ←
        fs_append sd fuel root c.sys c.mirror dir_home (int_to_filename chunk_id false) text spare
    ok (done, record c { sys = sys })

  unfoldable pub delete_chunk : ChunkServer W → ℕ → Outcome (Bool × ChunkServer W)
  unfolding int_to_filename
  delete_chunk c chunk_id = do
    (done, sys) ← fs_delete sd fuel root c.sys c.mirror dir_home (int_to_filename chunk_id false)
    ok (done, record c { sys = sys })

  unfoldable pub read_chunk : ChunkServer W → ℕ → Outcome (List ℕ × ℕ)
  unfolding int_to_filename
  read_chunk c chunk_id =
      fs_read sd fuel root c.sys c.mirror dir_home (int_to_filename chunk_id false)

module _ {W : Type 0} (sd : SdCard W) (fuel : ℕ) (root : PiDirent) (radio : ℕ → Bool) (stack : Pkt)
    (spare : ℕ) where
  abbrev pub port_answer : Option ℕ → Pkt
  port_answer none = set_op stack dfs_rej
  port_answer (some i) = record (set_op stack dfs_acp) { port_id = i }

  unfoldable pub accept : ChunkServer W → Pkt → Outcome (ChunkServer W × List Sent)
  unfolding take_port
  accept c p = do
    let client_addr = word_at p.t_pkt 0
    (port_id, c') ← take_port c client_addr (scan_ports 0 c.client_addrs client_addr none)
    ok (c', send_all client_addr (port_answer port_id ∷ []))

  unfoldable pub beat : ChunkServer W → Pkt → List Sent
  beat c p =
      let pkt = record (set_op stack dfs_hb) { port_id = c.id % 256 } in
      let pkt' = set_word (set_word pkt 0 (word_at p.t_pkt 0)) 4 c.addr in
      send_all (word_at p.t_pkt 4) (set_word (set_word pkt' 8 0) 12 (32 * 1024) ∷ [])

  -- `rounds` bounds the packets of one answer.
  unfoldable pub serve_read : ℕ → ChunkServer W → Pkt → Outcome (ChunkServer W × List Sent)
  unfolding read_chunk bytes_to_send send_chunk
  serve_read rounds c p = if leb dfs_max_conn p.port_id then ok (c, []) else (do
    client_addr ← elem_at c.client_addrs p.port_id
    (bytes, n_data) ← read_chunk sd fuel root c (chunk_id_sqn p)
    let total = bytes_to_send n_data (offset p) (nbytes p)
    pkts ← send_chunk rounds radio 0 stack (chunk_id_sqn p) bytes (offset p) total 0
    ok (c, send_all client_addr pkts))

  unfoldable pub serve_write : ChunkServer W → Pkt → Outcome (ChunkServer W)
  unfolding create_chunk append_chunk
  serve_write c p = do
    (made, c') ←
        if offset p == 0 then create_chunk sd fuel root c (chunk_id_sqn p) else ok (true, c)
    text ← text_of p spare
    (done, c'') ← append_chunk sd fuel root c' (chunk_id_sqn p) text spare
    ok c''

  -- The switch of `dfs_chunkserver_main_start`: DFS_RM falls through to DFS_WR.
  unfoldable pub serve : ℕ → ChunkServer W → Pkt → Outcome (ChunkServer W × List Sent)
  unfolding accept beat serve_read serve_write
  serve rounds c p =
      let op = p.op_code in
      if op == dfs_cnct
      then accept c p
      else if op == dfs_hb
      then ok (c, beat c p)
      else if op == dfs_rd
      then serve_read rounds c p
      else if (op == dfs_rm) || (op == dfs_wr)
      then (do c' ← serve_write c p; ok (c', []))
      else if op == dfs_end_wr
      then (do
        c' ← serve_write c p
        let answer = set_status (set_op stack dfs_end_wr) status_success
        ok (c', send_all default_client_addr (answer ∷ [])))
      else panic
