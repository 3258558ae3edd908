-- ===== src/Dfs/Requests.antt =====
-- dfs/dfs-master.c: the packets that the master receives in its main loop, and what it answers. The
-- radio is a function that says whether the sending of the packet of a number succeeds; `stack` is
-- what the variable `send_pkt` holds before it is written.
pub mod Paging
use dfs_pios_ro.Base.{
  List, ℕ, Bool, Outcome, ◌>>=◌, ok, ◌∷◌, if◌then◌else◌, false, ◌==◌, [], ◌++◌, true, ltb, leb,
  length, out_of_fuel, suc, take, elem_at, fault, ◌||◌, not, ◌>>◌, ◌+◌, drop, zero,
}
use dfs_pios_ro.Base.{none, some, Option, Outcome, ok}
use dfs_pios_ro.Dfs.Packets.{
  Pkt, Sent, placeholder, set_op, set_bytes, set_word, set_status, status_success, status_failed,
  dfs_ls, dfs_end_ls, dfs_cd, dfs_rd, dfs_wr, dfs_cr, dfs_rm, dfs_acp, dfs_rej, dfs_cnct, dfs_hb,
  dfs_end_rd, dfs_retry_rd, dfs_end_wr, dfs_retry_wr, dfs_commit_wr, dfs_sd, file_name,
  file_name_bytes, nbytes, chunk_id_sqn,
}
use dfs_pios_ro.Dfs.Master.{
  Master, HbPkt, try_assign_port, hb_reply, get_server_for_new_chunk, dfs_max_conn,
}
use dfs_pios_ro.Dfs.Chunks.{ChunkMap, get_chunk_num, get_chunks, add_chunk_server}
use dfs_pios_ro.Dfs.FileNames.{digits, int_to_filename}
use dfs_pios_ro.Fat32.Calls.{
  Mirror, fs_create, fs_delete, fs_listdir, fs_changedir, dir_home, dir_same,
}
use dfs_pios_ro.Fat32.Directory.{PiDirent}
use dfs_pios_ro.Fat32.Disk.{SdCard, System}
use dfs_pios_ro.Fat32.Dirent.{word_at}
use dfs_pios_ro.Fat32.Names.{c_string}

-- The static variables, and `chunk_id` of `client_fs[0]`: `client_num` stays 0.
pub record Node (W : Type 0) : Type 0 where
  pub master : Master
  pub mirror : Mirror
  pub sys : System W
  pub chunk_id : ℕ

abbrev pub reversed : List ℕ → List ℕ → List ℕ
reversed [] done = done
reversed (c ∷ cs) done = reversed cs (c ∷ done)

-- `%d` of a number that is not negative.
unfoldable pub decimal : ℕ → List ℕ
unfolding digits
decimal n = if n == 0 then 48 ∷ [] else reversed (digits 10 n) []

-- Parts of the text: `\tD: `, `\tF: `, a line's end, ` (` and ` bytes)` with a line's end.
abbrev pub tab_d : List ℕ
tab_d = 9 ∷ b'D' ∷ b':' ∷ b' ' ∷ []

abbrev pub tab_f : List ℕ
tab_f = 9 ∷ b'F' ∷ b':' ∷ b' ' ∷ []

abbrev pub newline : List ℕ
newline = 10 ∷ []

abbrev pub open_paren : List ℕ
open_paren = b' ' ∷ b'(' ∷ []

abbrev pub bytes_close : List ℕ
bytes_close = b' ' ∷ b'b' ∷ b'y' ∷ b't' ∷ b'e' ∷ b's' ∷ b')' ∷ 10 ∷ []

-- What `fs_listdir` prints of an entry.
unfoldable pub shown_entry : PiDirent → List ℕ
unfolding decimal
shown_entry d =
    if d.is_dir_p
    then tab_d ++ (c_string d.name ++ newline)
    else tab_f ++ (c_string d.name ++ (open_paren ++ (decimal d.nbytes ++ bytes_close)))

unfoldable pub shown_entries : List PiDirent → List ℕ
unfolding shown_entry
shown_entries [] = []
shown_entries (d ∷ ds) = shown_entry d ++ shown_entries ds

-- A page of the listing, of which `rest` has not been sent.
unfoldable pub page : Pkt → List ℕ → Pkt
page pkt rest =
    let pkt' = set_status pkt status_success in
    if leb (length rest) 27
    then set_bytes (set_op pkt' dfs_end_ls) 0 (rest ++ (0 ∷ []))
    else set_bytes (set_op pkt' dfs_ls) 0 (take 27 rest ++ (0 ∷ []))

-- The loop that sends the listing, from packet `i` on.
unfoldable pub send_pages : ℕ → (ℕ → Bool) → ℕ → Pkt → List ℕ → Outcome (List Pkt)
unfolding page
send_pages rounds radio i pkt [] = ok []
send_pages zero radio i pkt (c ∷ rest) = out_of_fuel
send_pages (suc rounds) radio i pkt (c ∷ rest) =
    let pkt' = page pkt (c ∷ rest) in
    let later = send_pages rounds radio (i + 1) pkt' (drop 27 (c ∷ rest)) in
    if radio i then (do pages ← later; ok (pkt' ∷ pages)) else ok (pkt' ∷ [])

abbrev pub status_of : Bool → ℕ
status_of done = if done then status_success else status_failed

-- The packets of the answer to DFS_LS.
unfoldable pub ls_answer : (ℕ → Bool) → Pkt → Bool → List ℕ → Outcome (List Pkt)
unfolding send_pages
ls_answer radio stack res text =
    if (length text == 0) || not res
    then ok (set_bytes (set_op (set_status stack (status_of res)) dfs_end_ls) 0 (0 ∷ []) ∷ [])
    else send_pages (length text) radio 0 stack text

-- A packet to one address.
abbrev pub send_all : ℕ → List Pkt → List Sent
send_all addr [] = []
send_all addr (p ∷ ps) = record { to = addr; pkt = p } ∷ send_all addr ps

-- The buffer of `fs_listdir` has 8192 bytes, with the one at the end of the string.
abbrev pub listing_fits : List ℕ → Outcome (Unit {0})
listing_fits text = if ltb (length text) 8192 then ok tt else fault

-- The buffer `filename` has 13 bytes, and the field of the packet 12.
abbrev pub request_name : Pkt → Outcome (List ℕ)
request_name p =
    if ltb 12 (nbytes p) then fault else ok (c_string (take (nbytes p) (file_name_bytes p)))

abbrev pub has_char : ℕ → List ℕ → Bool
has_char c [] = false
has_char c (x ∷ xs) = (x == c) || has_char c xs

-- `t_pkt.hb_pkt`.
abbrev pub heartbeat_of : Pkt → HbPkt
heartbeat_of p = record {
  hb_id = word_at p.t_pkt 0;
  addr = word_at p.t_pkt 4;
  usage = word_at p.t_pkt 8;
  storage = word_at p.t_pkt 12;
}

module _ {W : Type 0} (sd : SdCard W) (fuel : ℕ) (root : PiDirent) (radio : ℕ → Bool)
    (stack : Pkt) where
  -- `master_fat32_client_init`.
  unfoldable pub client_init : Node W → Outcome (Node W)
  unfolding int_to_filename
  client_init n = do
    (done, mirror, sys) ←
        fs_create sd fuel root n.sys n.mirror dir_home (int_to_filename 1 true) true true
    ok (record n { mirror = mirror; sys = sys; chunk_id = 1 })

  unfoldable pub on_connect : Node W → Pkt → Outcome (Node W × List Sent)
  unfolding client_init
  on_connect n p = do
    let client_addr = word_at p.t_pkt 0
    (port_id, master) ← try_assign_port n.master client_addr
    let n' = record n { master = master }
    elim port_id [
      | none ↦ ok (n', send_all client_addr (set_op stack dfs_rej ∷ []))
      | some i ↦ (do
        n'' ← if radio 0 then client_init n' else ok n'
        ok (n'', send_all client_addr (record (set_op stack dfs_acp) { port_id = i } ∷ [])))
    ]

  unfoldable pub on_heartbeat : Node W → Pkt → Outcome (Node W × List Sent)
  on_heartbeat n p = do
    master ← hb_reply n.master p.port_id (heartbeat_of p)
    ok (record n { master = master }, [])

  unfoldable pub on_ls : Node W → Pkt → Outcome (Node W × List Sent)
  unfolding shown_entries ls_answer
  on_ls n p = if leb dfs_max_conn p.port_id then ok (n, []) else (do
    client_addr ← elem_at n.master.client_addrs p.port_id
    (res, files) ← fs_listdir sd fuel root n.sys n.mirror (placeholder p)
    let text = shown_entries files
    listing_fits text
    pkts ← ls_answer radio stack res text
    ok (n, send_all client_addr pkts))

  unfoldable pub on_cd : Node W → Pkt → Outcome (Node W × List Sent)
  on_cd n p = if leb dfs_max_conn p.port_id then ok (n, []) else (do
    client_addr ← elem_at n.master.client_addrs p.port_id
    (res, mirror) ← fs_changedir sd fuel root n.sys n.mirror (placeholder p)
    ok (
      record n { mirror = mirror },
      send_all client_addr (set_status (set_op stack dfs_cd) (status_of res) ∷ []),
    ))
