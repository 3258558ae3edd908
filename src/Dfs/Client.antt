-- ===== src/Dfs/Client.antt =====
-- dfs/dfs-client.c: the requests of a client. `radio` says whether the sending of the packet of a
-- number succeeds, and what arrives is a list, of which each call reads a part.
pub mod Listing
pub mod FileName
mod Tests
use dfs_pios_ro.Base.{
  none, some, Option, Outcome, ok, ℕ, List, Bool, out_of_fuel, ◌>>=◌, ◌>>◌, if◌then◌else◌, [], ltb,
  assert, ◌==◌, not, suc, leb, ◌++◌, ◌+◌, ◌||◌, length, zero, ◌∷◌, fault, replicate, take,
}
use dfs_pios_ro.Dfs.Packets.{
  Pkt, Sent, set_op, set_bytes, set_word, status_success, status_failed, dfs_ls, dfs_end_ls, dfs_cd,
  dfs_rd, dfs_wr, dfs_cr, dfs_rm, dfs_acp, dfs_sd, placeholder, chunk_id_sqn,
}
use dfs_pios_ro.Fat32.Dirent.{byte_at}

-- `dfs_connection_t`, with the address of its client.
pub record Connection : Type 0 where
  pub port_id : ℕ
  pub server_addr : ℕ
  pub addr : ℕ

-- What `nrf_read_exact_timeout` gives: nothing in time, less than a packet, or a packet.
pub data Arrival : Type 0 where
  timeout incomplete : Arrival
  full : Pkt → Arrival

-- Every packet arrives.
abbrev pub all_arrive : List Pkt → List Arrival
all_arrive [] = []
all_arrive (p ∷ ps) = full p ∷ all_arrive ps

abbrev pub status : Pkt → ℕ
status p = byte_at p.t_pkt 4

abbrev pub chunk_size : ℕ
chunk_size = 1024

abbrev pub to_server : Connection → Pkt → Sent
to_server conn p = record { to = conn.server_addr; pkt = p }

-- A packet of the connection, from what the stack holds.
abbrev pub of_conn : Pkt → Connection → ℕ → Pkt
of_conn stack conn op = record (set_op stack op) { port_id = conn.port_id }

unfoldable pub shutdown_server : Pkt → Connection → Sent
shutdown_server stack conn = to_server conn (set_word (set_op stack dfs_sd) 0 conn.addr)

-- The loop of `dfs_client_try_connect`: only a time-out repeats it. Of an incomplete packet it would
-- read bytes that were never written.
unfoldable pub try_connect : List Arrival → Connection → Outcome Connection
try_connect [] conn = out_of_fuel
try_connect (timeout ∷ later) conn = try_connect later conn
try_connect (incomplete ∷ later) conn = fault
try_connect (full p ∷ later) conn =
    ok (if p.op_code == dfs_acp then record conn { port_id = p.port_id } else conn)

-- A request about a file: the name is padded with zeros.
unfoldable pub file_request : Pkt → Connection → ℕ → List ℕ → ℕ → Outcome Pkt
file_request stack conn op filename name_len = do
  assert (leb name_len 12)
  if ltb (length filename) name_len
      then fault
      else ok (
          set_word
            (set_bytes (set_bytes (of_conn stack conn op) 16 (replicate 12 0)) 16
              (take name_len filename))
            12 name_len)

-- The next packet that arrives, if it does.
unfoldable pub read_pkt : List Arrival → Option Pkt
read_pkt [] = none
read_pkt (timeout ∷ later) = none
read_pkt (incomplete ∷ later) = none
read_pkt (full p ∷ later) = some p

-- The answer to a request with operation `op`, `none` for a failure.
unfoldable pub answer_to : ℕ → Option Pkt → Option Pkt
answer_to op none = none
answer_to op (some p) =
    if not (p.op_code == op) || (status p == status_failed) then none else some p

abbrev pub sqn_of : Option Pkt → Option ℕ
sqn_of none = none
sqn_of (some p) = some (chunk_id_sqn p)

-- `dfs_client_create` and `dfs_client_delete` differ in the operation; `none` is the result -1.
unfoldable pub create_or_delete :
    ℕ → Bool → Pkt → Connection → List ℕ → ℕ → List Arrival → Outcome (Option ℕ × Pkt)
unfolding file_request read_pkt answer_to
create_or_delete op sent stack conn filename name_len arrivals = do
  pkt ← file_request stack conn op filename name_len
  ok (if sent then sqn_of (answer_to op (read_pkt arrivals)) else none, pkt)

unfoldable pub client_create :
    Bool → Pkt → Connection → List ℕ → ℕ → List Arrival → Outcome (Option ℕ × Pkt)
unfolding create_or_delete
client_create sent stack conn filename name_len arrivals =
    create_or_delete dfs_cr sent stack conn filename name_len arrivals

unfoldable pub client_delete :
    Bool → Pkt → Connection → List ℕ → ℕ → List Arrival → Outcome (Option ℕ × Pkt)
unfolding create_or_delete
client_delete sent stack conn filename name_len arrivals =
    create_or_delete dfs_rm sent stack conn filename name_len arrivals

-- `memcpy` of a string to `placeholder`, of 28 bytes.
unfoldable pub dir_request : Pkt → Connection → ℕ → List ℕ → Outcome Pkt
dir_request stack conn op dirname =
    if ltb (length dirname) 28
    then ok (set_bytes (of_conn stack conn op) 0 (dirname ++ (0 ∷ [])))
    else fault

-- 1 for success, 2 for the status of a failure.
abbrev pub code_of : Pkt → ℕ
code_of p = if status p == status_success then 1 else 2

abbrev pub cd_code : Option Pkt → ℕ
cd_code none = 0
cd_code (some p) = if p.op_code == dfs_cd then code_of p else 0

unfoldable pub change_directory :
    Bool → Pkt → Connection → List ℕ → List Arrival → Outcome (ℕ × Pkt)
unfolding dir_request read_pkt
change_directory sent stack conn dirname arrivals = do
  pkt ← dir_request stack conn dfs_cd dirname
  ok (if sent then cd_code (read_pkt arrivals) else 0, pkt)

-- The loop of `dfs_client_listdir`: the result, and what is printed.
unfoldable pub list_loop : List Arrival → Outcome (ℕ × List ℕ)
list_loop [] = ok (0, [])
list_loop (timeout ∷ later) = ok (0, [])
list_loop (incomplete ∷ later) = ok (0, [])
list_loop (full p ∷ later) =
    if p.op_code == dfs_ls
    then (do (code, shown) ← list_loop later; ok (code, placeholder p ++ shown))
    else if p.op_code == dfs_end_ls
    then ok (code_of p, placeholder p)
    else list_loop later

unfoldable pub listdir :
    Bool → Pkt → Connection → List ℕ → List Arrival → Outcome (ℕ × List ℕ × Pkt)
unfolding dir_request list_loop
listdir sent stack conn dirname arrivals = do
  pkt ← dir_request stack conn dfs_ls dirname
  (code, shown) ← if sent then list_loop arrivals else ok (0, [])
  ok (code, shown, pkt)

-- `dfs_client_read_chunk_meta`: `none` is the result NULL.
unfoldable pub read_chunk_meta :
    Bool → Pkt → Connection → List ℕ → ℕ → ℕ → List Arrival → Outcome (Option Pkt × Pkt)
unfolding file_request read_pkt answer_to
read_chunk_meta sent stack conn filename name_len chunk_sqn arrivals = do
  pkt ← file_request (set_word stack 0 chunk_sqn) conn dfs_rd filename name_len
  ok (if sent then answer_to dfs_rd (read_pkt arrivals) else none, pkt)

-- The loop that repeats the packet until it is sent.
unfoldable pub send_until : ℕ → (ℕ → Bool) → ℕ → Outcome (Unit {0})
send_until zero radio i = out_of_fuel
send_until (suc tries) radio i =
    let again = send_until tries radio (i + 1) in if radio i then ok tt else again

unfoldable pub write_chunk_meta :
    ℕ → (ℕ → Bool) → Pkt → Connection → List ℕ → ℕ → ℕ → List Arrival → Outcome (Option Pkt × Pkt)
unfolding file_request read_pkt answer_to send_until
write_chunk_meta tries radio stack conn filename name_len chunk_sqn arrivals = do
  pkt ← file_request (set_word stack 0 chunk_sqn) conn dfs_wr filename name_len
  send_until tries radio 0
  ok (answer_to dfs_wr (read_pkt arrivals), pkt)
