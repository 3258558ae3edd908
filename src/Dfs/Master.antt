-- ===== src/Dfs/Master.antt =====
-- dfs/dfs-master.c: the connections of the clients, the heartbeats, and the choice of a server for
-- a new chunk. The radio only carries packets away: what is sent is a list.
pub mod Ports
pub mod Servers
mod Tests
-- The status of a chunk server.
use dfs_pios_ro.Base.{
  Outcome, Bool, ℕ, Option, true, none, u32, List, some, ◌>>=◌, false, if◌then◌else◌, ◌∷◌, elem_at,
  ◌==◌, ◌+◌, ok, ltb, [], suc, ◌>>◌, ◌^◌, not, assert, ◌-◌, set, fault, zero,
}

pub data ServerStatus : Type 0 where
  chunk_down chunk_ok : ServerStatus

-- `dfs_chunkserver_status`.
pub record Server : Type 0 where
  pub addr : ℕ
  pub status : ServerStatus
  pub storage : ℕ
  pub usage : ℕ
  pub cur_hb_id : ℕ

-- `dfs_master_t`, with `n_conns` of its `nrf`, and the static variable `fake_rand`, `none` for -1.
pub record Master : Type 0 where
  pub addr : ℕ
  pub chunkservers : List Server
  pub num_chunkserver : ℕ
  pub num_act_server : ℕ
  pub cur_hb_id : ℕ
  pub client_addrs : List ℕ
  pub n_conns : ℕ
  pub fake_rand : Option ℕ

abbrev pub dfs_max_conn : ℕ
dfs_max_conn = 4

abbrev pub hb_max_lag : ℕ
hb_max_lag = 3

abbrev pub or_else : Option ℕ → Option ℕ → Option ℕ
or_else none other = other
or_else (some i) other = some i

-- The loop of `try_assign_port` from index `i` on: the index of the client, and `first_idle`.
unfoldable pub scan_ports : ℕ → List ℕ → ℕ → Option ℕ → Option ℕ × Option ℕ
scan_ports i [] client_addr first_idle = (none, first_idle)
scan_ports i (a ∷ rest) client_addr first_idle =
    let idle' = if a == 0 then or_else first_idle (some i) else first_idle in
    let later = scan_ports (i + 1) rest client_addr idle' in
    if a == client_addr then (some i, first_idle) else later

-- What `try_assign_port` does behind its loop, or in the round that finds the client.
unfoldable pub assign : Master → ℕ → Option ℕ × Option ℕ → Outcome (Option ℕ × Master)
assign m client_addr (some i, first_idle) = ok (some i, m)
assign m client_addr (none, none) = do assert (m.n_conns == dfs_max_conn); ok (none, m)
assign m client_addr (none, some i) = ok (
  some i,
  record m { client_addrs = set m.client_addrs i client_addr; n_conns = u32 (m.n_conns + 1) },
)

unfoldable pub try_assign_port : Master → ℕ → Outcome (Option ℕ × Master)
unfolding scan_ports assign
try_assign_port m client_addr = assign m client_addr (scan_ports 0 m.client_addrs client_addr none)

-- How far a server is behind, as `unsigned`.
abbrev pub lag : ℕ → Server → ℕ
lag hb_id s = u32 (hb_id + 2 ^ 32 - s.cur_hb_id)

-- One round of the loop of the heartbeat daemon: the server, and `num_act_server`.
unfoldable pub hb_check : ℕ → Server → ℕ → Server × ℕ
hb_check hb_id s num_act =
    if ltb hb_max_lag (lag hb_id s)
    then (record s { status = chunk_down }, u32 (num_act + 2 ^ 32 - 1))
    else elim s.status [
      | chunk_down ↦ (record s { status = chunk_ok }, u32 (num_act + 1))
      | chunk_ok ↦ (s, num_act)
    ]

-- The loop over the first servers of the array, and the addresses that a heartbeat is sent to.
unfoldable pub hb_loop : ℕ → ℕ → List Server → ℕ → Outcome (List Server × ℕ × List ℕ)
unfolding hb_check
hb_loop zero hb_id servers num_act = ok (servers, num_act, [])
hb_loop (suc left) hb_id [] num_act = fault
hb_loop (suc left) hb_id (s ∷ rest) num_act = do
  let (s', num_act') = hb_check hb_id s num_act
  (rest', num_act'', sent) ← hb_loop left hb_id rest num_act'
  ok (s' ∷ rest', num_act'', s.addr ∷ sent)

-- One cycle of `dfs_master_heartbeat_daemon_start`.
unfoldable pub heartbeat : Master → Outcome (Master × List ℕ)
unfolding hb_loop
heartbeat m = do
  let hb_id = u32 (m.cur_hb_id + 1)
  (servers, num_act, sent) ← hb_loop m.num_chunkserver hb_id m.chunkservers m.num_act_server
  ok (record m { chunkservers = servers; num_act_server = num_act; cur_hb_id = hb_id }, sent)

-- `dfs_hb_pkt`.
pub record HbPkt : Type 0 where
  pub hb_id : ℕ
  pub addr : ℕ
  pub usage : ℕ
  pub storage : ℕ

-- The case DFS_HB of the main loop; the index is not checked there.
unfoldable pub hb_reply : Master → ℕ → HbPkt → Outcome Master
hb_reply m chunkserver_id pkt = do
  s ← elem_at m.chunkservers chunkserver_id
  if not (s.addr == pkt.addr)
      then ok m
      else (let s' = record s { cur_hb_id = pkt.hb_id; usage = pkt.usage; storage = pkt.storage } in
          ok (record m { chunkservers = set m.chunkservers chunkserver_id s' }))

abbrev pub is_ok : ServerStatus → Bool
is_ok chunk_ok = true
is_ok chunk_down = false

abbrev pub same_index : ℕ → Option ℕ → Bool
same_index i none = false
same_index i (some j) = i == j

-- The loop of `dfs_master_get_server_for_new_chunk` from index `i` on: `server_id`, `fake_rand`.
unfoldable pub choose : ℕ → ℕ → List Server → Option ℕ → ℕ → Outcome (ℕ × Option ℕ)
choose zero i servers fake_rand server_id = ok (server_id, fake_rand)
choose (suc left) i [] fake_rand server_id = fault
choose (suc left) i (s ∷ rest) fake_rand server_id =
    let down = choose left (i + 1) rest fake_rand server_id in
    let again = choose left (i + 1) rest none server_id in
    let taken = choose left (i + 1) rest (some i) i in
    if is_ok s.status then (if same_index i fake_rand then again else taken) else down

-- `none` is the result -1.
unfoldable pub get_server_for_new_chunk : Master → Outcome (Option ℕ × Master)
unfolding choose
get_server_for_new_chunk m = if m.num_act_server == 0 then ok (none, m) else (do
  (server_id, fake_rand) ← choose m.num_chunkserver 0 m.chunkservers m.fake_rand 0
  ok (some server_id, record m { fake_rand = fake_rand }))

-- The loop of `is_server_active_by_addr`.
unfoldable pub active_from : ℕ → List Server → ℕ → Outcome Bool
active_from zero servers addr = ok false
active_from (suc left) [] addr = fault
active_from (suc left) (s ∷ rest) addr =
    let later = active_from left rest addr in if s.addr == addr then ok (is_ok s.status) else later

unfoldable pub is_server_active_by_addr : Master → ℕ → Outcome Bool
unfolding active_from
is_server_active_by_addr m addr = active_from m.num_chunkserver m.chunkservers addr
