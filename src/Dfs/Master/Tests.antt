-- ===== src/Dfs/Master/Tests.antt =====
-- The theorems on the master with two chunk servers, of which only the second is active, and with
-- one client.
use dfs_pios_ro.Dfs.Master.{
  Master, ServerStatus, Server, try_assign_port, get_server_for_new_chunk, heartbeat, chunk_down,
  chunk_ok,
}
use dfs_pios_ro.Dfs.Master.Ports.{PortsOk, Assigned, try_assign_port-Assigned}
use dfs_pios_ro.Dfs.Master.Servers.{
  OnlyAgain, get_server_for_new_chunk-stays, addrs, IsActive, get_server_for_new_chunk-IsActive,
  marked, heartbeat-marked,
}
use dfs_pios_ro.Base.{
  Option, ◌≡◌, ℕ, List, some, ◌∷◌, refl, ok, arith, [], suc, none, zero, ◌⊎◌, get_elem?,
  if◌then◌else◌, ◌<◌, ltb,
}

abbrev server : ℕ → ServerStatus → ℕ → Server
server addr status hb_id = record {
  addr = addr;
  status = status;
  storage = 0;
  usage = 0;
  cur_hb_id = hb_id;
}

abbrev servers : List Server
servers = server 0x6a6a6a chunk_down 0 ∷ server 0x6b6b6b chunk_ok 9 ∷ []

abbrev master : Master
master = record {
  addr = 0x7e7e7e;
  chunkservers = servers;
  num_chunkserver = 2;
  num_act_server = 1;
  cur_hb_id = 9;
  client_addrs = 0x7d7d7d ∷ 0 ∷ 0 ∷ 0 ∷ [];
  n_conns = 1;
  fake_rand = some 1;
}

master-PortsOk : PortsOk master
master-PortsOk = record { room = refl; conns = refl }

try_assign_port-Assigned_example :
    (port : Option ℕ) × (m' : Master) × (try_assign_port master 0x7f7f7f ≡ ok (port, m'))
    × Assigned master 0x7f7f7f port m'
    × PortsOk m'
try_assign_port-Assigned_example =
    try_assign_port-Assigned master 0x7f7f7f (omega arith) master-PortsOk

heartbeat-marked_example :
    (m' : Master) × (heartbeat master ≡ ok (m', addrs 2 servers))
    × (m'.cur_hb_id ≡ 10)
    × ((k : ℕ) (s : Server)
        → get_elem? servers k ≡ some s
        → get_elem? m'.chunkservers k ≡ (if ltb k 2 then some (marked 10 s) else some s))
heartbeat-marked_example = heartbeat-marked master (omega arith)

get_server_for_new_chunk-IsActive_example :
    ((master.num_act_server ≡ 0) × (get_server_for_new_chunk master ≡ ok (none, master)))
    ⊎ ((j : ℕ) × (fake_rand' : Option ℕ) × (get_server_for_new_chunk master
          ≡ ok (some j, record master { fake_rand = fake_rand' }))
        × ((j ≡ 0) ⊎ ((j < 2) × IsActive servers j)))
get_server_for_new_chunk-IsActive_example = get_server_for_new_chunk-IsActive master (omega arith)

servers-OnlyAgain : OnlyAgain 2 0 servers (some 1)
servers-OnlyAgain zero lt (s, at, up) = absurd (ground arith)
servers-OnlyAgain (suc zero) lt active = refl
servers-OnlyAgain (suc (suc k)) lt active = absurd (omega arith)

get_server_for_new_chunk-stays_example :
    (m' : Master) × (get_server_for_new_chunk master ≡ ok (some 0, m'))
get_server_for_new_chunk-stays_example =
    get_server_for_new_chunk-stays master (omega arith) (omega arith) servers-OnlyAgain
