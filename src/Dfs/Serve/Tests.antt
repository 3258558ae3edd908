-- ===== src/Dfs/Serve/Tests.antt =====
-- The client at port 1 changes to its home directory.
use dfs_pios_ro.Base.{true, false, replicate, none, ◌≡◌, [], All, ◌∷◌, arith, ok, refl}
use dfs_pios_ro.Dfs.Packets.{Pkt, Sent, dfs_cd, status_success, set_op, set_status}
use dfs_pios_ro.Dfs.Requests.{Node, on_cd}
use dfs_pios_ro.Dfs.Serve.{handle}
use dfs_pios_ro.Dfs.Serve.Replies.{IsReply, handle-IsReply}
use dfs_pios_ro.Fat32.Calls.{register_mirror, fs_changedir, dirname_to_directory, strip_slash}
use dfs_pios_ro.Fat32.Names.{c_string}
use dfs_pios_ro.Fat32.Dirent.{same_bytes}
use dfs_pios_ro.Fat32.Directory.{PiDirent}
use dfs_pios_ro.Fat32.Card.{Bytes, card}
use dfs_pios_ro.Fat32.Examples.{mounted}

abbrev root : PiDirent
root = record { name = []; raw_name = []; cluster_id = 2; is_dir_p = true; nbytes = 0 }

abbrev node : Node Bytes
node = record {
  master = record {
    addr = 0x7e7e7e;
    chunkservers = [];
    num_chunkserver = 0;
    num_act_server = 0;
    cur_hb_id = 0;
    client_addrs = 0x7d7d7d ∷ 0x7f7f7f ∷ 0 ∷ 0 ∷ [];
    n_conns = 2;
    fake_rand = none;
  };
  mirror = register_mirror root;
  sys = mounted;
  chunk_id = 1;
}

abbrev stack : Pkt
stack = record { op_code = 0; port_id = 0; t_pkt = replicate 28 7 }

abbrev request : Pkt
request = record { op_code = dfs_cd; port_id = 1; t_pkt = b'~' ∷ replicate 27 0 }

abbrev answer : Sent
answer = record { to = 0x7f7f7f; pkt = set_status (set_op stack dfs_cd) status_success }

handled : handle card 2 root (λ i. true) stack node request ≡ ok (node, answer ∷ [], false)
unfolding handle on_cd fs_changedir dirname_to_directory strip_slash same_bytes c_string
    register_mirror
handled = refl

handle-IsReply_example : All (IsReply card 2 root (λ i. true) stack node request) (answer ∷ [])
handle-IsReply_example =
    handle-IsReply card 2 root (λ i. true) stack node request (omega arith) node (answer ∷ []) false
      handled
