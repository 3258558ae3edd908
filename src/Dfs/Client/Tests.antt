-- ===== src/Dfs/Client/Tests.antt =====
-- Listings that come on two pages and on one.
use dfs_pios_ro.Dfs.Client.Listing.{list_loop-ls_answer, list_loop-short}
use dfs_pios_ro.Dfs.Client.{list_loop, all_arrive}
use dfs_pios_ro.Dfs.Requests.{ls_answer}
use dfs_pios_ro.Base.{replicate, List, ℕ, true, ◌≡◌, ok, arith, refl}
use dfs_pios_ro.Dfs.Packets.{Pkt}
use dfs_pios_ro.Dfs.Requests.Paging.{NoEnd-replicate}

abbrev stack : Pkt
stack = record { op_code = 0; port_id = 0; t_pkt = replicate 28 7 }

list_loop-ls_answer_example :
    (pkts : List Pkt) × (code : ℕ) × (ls_answer (λ i. true) stack true (replicate 30 b'x')
      ≡ ok pkts)
    × (list_loop (all_arrive pkts) ≡ ok (code, replicate 30 b'x'))
list_loop-ls_answer_example =
    list_loop-ls_answer (λ i. true) (λ i. refl) stack (replicate 30 b'x')
      (NoEnd-replicate 30 b'x' (omega arith))

list_loop-short_example :
    (pkts : List Pkt) × (ls_answer (λ i. true) stack true (replicate 12 b'x') ≡ ok pkts)
    × (list_loop (all_arrive pkts) ≡ ok (2, replicate 12 b'x'))
list_loop-short_example =
    list_loop-short (λ i. true) (λ i. refl) stack (replicate 12 b'x')
      (NoEnd-replicate 12 b'x' (omega arith)) (omega arith) (omega arith)
