-- ===== src/Dfs/Transfer/Tests.antt =====
-- Twenty bytes of a chunk of 30 that are read, and thirty that are written, in two packets.
use dfs_pios_ro.Dfs.Transfer.Received.{query_loop-send_chunk}
use dfs_pios_ro.Dfs.Transfer.Written.{texts, write_loop-texts}
use dfs_pios_ro.Dfs.Transfer.{write_loop, query_loop}
use dfs_pios_ro.Dfs.ChunkServer.{send_chunk}
use dfs_pios_ro.Base.{replicate, List, ℕ, true, ◌≡◌, ok, ◌<◌, take, drop, arith, refl, ◌++◌}
use dfs_pios_ro.Dfs.Packets.{Pkt, EndsOnce, dfs_wr, dfs_end_wr}
use dfs_pios_ro.Dfs.Client.{Connection, chunk_size, all_arrive}
use dfs_pios_ro.Dfs.Requests.Paging.{NoEnd-replicate}

abbrev stack : Pkt
stack = record { op_code = 0; port_id = 0; t_pkt = replicate 28 7 }

abbrev conn : Connection
conn = record { port_id = 1; server_addr = 0xd5d5d5; addr = 0xe6e6e6 }

query_loop-send_chunk_example :
    (pkts : List Pkt) × (pad : ℕ) × (send_chunk 2 (λ i. true) 0 stack 12 (replicate 30 9) 5 20 0
      ≡ ok pkts)
    × (pad < 16)
    × (query_loop chunk_size (all_arrive pkts)
        ≡ ok (true, take 20 (drop 5 (replicate 30 9)) ++ replicate pad 0))
query_loop-send_chunk_example =
    query_loop-send_chunk (λ i. true) (λ i. refl) stack refl 12 (replicate 30 9) 5 20 (omega arith)
      (omega arith) 2 (omega arith) (omega arith) (omega arith)

write_loop-texts_example :
    (pkts : List Pkt) × (write_loop 2 (λ i. true) 0 stack conn 12 (replicate 30 9) 30 0
      ≡ ok (true, pkts))
    × (texts pkts ≡ ok (replicate 30 9))
    × EndsOnce dfs_wr dfs_end_wr pkts
write_loop-texts_example =
    write_loop-texts stack refl conn 12 (replicate 30 9) (omega arith)
      (NoEnd-replicate 30 9 (omega arith)) (λ i. true) (λ i. refl) 2 (omega arith) (omega arith)
