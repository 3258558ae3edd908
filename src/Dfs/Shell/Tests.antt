-- ===== src/Dfs/Shell/Tests.antt =====
-- `echo "xxxxxxxxxxxxxxxxxxxx" >> AB`: twenty characters, in two packets.
use dfs_pios_ro.Dfs.Transfer.Written.{texts}
use dfs_pios_ro.Base.{ℕ, ◌≢◌, arith, true, replicate, List, [], ◌∷◌, suc, refl, zero, ◌≡◌, ok}
use dfs_pios_ro.Dfs.Packets.{Pkt, dfs_acp, dfs_end_wr, dfs_wr, EndsOnce, file_name}
use dfs_pios_ro.Dfs.Shell.{Air, client_parse, goes_on}
use dfs_pios_ro.Dfs.Shell.Writing.{Answers, NoQuote, echo_command, client_parse-echo_command}
use dfs_pios_ro.Dfs.Client.{full, Connection}
use dfs_pios_ro.Dfs.Transfer.{await_end}
use dfs_pios_ro.Dfs.Requests.Paging.{NoEnd-replicate}

abbrev stack : Pkt
stack = record { op_code = 0; port_id = 0; t_pkt = replicate 28 7 }

abbrev master : Connection
master = record { port_id = 1; server_addr = 0xd5d5d5; addr = 0xe6e6e6 }

abbrev chunk : Connection
chunk = record { port_id = 0; server_addr = 0; addr = 0xe6e6e6 }

-- The answers of the master, of the chunk server to DFS_CNCT, and at the end.
abbrev located : Pkt
located = record { op_code = dfs_wr; port_id = 1; t_pkt = replicate 28 0 }

abbrev accepted : Pkt
accepted = record { op_code = dfs_acp; port_id = 2; t_pkt = replicate 28 0 }

abbrev written : Pkt
written = record { op_code = dfs_end_wr; port_id = 2; t_pkt = replicate 28 0 }

abbrev air : Air
air = record {
  sent = true;
  answers = full located ∷ [];
  tries = 1;
  resent = λ i. true;
  accepts = full accepted ∷ [];
  query_sent = true;
  chunk_answers = full written ∷ [];
  rounds = 2;
  chunk_sent = λ i. true;
}

air-Answers : Answers air located accepted
unfolding await_end
air-Answers = record {
  sent_once = refl;
  some_tries = omega arith;
  more_answers = [];
  answers_is = refl;
  is_wr = refl;
  no_failure = omega arith;
  more_accepts = [];
  accepts_is = refl;
  is_acp = refl;
  works = λ i. refl;
  is_done = refl;
}

NoQuote-replicate : (n c : ℕ) → c ≢ 34 → NoQuote (replicate n c)
NoQuote-replicate zero c ne = tt
NoQuote-replicate (suc n) c ne = (ne, NoQuote-replicate n c ne)

client_parse-echo_command_example :
    (req : Pkt) × (pkts : List Pkt) × (client_parse air stack master chunk
        (echo_command (replicate 20 b'x') (b'A' ∷ b'B' ∷ []))
      ≡ ok (record (goes_on (record chunk { server_addr = 0; port_id = 2 }) (req ∷ [])) {
        to_chunk = pkts;
      }))
    × (req.op_code ≡ dfs_wr)
    × (file_name req ≡ ok (b'A' ∷ b'B' ∷ []))
    × (texts pkts ≡ ok (replicate 20 b'x'))
    × EndsOnce dfs_wr dfs_end_wr pkts
client_parse-echo_command_example =
    client_parse-echo_command air stack refl master chunk located accepted air-Answers
      (replicate 20 b'x') (NoEnd-replicate 20 b'x' (omega arith)) (omega arith) (omega arith)
      (b'A' ∷ b'B' ∷ []) (NoQuote-replicate 20 b'x' (omega arith)) (omega arith) (omega arith)
      (omega arith, (omega arith, tt))
