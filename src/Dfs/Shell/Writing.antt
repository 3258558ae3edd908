-- ===== src/Dfs/Shell/Writing.antt =====
-- dfs/dfs-client-command.c: the command that writes a text to a file.
use dfs_pios_ro.Dfs.Packets.Layout.{length-put_word}
use dfs_pios_ro.Dfs.Transfer.Written.{texts, write_loop-texts}
use dfs_pios_ro.Dfs.Transfer.{write_chunk_data, await_end}
use dfs_pios_ro.Fat32.Dirent.{word_at}
use dfs_pios_ro.Dfs.Requests.Paging.{NoEnd}
use dfs_pios_ro.Dfs.Client.{
  Connection, Arrival, full, send_until, write_chunk_meta, status, answer_to, try_connect, read_pkt,
  file_request,
}
use dfs_pios_ro.Dfs.Packets.{
  Pkt, dfs_wr, status_failed, EndsOnce, dfs_acp, set_word, dfs_end_wr, chunk_id_sqn, file_name,
}
use dfs_pios_ro.Dfs.Shell.{
  client_parse, write_args, past, quoted, on_write, Air, echo, write_to, connect_chunk, write_data,
  goes_on,
}
use dfs_pios_ro.Base.{
  ℕ, List, All, ◌≡◌, length, ◌++◌, ok, ◌≢◌, true, ◌≤◌, ◌∷◌, ==-false_of_ne, some, ◌<◌, refl, [],
  >>=-ok, ◌∙◌, ltb-false_of_le, arith, ◌*◌, Bool, suc, zero,
}
use dfs_pios_ro.Dfs.Client.FileName.{file_name-file_request}

-- The command that writes `text` to the file `name`.
abbrev pub echo_command : List ℕ → List ℕ → List ℕ
echo_command text name = echo ++ (b' ' ∷ 34 ∷ text ++ (34 ∷ b' ' ∷ b'>' ∷ b'>' ∷ b' ' ∷ name))

abbrev pub NoQuote : List ℕ → Type 0
NoQuote = All (λ c. c ≢ 34)

quoted-append :
    (text rest : List ℕ) → NoQuote text → quoted (text ++ (34 ∷ rest)) ≡ ok (text, 34 ∷ rest)
unfolding quoted
quoted-append [] rest h = refl
quoted-append (c ∷ cs) rest h = rw (==-false_of_ne c 34 h.0, quoted-append cs rest h.1) refl

write_args-echo_command :
    (text name : List ℕ)
    → NoQuote text
    → length text ≤ 127
    → write_args (echo_command text name) ≡ ok (some (text, name))
unfolding write_args past
write_args-echo_command text name h le =
    rw
      (
        quoted-append text (b' ' ∷ b'>' ∷ b'>' ∷ b' ' ∷ name) h,
        ltb-false_of_le 128 (length text) (omega arith),
        ltb-false_of_le 127 (length text) le,
      )
      refl

client_parse-echo :
    (air : Air) (stack : Pkt) (master chunk : Connection) (text name : List ℕ)
    → client_parse air stack master chunk (echo_command text name)
      ≡ on_write air stack master chunk (echo_command text name)
unfolding client_parse
client_parse-echo air stack master chunk text name = refl

on_write-args :
    (air : Air) (stack : Pkt) (master chunk : Connection) (input text name : List ℕ)
    → write_args input ≡ ok (some (text, name))
    → on_write air stack master chunk input ≡ write_to air stack master chunk text name
unfolding on_write
on_write-args air stack master chunk input text name e = >>=-ok _ e

send_until-once :
    (tries : ℕ) (radio : ℕ → Bool) → radio 0 ≡ true → 0 < tries → send_until tries radio 0 ≡ ok tt
unfolding send_until
send_until-once zero radio sent some_tries = absurd (omega arith)
send_until-once (suc tries) radio sent some_tries = rw sent refl

-- What the radio does where everything is sent and both servers answer: the master with `p`, the
-- chunk server with `q`.
pub record Answers (air : Air) (p q : Pkt) : Type 0 where
  pub sent_once : air.resent 0 ≡ true
  pub some_tries : 0 < air.tries
  pub more_answers : List Arrival
  pub answers_is : air.answers ≡ full p ∷ more_answers
  pub is_wr : p.op_code ≡ dfs_wr
  pub no_failure : status p ≢ status_failed
  pub more_accepts : List Arrival
  pub accepts_is : air.accepts ≡ full q ∷ more_accepts
  pub is_acp : q.op_code ≡ dfs_acp
  pub works : (i : ℕ) → air.chunk_sent i ≡ true
  pub is_done : await_end air.chunk_answers ≡ true

module _ (air : Air) (stack : Pkt) (whole : length stack.t_pkt ≡ 28) (master chunk : Connection)
    (p q : Pkt) (good : Answers air p q) (text : List ℕ) (h : NoEnd text)
    (some_text : 0 < length text) (enough : length text ≤ 16 * air.rounds) where
  abbrev accepted : Connection
  accepted = record (record chunk { server_addr = word_at p.t_pkt 8 }) { port_id = q.port_id }

  connect_chunk-Answers : connect_chunk air chunk p ≡ ok accepted
  unfolding connect_chunk try_connect
  connect_chunk-Answers = rw (good.accepts_is, good.is_acp) refl

  write_data-Answers :
      (req : Pkt)
      → length text ≤ 127
      → (pkts : List Pkt) × (write_data air stack chunk req p text
          ≡ ok (record (goes_on accepted (req ∷ [])) { to_chunk = pkts }))
        × (texts pkts ≡ ok text)
        × EndsOnce dfs_wr dfs_end_wr pkts
  unfolding write_data write_chunk_data
  write_data-Answers req le =
      let (pkts, e, shown, ends) =
        write_loop-texts stack whole accepted (chunk_id_sqn p) text (omega arith) h air.chunk_sent
          good.works air.rounds some_text enough in
      (pkts, rw (connect_chunk-Answers, e, good.is_done) refl, shown, ends)

  write_to-Answers :
      (name : List ℕ) (req : Pkt)
      → file_request (set_word stack 0 0) master dfs_wr name (length name) ≡ ok req
      → write_to air stack master chunk text name ≡ write_data air stack chunk req p text
  unfolding write_to write_chunk_meta answer_to read_pkt
  write_to-Answers name req e =
      rw
        (
          e,
          send_until-once air.tries air.resent good.sent_once good.some_tries,
          good.answers_is,
          good.is_wr,
          ==-false_of_ne (status p) status_failed good.no_failure,
        )
        refl

  -- The command that writes a text of 1 to 127 characters, without quotes and zero bytes, to a file
  -- with a name of at most 11 characters without zero bytes, where DFS_WR is sent at once, the
  -- master answers with the address of a chunk server, which accepts, every packet to it is sent,
  -- DFS_END_WR comes back, a packet has 28 bytes behind its head, and there are as many rounds as
  -- packets: `client_parse` returns and goes on; the request is DFS_WR, the string that its case of
  -- the master reads as the name of the file is the name, the connection is to the server that it
  -- named with the port that this gave, and the texts that the server takes out of the packets are,
  -- put together, the text; only the last packet is DFS_END_WR.
  pub client_parse-echo_command :
      (name : List ℕ)
      → NoQuote text
      → length text ≤ 127
      → length name ≤ 11
      → NoEnd name
      → (req : Pkt) × (pkts : List Pkt) × (client_parse air stack master chunk
            (echo_command text name)
          ≡ ok (record (goes_on accepted (req ∷ [])) { to_chunk = pkts }))
        × (req.op_code ≡ dfs_wr)
        × (file_name req ≡ ok name)
        × (texts pkts ≡ ok text)
        × EndsOnce dfs_wr dfs_end_wr pkts
  client_parse-echo_command name plain le short named =
      let zeroed : length (set_word stack 0 0).t_pkt ≡ 28 =
        length-put_word stack.t_pkt 0 0 (omega arith) ∙ whole in
      let (req, asked, op, count, is_name) =
        file_name-file_request (set_word stack 0 0) master dfs_wr name zeroed short named in
      let (pkts, e, shown, ends) = write_data-Answers req le in
      (
        req,
        pkts,
        client_parse-echo air stack master chunk text name
            ∙ (on_write-args air stack master chunk (echo_command text name) text name
                  (write_args-echo_command text name plain le)
                ∙ (write_to-Answers name req asked ∙ e)),
        op,
        is_name,
        shown,
        ends,
      )
