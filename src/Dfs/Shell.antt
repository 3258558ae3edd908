-- ===== src/Dfs/Shell.antt =====
-- dfs/dfs-client-command.c: the commands of a client. What the user reads of traces is left out.
pub mod Writing
mod Tests
use dfs_pios_ro.Fat32.Names.{c_string}
use dfs_pios_ro.Fat32.Dirent.{word_at}
use dfs_pios_ro.Dfs.Packets.{nbytes, Pkt, chunk_id_sqn}
use dfs_pios_ro.Dfs.Transfer.{write_chunk_data, query_chunk_data}
use dfs_pios_ro.Dfs.Client.{
  client_create, listdir, try_connect, Connection, client_delete, write_chunk_meta,
  change_directory, read_chunk_meta, Arrival, chunk_size,
}
use dfs_pios_ro.Base.{
  ℕ, Bool, List, Outcome, ◌∷◌, true, ◌∷◌, false, [], if◌then◌else◌, Option, ◌==◌, fault, ◌>>=◌,
  ◌&&◌, length, ◌||◌, ok, ltb, not, none, panic, some,
}

-- What the radio does while a command runs: whether the request to the master is sent, what arrives
-- as its answer, at the connection to a chunk server, and from that server.
pub record Air : Type 0 where
  pub sent : Bool
  pub answers : List Arrival
  -- DFS_WR is repeated until it is sent.
  pub tries : ℕ
  pub resent : ℕ → Bool
  pub accepts : List Arrival
  pub query_sent : Bool
  pub chunk_answers : List Arrival
  pub rounds : ℕ
  pub chunk_sent : ℕ → Bool

-- What a command leaves: whether the shell goes on, what it shows, the connection to the chunk
-- server, and the packets to the master and, behind DFS_CNCT, to the chunk server.
pub record Done : Type 0 where
  pub again : Bool
  pub shown : List ℕ
  pub chunk_conn : Connection
  pub to_master : List Pkt
  pub to_chunk : List Pkt

abbrev pub goes_on : Connection → List Pkt → Done
goes_on chunk pkts = record {
  again = true;
  shown = [];
  chunk_conn = chunk;
  to_master = pkts;
  to_chunk = [];
}

abbrev pub touch : List ℕ
touch = b't' ∷ b'o' ∷ b'u' ∷ b'c' ∷ b'h' ∷ []

abbrev pub rm : List ℕ
rm = b'r' ∷ b'm' ∷ []

abbrev pub mkdir : List ℕ
mkdir = b'm' ∷ b'k' ∷ b'd' ∷ b'i' ∷ b'r' ∷ []

abbrev pub cat : List ℕ
cat = b'c' ∷ b'a' ∷ b't' ∷ []

abbrev pub echo : List ℕ
echo = b'e' ∷ b'c' ∷ b'h' ∷ b'o' ∷ []

abbrev pub cd : List ℕ
cd = b'c' ∷ b'd' ∷ []

abbrev pub ls : List ℕ
ls = b'l' ∷ b's' ∷ []

-- `strncmp(input, word, strlen(word)) == 0`.
abbrev pub starts : List ℕ → List ℕ → Bool
starts [] input = true
starts (c ∷ word) [] = false
starts (c ∷ word) (x ∷ input) = (x == c) && starts word input

abbrev pub is_quit : List ℕ → Bool
is_quit (c ∷ []) = c == b'q'
is_quit _ = false

-- What is read behind `strchr(s, c) + 1`; without a `c` that is not a pointer.
unfoldable pub past : ℕ → List ℕ → Outcome (List ℕ)
past c [] = fault
past c (x ∷ xs) = let rest = past c xs in if x == c then ok xs else rest

-- The text up to the closing quote, and the rest from it on. Without one the length is negative.
unfoldable pub quoted : List ℕ → Outcome (List ℕ × List ℕ)
quoted [] = fault
quoted (x ∷ xs) = do
  let rest = quoted xs
  if x == 34 then ok ([], x ∷ xs) else (do (text, arg3) ← rest; ok (x ∷ text, arg3))

-- The text and the file name of `echo`; `none` if the text is too large. The array `data` has 128
-- bytes, and one more than the text has is cleared.
unfoldable pub write_args : List ℕ → Outcome (Option (List ℕ × List ℕ))
unfolding past quoted
write_args input = do
  arg2 ← past 34 input
  (text, arg3) ← quoted arg2
  if ltb 128 (length text) then ok none else if ltb 127 (length text) then fault else (do
    filename ← past b'>' arg3
    filename ← past b'>' filename
    filename ← past b' ' filename
    ok (some (text, filename)))

unfoldable pub on_create : Air → Pkt → Connection → Connection → List ℕ → Outcome Done
unfolding past client_create
on_create air stack master chunk input = do
  arg2 ← past b' ' input
  (_, pkt) ← client_create air.sent stack master arg2 (length arg2) air.answers
  ok (goes_on chunk (pkt ∷ []))

unfoldable pub on_delete : Air → Pkt → Connection → Connection → List ℕ → Outcome Done
unfolding past client_delete
on_delete air stack master chunk input = do
  arg2 ← past b' ' input
  (_, pkt) ← client_delete air.sent stack master arg2 (length arg2) air.answers
  ok (goes_on chunk (pkt ∷ []))

-- `printk` of the string in `data`, where it ends in what was received.
abbrev pub show_data : List ℕ → Outcome (List ℕ)
show_data bytes = if length (c_string bytes) == length bytes then fault else ok (c_string bytes)

-- The connection to the chunk server that the answer names.
unfoldable pub connect_chunk : Air → Connection → Pkt → Outcome Connection
unfolding try_connect
connect_chunk air chunk pkt =
    try_connect air.accepts (record chunk { server_addr = word_at pkt.t_pkt 8 })

unfoldable pub read_data : Air → Pkt → Connection → Pkt → Pkt → Outcome Done
unfolding connect_chunk query_chunk_data
read_data air stack chunk req pkt = do
  chunk ← connect_chunk air chunk pkt
  (done, bytes, query) ←
      query_chunk_data air.query_sent stack chunk (chunk_id_sqn pkt) chunk_size air.chunk_answers
  shown ← if done then show_data bytes else ok []
  ok (record (goes_on chunk (req ∷ [])) { shown = shown; to_chunk = query ∷ [] })

unfoldable pub on_read : Air → Pkt → Connection → Connection → List ℕ → Outcome Done
unfolding past read_chunk_meta read_data
on_read air stack master chunk input = do
  arg2 ← past b' ' input
  (meta, req) ← read_chunk_meta air.sent stack master arg2 (length arg2) 0 air.answers
  elim meta [
    | none ↦ ok (goes_on chunk (req ∷ []))
    | some pkt ↦
        let rest = read_data air stack chunk req pkt in
        if nbytes pkt == 0 then ok (goes_on chunk (req ∷ [])) else rest
  ]

unfoldable pub write_data : Air → Pkt → Connection → Pkt → Pkt → List ℕ → Outcome Done
unfolding connect_chunk write_chunk_data
write_data air stack chunk req pkt text = do
  chunk ← connect_chunk air chunk pkt
  (done, pkts) ←
      write_chunk_data air.rounds air.chunk_sent stack chunk (chunk_id_sqn pkt) text (length text)
        air.chunk_answers
  if done then ok (record (goes_on chunk (req ∷ [])) { to_chunk = pkts }) else panic

unfoldable pub write_to : Air → Pkt → Connection → Connection → List ℕ → List ℕ → Outcome Done
unfolding write_chunk_meta write_data
write_to air stack master chunk text filename = do
  (meta, req) ←
      write_chunk_meta air.tries air.resent stack master filename (length filename) 0 air.answers
  elim meta [ none ↦ panic | some pkt ↦ write_data air stack chunk req pkt text ]

unfoldable pub on_write : Air → Pkt → Connection → Connection → List ℕ → Outcome Done
unfolding write_args write_to
on_write air stack master chunk input = do
  args ← write_args input
  elim args [
    | none ↦ ok (goes_on chunk [])
    | some (text, filename) ↦ write_to air stack master chunk text filename
  ]

unfoldable pub on_list : Air → Pkt → Connection → Connection → List ℕ → Outcome Done
unfolding past listdir
on_list air stack master chunk input = do
  arg2 ← past b' ' input
  (code, shown, pkt) ← listdir air.sent stack master arg2 air.answers
  ok (record (goes_on chunk (pkt ∷ [])) { shown = shown })

unfoldable pub on_change : Air → Pkt → Connection → Connection → List ℕ → Outcome Done
unfolding past change_directory
on_change air stack master chunk input = do
  arg2 ← past b' ' input
  (code, pkt) ← change_directory air.sent stack master arg2 air.answers
  ok (goes_on chunk (pkt ∷ []))

-- `input` ends in a zero byte, which is left out.
unfoldable pub client_parse : Air → Pkt → Connection → Connection → List ℕ → Outcome Done
unfolding on_create on_delete on_read on_write on_list on_change
client_parse air stack master chunk input =
    if starts touch input || starts mkdir input
    then on_create air stack master chunk input
    else if starts rm input
    then on_delete air stack master chunk input
    else if starts cat input
    then on_read air stack master chunk input
    else if starts echo input
    then on_write air stack master chunk input
    else if starts ls input
    then on_list air stack master chunk input
    else if starts cd input
    then on_change air stack master chunk input
    else ok (record (goes_on chunk []) { again = not (is_quit input) })
