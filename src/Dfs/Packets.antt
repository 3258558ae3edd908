-- ===== src/Dfs/Packets.antt =====
-- libpi/include/dfs-cmd.h: the packets of the file system, of 32 bytes. The union `t_pkt` is its 28
-- bytes, in which the members lie over each other.
pub mod Layout
use dfs_pios_ro.Base.{
  List, ℕ, ◌∷◌, take, drop, [], ◌++◌, ◌+◌, length, ◌≡◌, Outcome, if◌then◌else◌, ◌==◌, fault, ok,
}
use dfs_pios_ro.Fat32.Dirent.{word_at}
use dfs_pios_ro.Fat32.Clusters.{word_bytes}
use dfs_pios_ro.Fat32.Names.{c_string}

-- `dfs_pkt`.
pub record Pkt : Type 0 where
  pub op_code : ℕ
  pub port_id : ℕ
  pub t_pkt : List ℕ

-- A packet that is sent, and the address it is sent to.
pub record Sent : Type 0 where
  pub to : ℕ
  pub pkt : Pkt

abbrev pub dfs_ls : ℕ
dfs_ls = 0x0

abbrev pub dfs_cd : ℕ
dfs_cd = 0x1

abbrev pub dfs_rd : ℕ
dfs_rd = 0x2

abbrev pub dfs_wr : ℕ
dfs_wr = 0x3

abbrev pub dfs_end_rd : ℕ
dfs_end_rd = 0x4

abbrev pub dfs_end_wr : ℕ
dfs_end_wr = 0x5

abbrev pub dfs_retry_rd : ℕ
dfs_retry_rd = 0x6

abbrev pub dfs_retry_wr : ℕ
dfs_retry_wr = 0x7

abbrev pub dfs_commit_wr : ℕ
dfs_commit_wr = 0x8

abbrev pub dfs_cnct : ℕ
dfs_cnct = 0x9

abbrev pub dfs_acp : ℕ
dfs_acp = 0xa

abbrev pub dfs_rej : ℕ
dfs_rej = 0xb

abbrev pub dfs_cr : ℕ
dfs_cr = 0xc

abbrev pub dfs_rm : ℕ
dfs_rm = 0xd

abbrev pub dfs_hb : ℕ
dfs_hb = 0xe

abbrev pub dfs_end_ls : ℕ
dfs_end_ls = 0xf

abbrev pub dfs_sd : ℕ
dfs_sd = 0xf

abbrev pub status_success : ℕ
status_success = 0

abbrev pub status_failed : ℕ
status_failed = 1

-- Bytes written at an offset.
abbrev pub put_bytes : List ℕ → ℕ → List ℕ → List ℕ
put_bytes bs at bytes = take at bs ++ (bytes ++ drop (at + length bytes) bs)

abbrev pub put_word : List ℕ → ℕ → ℕ → List ℕ
put_word bs at v = put_bytes bs at (word_bytes (v ∷ []))

-- `active_pkt.chunk_id_sqn`.
abbrev pub chunk_id_sqn : Pkt → ℕ
chunk_id_sqn p = word_at p.t_pkt 0

-- `active_pkt.payload.metadata.nbytes`, which is `dataquery.nbytes` too.
abbrev pub nbytes : Pkt → ℕ
nbytes p = word_at p.t_pkt 12

-- `active_pkt.payload.data.offset`, which is `dataquery.offset` too.
abbrev pub offset : Pkt → ℕ
offset p = word_at p.t_pkt 8

-- The array `active_pkt.payload.metadata.file_name`, at the end of a packet, and the string in it: a
-- name of 12 characters has no end there, and whoever reads it goes on behind the packet.
abbrev pub file_name_bytes : Pkt → List ℕ
file_name_bytes p = take 12 (drop 16 p.t_pkt)

abbrev pub file_name : Pkt → Outcome (List ℕ)
file_name p =
    let bytes = file_name_bytes p in
    if length (c_string bytes) == length bytes then fault else ok (c_string bytes)

-- The string in `placeholder`.
abbrev pub placeholder : Pkt → List ℕ
placeholder p = c_string p.t_pkt

abbrev pub set_op : Pkt → ℕ → Pkt
set_op p op = record p { op_code = op }

abbrev pub set_bytes : Pkt → ℕ → List ℕ → Pkt
set_bytes p at bytes = record p { t_pkt = put_bytes p.t_pkt at bytes }

abbrev pub set_word : Pkt → ℕ → ℕ → Pkt
set_word p at v = record p { t_pkt = put_word p.t_pkt at v }

-- `active_pkt.status`.
abbrev pub set_status : Pkt → ℕ → Pkt
set_status p status = set_bytes p 4 (status ∷ [])

-- All packets but the last have the first operation, and the last has the second.
abbrev pub EndsOnce : ℕ → ℕ → List Pkt → Type 0
EndsOnce more end [] = ⊥
EndsOnce more end (p ∷ []) = p.op_code ≡ end
EndsOnce more end (p ∷ q ∷ ps) = (p.op_code ≡ more) × EndsOnce more end (q ∷ ps)

pub EndsOnce-more :
    (more end : ℕ) (p : Pkt) (ps : List Pkt)
    → p.op_code ≡ more
    → EndsOnce more end ps
    → EndsOnce more end (p ∷ ps)
EndsOnce-more more end p [] e h = elim h [ ]
EndsOnce-more more end p (q ∷ ps) e h = (e, h)
