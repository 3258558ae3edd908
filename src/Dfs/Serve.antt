-- ===== src/Dfs/Serve.antt =====
-- dfs/dfs-master.c: the main loop of the master, on the packets that it receives in time.
pub mod Replies
mod Tests
use dfs_pios_ro.Base.{
  Outcome, ok, ℕ, Bool, List, false, ◌∷◌, ◌>>=◌, if◌then◌else◌, ◌==◌, ◌||◌, [], true, ◌++◌, panic,
}
use dfs_pios_ro.Dfs.Packets.{
  Pkt, Sent, dfs_ls, dfs_cd, dfs_rd, dfs_wr, dfs_cr, dfs_rm, dfs_cnct, dfs_hb, dfs_end_rd,
  dfs_retry_rd, dfs_end_wr, dfs_retry_wr, dfs_commit_wr, dfs_sd,
}
use dfs_pios_ro.Dfs.Requests.{Node, on_connect, on_heartbeat, on_ls, on_cd}
use dfs_pios_ro.Dfs.FileRequests.{on_rd, on_cr, on_rm, on_wr}
use dfs_pios_ro.Fat32.Directory.{PiDirent}
use dfs_pios_ro.Fat32.Disk.{SdCard}

-- The loop goes on.
abbrev pub go_on : {W : Type 0} → Outcome (Node W × List Sent) → Outcome (Node W × List Sent × Bool)
go_on r = r >>= λ (n, sent). ok (n, sent, false)

module _ {W : Type 0} (sd : SdCard W) (fuel : ℕ) (root : PiDirent) (radio : ℕ → Bool)
    (stack : Pkt) where
  -- The switch of `dfs_master_main_start`: what is sent, and whether the master shuts down. The
  -- cases DFS_END_RD and DFS_RETRY_RD fall through to DFS_CR.
  unfoldable pub handle : Node W → Pkt → Outcome (Node W × List Sent × Bool)
  handle n p = do
    let op = p.op_code
    if op == dfs_cnct
        then go_on (on_connect sd fuel root radio stack n p)
        else if op == dfs_hb
        then go_on (on_heartbeat sd fuel root radio stack n p)
        else if op == dfs_ls
        then go_on (on_ls sd fuel root radio stack n p)
        else if op == dfs_cd
        then go_on (on_cd sd fuel root radio stack n p)
        else if op == dfs_rd
        then go_on (on_rd sd fuel root stack n p)
        else if (op == dfs_end_rd) || (op == dfs_retry_rd) || (op == dfs_cr)
        then go_on (on_cr sd fuel root stack n p)
        else if op == dfs_rm
        then go_on (on_rm sd fuel root stack n p)
        else if op == dfs_wr
        then go_on (on_wr sd fuel root stack n p)
        else if (op == dfs_end_wr) || (op == dfs_retry_wr) || (op == dfs_commit_wr)
        then ok (n, [], false)
        else if op == dfs_sd
        then ok (n, [], true)
        else panic

  unfoldable pub main_start : Node W → List Pkt → Outcome (Node W × List Sent)
  unfolding handle
  main_start n [] = ok (n, [])
  main_start n (p ∷ later) = do
    (n', sent, shutdown) ← handle n p
    elim shutdown [
      | true ↦ ok (n', sent)
      | false ↦ (do (n'', more) ← main_start n' later; ok (n'', sent ++ more))
    ]
