-- ===== src/Dfs/Serve/Replies.antt =====
-- dfs/dfs-master.c: to whom the master answers.
use dfs_pios_ro.Dfs.Packets.{
  placeholder, file_name, dfs_cnct, dfs_hb, dfs_ls, dfs_cd, dfs_rd, dfs_end_rd, dfs_retry_rd,
  dfs_cr, dfs_rm, dfs_wr, dfs_end_wr, dfs_retry_wr, dfs_commit_wr, dfs_sd,
}
use dfs_pios_ro.Dfs.Requests.{
  heartbeat_of, listing_fits, shown_entries, ls_answer, request_name, has_char, on_heartbeat, on_cd,
}
use dfs_pios_ro.Dfs.FileRequests.{rd_answer, find_place, on_cr, on_rm, on_wr, on_rd}
use dfs_pios_ro.Dfs.Master.{dfs_max_conn, hb_reply}
use dfs_pios_ro.Dfs.Chunks.{get_chunk_num}
use dfs_pios_ro.Dfs.Serve.{go_on, handle}
use dfs_pios_ro.Fat32.Calls.{fs_listdir, fs_changedir, fs_create, fs_delete, dir_same}
use dfs_pios_ro.Base.{
  Outcome, ok, ℕ, Bool, elem_at, if_ind, List, ◌>>=◌, leb, ◌≡◌, All, [], ◌∷◌, subst, >>=-eq-ok,
  ok-injective, false, panic, not, ◌≢◌, ==-false_of_ne, ◌==◌, ◌||◌, true,
}
use dfs_pios_ro.Dfs.Packets.{Pkt, Sent}
use dfs_pios_ro.Dfs.Requests.{Node, send_all, on_ls}
use dfs_pios_ro.Fat32.Directory.{PiDirent}
use dfs_pios_ro.Fat32.Disk.{SdCard}

module _ {W : Type 0} (sd : SdCard W) (fuel : ℕ) (root : PiDirent) (radio : ℕ → Bool) (stack : Pkt)
    (n : Node W) (p : Pkt) where
  -- The packet goes to the client that has the port of the request.
  abbrev pub IsReply : Sent → Type 0
  IsReply m = elem_at n.master.client_addrs p.port_id ≡ ok m.to

  -- What holds of a request that was answered.
  abbrev Answered : Outcome (Node W × List Sent) → Type 0
  Answered r = (n' : Node W) (sent : List Sent) → r ≡ ok (n', sent) → All IsReply sent

  Answered-ok : (n' : Node W) (sent : List Sent) → All IsReply sent → Answered (ok (n', sent))
  Answered-ok n' sent all n'' sent' e =
      subst (λ r. All IsReply r.1) (ok-injective (n', sent) (n'', sent') e) all

  Answered->>= :
      {A : Type 0} (r : Outcome A) (next : A → Outcome (Node W × List Sent))
      → ((a : A) → Answered (next a))
      → Answered (r >>= next)
  Answered->>= r next all n' sent e = let (a, e1, e2) = >>=-eq-ok r next e in all a n' sent e2

  send_all-IsReply :
      (addr : ℕ) (pkts : List Pkt)
      → elem_at n.master.client_addrs p.port_id ≡ ok addr
      → All IsReply (send_all addr pkts)
  send_all-IsReply addr [] e = tt
  send_all-IsReply addr (q ∷ qs) e = (e, send_all-IsReply addr qs e)

  -- The address is looked up first.
  replying :
      (next : ℕ → Outcome (Node W × List Sent))
      → ((addr : ℕ) → elem_at n.master.client_addrs p.port_id ≡ ok addr → Answered (next addr))
      → Answered (elem_at n.master.client_addrs p.port_id >>= next)
  replying next all n' sent e =
      let (addr, e1, e2) = >>=-eq-ok (elem_at n.master.client_addrs p.port_id) next e in
      all addr e1 n' sent e2

  on_ls-Answered : Answered (on_ls sd fuel root radio stack n p)
  unfolding on_ls
  on_ls-Answered = if_ind Answered (leb dfs_max_conn p.port_id) (Answered-ok n [] tt) (
      replying _ (λ addr e.
        Answered->>= (fs_listdir sd fuel root n.sys n.mirror (placeholder p)) _ (λ (res, files).
          Answered->>= (listing_fits (shown_entries files)) _ (λ fits.
            Answered->>= (ls_answer radio stack res (shown_entries files)) _
              (λ pkts. Answered-ok n _ (send_all-IsReply addr pkts e))))))

  on_cd-Answered : Answered (on_cd sd fuel root radio stack n p)
  unfolding on_cd
  on_cd-Answered = if_ind Answered (leb dfs_max_conn p.port_id) (Answered-ok n [] tt) (
      replying _ (λ addr e.
        Answered->>= (fs_changedir sd fuel root n.sys n.mirror (placeholder p)) _
          (λ (res, mirror). Answered-ok _ _ (e, tt))))

  on_rd-Answered : Answered (on_rd sd fuel root stack n p)
  unfolding on_rd
  on_rd-Answered = if_ind Answered (leb dfs_max_conn p.port_id) (Answered-ok n [] tt) (
      replying _ (λ addr e.
        Answered->>= (rd_answer sd fuel root stack n p) _ (λ answer. Answered-ok n _ (e, tt))))

  on_cr-Answered : Answered (on_cr sd fuel root stack n p)
  unfolding on_cr
  on_cr-Answered = if_ind Answered (leb dfs_max_conn p.port_id) (Answered-ok n [] tt) (
      replying _ (λ addr e. Answered->>= (request_name p) _ (λ name.
        Answered->>=
          (fs_create sd fuel root n.sys n.mirror dir_same name (not (has_char b'.' name)) false) _
          (λ (done, mirror, sys). Answered-ok _ _ (e, tt)))))

  on_rm-Answered : Answered (on_rm sd fuel root stack n p)
  unfolding on_rm
  on_rm-Answered = if_ind Answered (leb dfs_max_conn p.port_id) (Answered-ok n [] tt) (
      replying _ (λ addr e. Answered->>= (request_name p) _ (λ name.
        Answered->>= (fs_delete sd fuel root n.sys n.mirror dir_same name) _
          (λ (done, sys). Answered-ok _ _ (e, tt)))))

  on_wr-Answered : Answered (on_wr sd fuel root stack n p)
  unfolding on_wr
  on_wr-Answered = if_ind Answered (leb dfs_max_conn p.port_id) (Answered-ok n [] tt) (
      replying _ (λ addr e. Answered->>= (file_name p) _ (λ filename.
        Answered->>= (get_chunk_num sd fuel root n.sys n.mirror filename) _ (λ chunk_num.
          Answered->>= (find_place sd fuel root stack n p chunk_num) _
            (λ (n', place). Answered-ok _ _ (e, tt))))))

  on_heartbeat-Answered : Answered (on_heartbeat sd fuel root radio stack n p)
  unfolding on_heartbeat
  on_heartbeat-Answered =
      Answered->>= (hb_reply n.master p.port_id (heartbeat_of p)) _ (λ master. Answered-ok _ _ tt)

  -- The same of a round of the main loop.
  abbrev Handled : Outcome (Node W × List Sent × Bool) → Type 0
  Handled r =
      (n' : Node W) (sent : List Sent) (stop : Bool) → r ≡ ok (n', sent, stop) → All IsReply sent

  Handled-ok : (n' : Node W) (stop : Bool) → Handled (ok (n', [], stop))
  Handled-ok n' stop n'' sent stop' e =
      subst (λ r. All IsReply r.1) (ok-injective (n', [], stop) (n'', sent, stop') e) tt

  Handled-panic : Handled panic
  Handled-panic n' sent stop e = absurd (cc)

  going_on : (r : Outcome (Node W × List Sent)) → Answered r → Handled (go_on r)
  going_on r answered n' sent stop e =
      let ((n'', sent''), e1, e2) = >>=-eq-ok r _ e in
      subst (λ q. All IsReply q.1) (ok-injective (n'', sent'', false) (n', sent, stop) e2)
        (answered n'' sent'' e1)

  -- Every packet that the master sends while it handles a request other than DFS_CNCT goes to the
  -- address of the client that has the port of the request; with a port out of range nothing is
  -- sent.
  pub handle-IsReply :
      p.op_code ≢ dfs_cnct
      → (n' : Node W) (sent : List Sent) (stop : Bool)
      → handle sd fuel root radio stack n p ≡ ok (n', sent, stop)
      → All IsReply sent
  unfolding handle
  handle-IsReply ne = rw (==-false_of_ne p.op_code dfs_cnct ne) (
      if_ind Handled (p.op_code == dfs_hb) (going_on _ on_heartbeat-Answered) (
        if_ind Handled (p.op_code == dfs_ls) (going_on _ on_ls-Answered) (
          if_ind Handled (p.op_code == dfs_cd) (going_on _ on_cd-Answered) (
            if_ind Handled (p.op_code == dfs_rd) (going_on _ on_rd-Answered) (
              if_ind Handled
                ((p.op_code == dfs_end_rd) || (p.op_code == dfs_retry_rd) || (p.op_code == dfs_cr))
                (going_on _ on_cr-Answered)
                (if_ind Handled (p.op_code == dfs_rm) (going_on _ on_rm-Answered) (
                  if_ind Handled (p.op_code == dfs_wr) (going_on _ on_wr-Answered) (
                    if_ind Handled
                      ((p.op_code == dfs_end_wr)
                        || (p.op_code == dfs_retry_wr)
                        || (p.op_code == dfs_commit_wr))
                      (Handled-ok n false)
                      (if_ind Handled (p.op_code == dfs_sd) (Handled-ok n true)
                        Handled-panic)))))))))
