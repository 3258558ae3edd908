-- ===== src/Dfs/Client/Listing.antt =====
-- dfs/dfs-client.c and dfs/dfs-master.c: what a client shows of a listing.
use dfs_pios_ro.Base.{
  ok, List, ◌≢◌, ℕ, ◌<◌, ◌≡◌, ◌≤◌, Bool, true, length, ◌∷◌, ==-false_of_ne, ◌∷◌, get_or, ◌∙◌, refl,
  [], ◌>>=◌, arith, ◌==◌, drop, suc, ap, sym, ◌++◌, zero, append-nil, false, ◌+◌, drop-all, le→leb,
  >>=-ok, get_or-append_left, length-append,
}
use dfs_pios_ro.Dfs.Packets.{
  Pkt, EndsOnce, dfs_ls, dfs_end_ls, status_success, placeholder, set_op, set_status,
}
use dfs_pios_ro.Dfs.Client.{Arrival, full, all_arrive, list_loop, code_of, status}
use dfs_pios_ro.Dfs.Requests.{ls_answer, send_pages, page}
use dfs_pios_ro.Dfs.Requests.Paging.{
  NoEnd, joined, ls_answer-PagesOf, send_pages-step, send_pages-nil, page-last,
}

list_loop-more :
    (p : Pkt) (later : List Arrival)
    → p.op_code ≡ dfs_ls
    → list_loop (full p ∷ later)
      ≡ (do (code, shown) ← list_loop later; ok (code, placeholder p ++ shown))
unfolding list_loop
list_loop-more p later op = rw op refl

list_loop-end :
    (p : Pkt) (later : List Arrival)
    → p.op_code ≡ dfs_end_ls
    → list_loop (full p ∷ later) ≡ ok (code_of p, placeholder p)
unfolding list_loop
list_loop-end p later op = rw op refl

list_loop-joined :
    (pkts : List Pkt)
    → EndsOnce dfs_ls dfs_end_ls pkts
    → (code : ℕ) × (list_loop (all_arrive pkts) ≡ ok (code, joined pkts))
list_loop-joined [] ends = elim ends [ ]
list_loop-joined (p ∷ []) ends = (
  code_of p,
  list_loop-end p [] ends ∙ ap (λ l. ok (code_of p, l)) (sym (append-nil (placeholder p))),
)
list_loop-joined (p ∷ q ∷ ps) ends =
    let (code, e) = list_loop-joined (q ∷ ps) ends.1 in
    (code, list_loop-more p (all_arrive (q ∷ ps)) ends.0 ∙ >>=-ok _ e)

-- Where every packet can be sent and arrives, the master answers a request for a listing that
-- succeeds, of a text without a zero byte, and the loop of `dfs_client_listdir` on these packets
-- ends and prints the text, an empty one included.
pub list_loop-ls_answer :
    (radio : ℕ → Bool)
    → ((i : ℕ) → radio i ≡ true)
    → (stack : Pkt) (text : List ℕ) → NoEnd text
    → (pkts : List Pkt) × (code : ℕ) × (ls_answer radio stack true text ≡ ok pkts)
      × (list_loop (all_arrive pkts) ≡ ok (code, text))
list_loop-ls_answer radio works stack text h =
    let (pkts, e, whole, ends) = ls_answer-PagesOf radio works stack text h in
    let (code, shown) = list_loop-joined pkts ends in
    (pkts, code, e, shown ∙ ap (λ l. ok (code, l)) whole)

-- The fifth character of a page lies where the status does.
status-page :
    (stack : Pkt) (text : List ℕ)
    → 5 ≤ length text
    → length text ≤ 27
    → status (page stack text) ≡ get_or text 4 0
unfolding page
status-page stack text long short =
    let p = set_op (set_status stack status_success) dfs_end_ls in
    let rest = drop (0 + length (text ++ (0 ∷ []))) p.t_pkt in
    rw (le→leb (length text) 27 short) (
      get_or-append_left (text ++ (0 ∷ [])) rest 4 0 (omega (arith, length-append text (0 ∷ [])))
      ∙ get_or-append_left text (0 ∷ []) 4 0 (omega arith))

NoEnd-get_or : (xs : List ℕ) (i : ℕ) → NoEnd xs → i < length xs → get_or xs i 0 ≢ 0
NoEnd-get_or [] i h lt = absurd (omega arith)
NoEnd-get_or (x ∷ xs) zero h lt = h.0
NoEnd-get_or (x ∷ xs) (suc i) h lt = NoEnd-get_or xs i h.1 (omega arith)

code_of-failed : (p : Pkt) → status p ≢ 0 → code_of p ≡ 2
code_of-failed p ne = rw (==-false_of_ne (status p) 0 ne) refl

ls_answer-one :
    (radio : ℕ → Bool)
    → ((i : ℕ) → radio i ≡ true)
    → (stack : Pkt) (c : ℕ) (rest : List ℕ) → length (c ∷ rest) ≤ 27
    → ls_answer radio stack true (c ∷ rest) ≡ ok (page stack (c ∷ rest) ∷ [])
unfolding ls_answer
ls_answer-one radio works stack c rest short =
    let text = c ∷ rest in
    let some_text : (length text == 0) ≡ false = ==-false_of_ne (length text) 0 (omega arith) in
    let none_left : drop 27 text ≡ [] = drop-all 27 text short in
    rw some_text (
      send_pages-step (length rest) 0 radio stack c rest (works 0)
      ∙ >>=-ok _ (
          ap (send_pages (length rest) radio 1 (page stack text)) none_left
          ∙ send_pages-nil (length rest) 1 radio (page stack text)))

-- Where every packet can be sent and arrives, the master answers a request for a listing that
-- succeeds, of a text of 5 to 27 characters without a zero byte, and the loop of
-- `dfs_client_listdir` on the answer prints the text and ends with 2, the result for a failure.
pub list_loop-short :
    (radio : ℕ → Bool)
    → ((i : ℕ) → radio i ≡ true)
    → (stack : Pkt) (text : List ℕ) → NoEnd text
    → 5 ≤ length text
    → length text ≤ 27
    → (pkts : List Pkt) × (ls_answer radio stack true text ≡ ok pkts)
      × (list_loop (all_arrive pkts) ≡ ok (2, text))
list_loop-short radio works stack [] h long short = absurd (omega arith)
list_loop-short radio works stack (c ∷ rest) h long short =
    let text = c ∷ rest in
    let (shown, op) = page-last stack text short h in
    let failed : status (page stack text) ≢ 0 =
      λ e. NoEnd-get_or text 4 h (omega arith) (sym (status-page stack text long short) ∙ e) in
    (
      page stack text ∷ [],
      ls_answer-one radio works stack c rest short,
      list_loop-end (page stack text) [] op
          ∙ rw (code_of-failed (page stack text) failed, shown) refl,
    )
