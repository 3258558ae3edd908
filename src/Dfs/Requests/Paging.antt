-- ===== src/Dfs/Requests/Paging.antt =====
-- dfs/dfs-master.c: the pages of a listing, put together again by the client.
use dfs_pios_ro.Dfs.Packets.{EndsOnce, EndsOnce-more}
use dfs_pios_ro.Base.{
  drop-all, Outcome, ok, ℕ, List, ◌≡◌, All, length, ◌∷◌, take, drop, Bool, ◌<◌, ◌++◌, true, [],
  ==-false_of_ne, suc, ◌≢◌, ◌≤◌, leb-false_of_lt, le→leb, refl, ◌+◌, ◌>>=◌, arith, zero, dec_lt, ap,
  append_assoc, ◌-◌, length-drop, ◌∙◌, >>=-ok, take-append-drop, append-nil, ◌==◌, false, replicate,
}
use dfs_pios_ro.Dfs.Packets.{
  Pkt, set_op, set_bytes, set_status, status_success, dfs_ls, dfs_end_ls, placeholder,
}
use dfs_pios_ro.Dfs.Requests.{page, send_pages, ls_answer}
use dfs_pios_ro.Fat32.Names.{c_string}

-- No byte ends the string.
abbrev pub NoEnd : List ℕ → Type 0
NoEnd xs = All (λ c. c ≢ 0) xs

-- The strings of the packets, one behind the other.
abbrev pub joined : List Pkt → List ℕ
joined [] = []
joined (p ∷ ps) = placeholder p ++ joined ps

pub NoEnd-replicate : (n c : ℕ) → c ≢ 0 → NoEnd (replicate n c)
NoEnd-replicate zero c ne = tt
NoEnd-replicate (suc n) c ne = (ne, NoEnd-replicate n c ne)

pub c_string-append : (xs tail : List ℕ) → NoEnd xs → c_string (xs ++ (0 ∷ tail)) ≡ xs
unfolding c_string
c_string-append [] tail h = refl
c_string-append (x ∷ xs) tail h = rw (==-false_of_ne x 0 h.0, c_string-append xs tail h.1) refl

pub NoEnd-take : (n : ℕ) (xs : List ℕ) → NoEnd xs → NoEnd (take n xs)
NoEnd-take zero xs h = tt
NoEnd-take (suc n) [] h = tt
NoEnd-take (suc n) (x ∷ xs) h = (h.0, NoEnd-take n xs h.1)

pub NoEnd-drop : (n : ℕ) (xs : List ℕ) → NoEnd xs → NoEnd (drop n xs)
NoEnd-drop zero xs h = h
NoEnd-drop (suc n) [] h = tt
NoEnd-drop (suc n) (x ∷ xs) h = NoEnd-drop n xs h.1

placeholder-put :
    (p : Pkt) (xs : List ℕ) → NoEnd xs → placeholder (set_bytes p 0 (xs ++ (0 ∷ []))) ≡ xs
placeholder-put p xs h =
    let rest = drop (0 + length (xs ++ (0 ∷ []))) p.t_pkt in
    ap c_string (append_assoc xs (0 ∷ []) rest) ∙ c_string-append xs rest h

pub page-last :
    (p : Pkt) (xs : List ℕ)
    → length xs ≤ 27
    → NoEnd xs
    → (placeholder (page p xs) ≡ xs) × ((page p xs).op_code ≡ dfs_end_ls)
unfolding page
page-last p xs le h =
    let pkt = set_op (set_status p status_success) dfs_end_ls in
    rw (le→leb (length xs) 27 le) (placeholder-put pkt xs h, refl)

page-more :
    (p : Pkt) (xs : List ℕ)
    → 27 < length xs
    → NoEnd xs
    → (placeholder (page p xs) ≡ take 27 xs) × ((page p xs).op_code ≡ dfs_ls)
unfolding page
page-more p xs lt h =
    let pkt = set_op (set_status p status_success) dfs_ls in
    rw (leb-false_of_lt (length xs) 27 lt)
      (placeholder-put pkt (take 27 xs) (NoEnd-take 27 xs h), refl)

pub send_pages-step :
    (rounds i : ℕ) (radio : ℕ → Bool) (p : Pkt) (c : ℕ) (rest : List ℕ)
    → radio i ≡ true
    → send_pages (suc rounds) radio i p (c ∷ rest) ≡ (do
      pages ← send_pages rounds radio (i + 1) (page p (c ∷ rest)) (drop 27 (c ∷ rest))
      ok (page p (c ∷ rest) ∷ pages))
unfolding send_pages
send_pages-step rounds i radio p c rest sent = rw sent refl

pub send_pages-nil :
    (rounds i : ℕ) (radio : ℕ → Bool) (p : Pkt) → send_pages rounds radio i p [] ≡ ok []
unfolding send_pages
send_pages-nil zero i radio p = refl
send_pages-nil (suc rounds) i radio p = refl

-- What the pages of a text are.
abbrev pub PagesOf : List ℕ → Outcome (List Pkt) → Type 0
PagesOf text r =
    (pkts : List Pkt) × (r ≡ ok pkts) × (joined pkts ≡ text) × EndsOnce dfs_ls dfs_end_ls pkts

pub send_pages-PagesOf :
    (rounds : ℕ) (radio : ℕ → Bool)
    → ((i : ℕ) → radio i ≡ true)
    → (text : List ℕ) → length text ≤ rounds
    → 0 < length text
    → NoEnd text
    → (i : ℕ) (p : Pkt) → PagesOf text (send_pages rounds radio i p text)
send_pages-PagesOf rounds radio works [] enough some_text h i p = absurd (omega arith)
send_pages-PagesOf zero radio works (c ∷ rest) enough some_text h i p = absurd (omega arith)
send_pages-PagesOf (suc rounds) radio works (c ∷ rest) enough some_text h i p =
    let text = c ∷ rest in
    let step = send_pages-step rounds i radio p c rest (works i) in
    elim (dec_lt 27 (length text)) [
      | yes lt ↦
          let (shown, op) = page-more p text lt h in
          let shorter : length (drop 27 text) ≡ length text - 27 = length-drop 27 text in
          let (pkts, e, whole, ends) =
            send_pages-PagesOf rounds radio works (drop 27 text) (omega arith) (omega arith)
              (NoEnd-drop 27 text h) (i + 1) (page p text) in
          (
            page p text ∷ pkts,
            step ∙ >>=-ok _ e,
            rw (shown, whole) (take-append-drop 27 text),
            EndsOnce-more dfs_ls dfs_end_ls (page p text) pkts op ends,
          )
      | no le ↦
          let (shown, op) = page-last p text (omega arith) h in
          let none_left : drop 27 text ≡ [] = drop-all 27 text (omega arith) in
          (
            page p text ∷ [],
            step
                ∙ >>=-ok _ (
                    ap (send_pages rounds radio (i + 1) (page p text)) none_left
                    ∙ send_pages-nil rounds (i + 1) radio (page p text)),
            rw shown (append-nil text),
            op,
          )
    ]

-- Where every packet can be sent, the packets with which the master answers a request for a listing
-- that succeeds, of a text without a zero byte, hold strings that are the text when put together,
-- an empty text included; only the last packet is DFS_END_LS.
pub ls_answer-PagesOf :
    (radio : ℕ → Bool)
    → ((i : ℕ) → radio i ≡ true)
    → (stack : Pkt) (text : List ℕ) → NoEnd text
    → PagesOf text (ls_answer radio stack true text)
unfolding ls_answer
ls_answer-PagesOf radio works stack [] h = (
  _,
  refl,
  ap (λ s. s ++ []) (placeholder-put (set_op (set_status stack 0) dfs_end_ls) [] tt),
  refl,
)
ls_answer-PagesOf radio works stack (c ∷ rest) h =
    let text = c ∷ rest in
    let some_text : (length text == 0) ≡ false = ==-false_of_ne (length text) 0 (omega arith) in
    rw some_text
      (send_pages-PagesOf (length text) radio works text (omega arith) (omega arith) h 0 stack)
