-- ===== src/Dfs/Client/FileName.antt =====
-- dfs/dfs-client.c and dfs/dfs-master.c: the name in a request about a file.
use dfs_pios_ro.Dfs.Packets.Layout.{length-put_bytes, drop-put_bytes}
use dfs_pios_ro.Fat32.Dirent.{word_at, byte_at}
use dfs_pios_ro.Dfs.Requests.Paging.{NoEnd, c_string-append}
use dfs_pios_ro.Fat32.Names.{c_string}
use dfs_pios_ro.Fat32.Clusters.{word_bytes}
use dfs_pios_ro.Base.{
  ℕ, List, length, ◌≤◌, ◌≡◌, take, ◌<◌, drop, ◌++◌, ◌∷◌, ok, [], arith, ==-false_of_ne, sym,
  replicate, drop-drop, refl, ◌+◌, suc, drop-take-append, zero, ◌∙◌, ap, ◌%◌, le→leb, get_or-drop,
  ltb-false_of_le, get_or, ◌/◌, ◌^◌, take-all, ◌-◌, length-replicate, length-append, ◌≢◌,
}
use dfs_pios_ro.Dfs.Packets.{nbytes, file_name_bytes, Pkt, put_word, put_bytes, file_name}
use dfs_pios_ro.Dfs.Client.{Connection, file_request}

word_at-put_word :
    (bs : List ℕ) (w : ℕ) → 12 ≤ length bs → w < 256 → word_at (put_word bs 12 w) 12 ≡ w
unfolding word_bytes
word_at-put_word bs w le lt =
    let xs = put_word bs 12 w in
    let e : drop 12 xs ≡ word_bytes (w ∷ []) ++ drop (12 + 4) bs =
      drop-take-append 12 bs (word_bytes (w ∷ []) ++ drop (12 + 4) bs) le in
    let b0 : byte_at xs 12 ≡ w % 256 = sym (get_or-drop 12 xs 0 0) ∙ ap (λ l. get_or l 0 0) e in
    let b1 : byte_at xs 13 ≡ w / 2 ^ 8 % 256 =
      sym (get_or-drop 12 xs 1 0) ∙ ap (λ l. get_or l 1 0) e in
    let b2 : byte_at xs 14 ≡ w / 2 ^ 16 % 256 =
      sym (get_or-drop 12 xs 2 0) ∙ ap (λ l. get_or l 2 0) e in
    let b3 : byte_at xs 15 ≡ w / 2 ^ 24 % 256 =
      sym (get_or-drop 12 xs 3 0) ∙ ap (λ l. get_or l 3 0) e in
    omega (arith, b0, b1, b2, b3)

drop-put_word : (bs : List ℕ) (w : ℕ) → 12 ≤ length bs → drop 16 (put_word bs 12 w) ≡ drop 16 bs
unfolding word_bytes
drop-put_word bs w le =
    sym (drop-drop 12 4 (put_word bs 12 w))
    ∙ ap (drop 4) (drop-take-append 12 bs (word_bytes (w ∷ []) ++ drop (12 + 4) bs) le)

drop-replicate : (n m : ℕ) → n ≤ m → drop {A = ℕ} n (replicate m 0) ≡ replicate (m - n) 0
drop-replicate zero m le = let e : m - 0 ≡ m = omega arith in rw e refl
drop-replicate (suc n) zero le = absurd (omega arith)
drop-replicate (suc n) (suc m) le =
    let e : suc m - suc n ≡ m - n = omega arith in rw e (drop-replicate n m (omega arith))

-- The string of a name that ends inside its array.
file_name-ended :
    (p : Pkt) (name : List ℕ) (room : ℕ)
    → drop 16 p.t_pkt ≡ name ++ replicate (suc room) 0
    → length name + suc room ≡ 12
    → NoEnd name
    → file_name p ≡ ok name
file_name-ended p name room e size h =
    let zeros : List ℕ = replicate (suc room) 0 in
    let pad : length zeros ≡ suc room = length-replicate {A = ℕ} (suc room) 0 in
    let total : length (name ++ zeros) ≡ 12 = omega (arith, length-append name zeros) in
    let whole : file_name_bytes p ≡ name ++ zeros =
      ap (take 12) e ∙ take-all 12 (name ++ zeros) (omega arith) in
    let text : c_string (file_name_bytes p) ≡ name =
      ap c_string whole ∙ c_string-append name (replicate room 0) h in
    let differs : length (c_string (file_name_bytes p)) ≢ length (file_name_bytes p) =
      λ same. absurd (omega (arith, ap length text, ap length whole, same)) in
    rw (==-false_of_ne (length (c_string (file_name_bytes p))) (length (file_name_bytes p)) differs)
      (ap ok text)

pub file_name-file_request :
    (stack : Pkt) (conn : Connection) (op : ℕ) (name : List ℕ)
    → length stack.t_pkt ≡ 28
    → length name ≤ 11
    → NoEnd name
    → (req : Pkt) × (file_request stack conn op name (length name) ≡ ok req)
      × (req.op_code ≡ op)
      × (nbytes req ≡ length name)
      × (file_name req ≡ ok name)
unfolding file_request
file_name-file_request stack conn op name whole le h =
    let zeros : List ℕ = replicate 12 0 in
    let n = length name in
    let b1 = put_bytes stack.t_pkt 16 zeros in
    let b2 = put_bytes b1 16 (take n name) in
    let all : take n name ≡ name = take-all n name (omega arith) in
    let l1 : length b1 ≡ 28 = length-put_bytes stack.t_pkt 16 zeros (omega arith) ∙ whole in
    let l2 : length b2 ≡ 28 =
      length-put_bytes b1 16 (take n name) (omega (arith, ap length all)) ∙ l1 in
    let rest = drop (16 + length (take n name)) b1 in
    let req : Pkt = record { op_code = op; port_id = conn.port_id; t_pkt = put_word b2 12 n } in
    let cleared : rest ≡ replicate (suc (11 - n)) 0 =
      let size : length (take n name) ≡ n = ap length all in
      let left : 12 - n ≡ suc (11 - n) = omega arith in
      sym (drop-drop 16 (length (take n name)) b1)
      ∙ (ap (drop (length (take n name))) (drop-put_bytes stack.t_pkt 16 zeros (omega arith))
          ∙ rw size (drop-replicate n 12 (omega arith) ∙ ap (λ i. replicate i 0) left)) in
    let place : drop 16 req.t_pkt ≡ name ++ replicate (suc (11 - n)) 0 =
      drop-put_word b2 n (omega arith)
      ∙ (drop-take-append 16 b1 (take n name ++ rest) (omega arith)
          ∙ (ap (λ l. l ++ rest) all ∙ ap (λ l. name ++ l) cleared)) in
    (
      req,
      rw (le→leb n 12 (omega arith), ltb-false_of_le n n (omega arith)) refl,
      refl,
      word_at-put_word b2 n (omega arith) (omega arith),
      file_name-ended req name (11 - n) place (omega arith) h,
    )
