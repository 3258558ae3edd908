-- ===== src/Dfs/Packets/Layout.antt =====
-- libpi/include/dfs-cmd.h: reading bytes of a packet that were written.
use dfs_pios_ro.Dfs.Packets.{put_bytes}
use dfs_pios_ro.Fat32.Clusters.{word_bytes}
use dfs_pios_ro.Base.{
  length-take, length-drop, List, ℕ, ◌<◌, ◌+◌, ◌≤◌, length, ◌∷◌, get_or, ◌≡◌, arith, [], drop, ◌++◌,
  get_or-append_left, drop-take-append, refl, length-append, subst, take, ◌∙◌, sym, get_or-take,
  get_or-drop, ap, drop-all, append-nil,
}

pub length-put_bytes :
    (bs : List ℕ) (at : ℕ) (xs : List ℕ)
    → at + length xs ≤ length bs
    → length (put_bytes bs at xs) ≡ length bs
length-put_bytes bs at xs le = omega (
  arith,
  length-append (take at bs) (xs ++ drop (at + length xs) bs),
  length-append xs (drop (at + length xs) bs),
  length-take at bs,
  length-drop (at + length xs) bs,
)

pub drop-put_bytes :
    (bs : List ℕ) (at : ℕ) (xs : List ℕ)
    → at + length xs ≡ length bs
    → drop at (put_bytes bs at xs) ≡ xs
drop-put_bytes bs at xs e =
    drop-take-append at bs (xs ++ drop (at + length xs) bs) (omega arith)
    ∙ (ap (λ l. xs ++ l) (drop-all (at + length xs) bs (omega arith)) ∙ append-nil xs)

pub length-word : (w : ℕ) → length (word_bytes (w ∷ [])) ≡ 4
unfolding word_bytes
length-word w = refl

pub length-put_word :
    (bs : List ℕ) (at w : ℕ)
    → at + 4 ≤ length bs
    → length (put_bytes bs at (word_bytes (w ∷ []))) ≡ length bs
length-put_word bs at w le =
    length-put_bytes bs at (word_bytes (w ∷ [])) (omega (arith, length-word w))

-- A byte in front of what is written, and the first that is.
pub get_or-put_bytes_before :
    (bs : List ℕ) (at : ℕ) (xs : List ℕ) (i : ℕ)
    → i < at
    → at ≤ length bs
    → get_or (put_bytes bs at xs) i 0 ≡ get_or bs i 0
get_or-put_bytes_before bs at xs i lt le =
    get_or-append_left (take at bs) (xs ++ drop (at + length xs) bs) i 0
      (omega (arith, length-take at bs))
    ∙ get_or-take at bs i 0 lt

pub get_or-put_bytes_at :
    (bs : List ℕ) (at x : ℕ) (xs : List ℕ)
    → at ≤ length bs
    → get_or (put_bytes bs at (x ∷ xs)) at 0 ≡ x
get_or-put_bytes_at bs at x xs le =
    let ys = (x ∷ xs) ++ drop (at + length (x ∷ xs)) bs in
    let e : at + 0 ≡ at = omega arith in
    subst (λ i. get_or (take at bs ++ ys) i 0 ≡ x) e
      (sym (get_or-drop at (take at bs ++ ys) 0 0)
        ∙ ap (λ l. get_or l 0 0) (drop-take-append at bs ys le))
