-- ===== src/Fat32/Names/Valid.antt =====
-- fat32/fat32-helpers.c: the description of a valid name, without an index, for
-- fat32_is_valid_name.
use dfs_pios_ro.Fat32.Names.{chars_ok, bad_char, is_valid_name, has_dot}
use dfs_pios_ro.Base.{
  ℕ, List, ◌+◌, ◌<◌, ◌∷◌, ◌≤◌, [], length, ◌≡◌, false, true, ◌++◌, arith, take, drop, suc, zero,
  get_or, ap, Bool-cases, refl, inl, ◌-◌, sym, take-append-drop, ◌∙◌, length-take, length-drop, inr,
}

abbrev pub NameChar : ℕ → Type 0
NameChar c = bad_char c ≡ false

abbrev pub All : List ℕ → Type 0
All [] = Unit {0}
All (c ∷ cs) = NameChar c × All cs

pub data ValidName : List ℕ → Type 0 where
  plain : {name : List ℕ} → 1 ≤ length name → length name ≤ 8 → All name → ValidName name
  dotted :
      {name : List ℕ} (base ext : List ℕ)
      → name ≡ base ++ (b'.' ∷ ext)
      → 1 ≤ length base
      → length base ≤ 8
      → length ext ≡ 3
      → All base
      → All ext
      → ValidName name

chars_ok-All : (skip i : ℕ) (cs : List ℕ) → skip < i → chars_ok skip i cs ≡ true → All cs
unfolding chars_ok
chars_ok-All skip i [] lt e = tt
chars_ok-All skip i (c ∷ cs) lt e = ground (arith, chars_ok-All skip (i + 1) cs)

-- No dot and a `skip` behind the end: every character is checked.
chars_ok-plain :
    (skip i : ℕ) (cs : List ℕ) → i + length cs ≤ skip → chars_ok skip i cs ≡ true → All cs
unfolding chars_ok
chars_ok-plain skip i [] lt e = tt
chars_ok-plain skip i (c ∷ cs) lt e = ground (arith, chars_ok-plain skip (i + 1) cs)

chars_ok-split :
    (skip k i : ℕ) (cs : List ℕ)
    → skip ≡ i + k
    → k < length cs
    → chars_ok skip i cs ≡ true
    → All (take k cs) × All (drop (suc k) cs)
unfolding chars_ok
chars_ok-split skip k i [] q lt e = absurd (omega arith)
chars_ok-split skip zero i (c ∷ cs) q lt e =
    (tt, chars_ok-All skip (i + 1) cs (omega arith) (ground arith))
chars_ok-split skip (suc k) i (c ∷ cs) q lt e =
    let (front, back) =
      chars_ok-split skip k (i + 1) cs (omega arith) (omega arith) (ground arith) in
    ((ground arith, front), back)

drop-get_or : (n : ℕ) (xs : List ℕ) → n < length xs → drop n xs ≡ get_or xs n 0 ∷ drop (suc n) xs
drop-get_or n [] lt = absurd (omega arith)
drop-get_or zero (x ∷ xs) lt = refl
drop-get_or (suc n) (x ∷ xs) lt = drop-get_or n xs (omega arith)

-- The facts that the tests of `fat32_is_valid_name` leave on a name with a dot.
is_valid_name-dotted :
    (name : List ℕ)
    → has_dot name ≡ true
    → is_valid_name name ≡ true
    → (5 ≤ length name)
      × (length name ≤ 12)
      × (get_or name (length name - 4) 0 ≡ b'.')
      × (chars_ok (length name - 4) 0 name ≡ true)
unfolding is_valid_name
is_valid_name-dotted name d e = ground arith

is_valid_name-plain :
    (name : List ℕ)
    → has_dot name ≡ false
    → is_valid_name name ≡ true
    → (1 ≤ length name) × (length name ≤ 8) × (chars_ok (length name) 0 name ≡ true)
unfolding is_valid_name
is_valid_name-plain name d e = ground arith

-- A name that `fat32_is_valid_name` accepts is one to eight capital letters and digits, or such a
-- base with a dot and an extension of exactly three.
pub is_valid_name-ValidName : (name : List ℕ) → is_valid_name name ≡ true → ValidName name
is_valid_name-ValidName name e = elim (Bool-cases (has_dot name)) [
  | inl d ↦
      let (lo, hi, dot, ok_chars) = is_valid_name-dotted name d e in
      let n = length name - 4 in
      let (front, back) = chars_ok-split n n 0 name (omega arith) (omega arith) ok_chars in
      dotted (take n name) (drop (suc n) name)
        (sym (take-append-drop n name)
          ∙ ap (λ t. take n name ++ t) (drop-get_or n name (omega arith) ∙ rw dot))
        (omega (arith, length-take n name)) (omega (arith, length-take n name))
        (omega (arith, length-drop (suc n) name)) front back
  | inr d ↦
      let (lo, hi, ok_chars) = is_valid_name-plain name d e in
      plain lo hi (chars_ok-plain (length name) 0 name (omega arith) ok_chars)
]
