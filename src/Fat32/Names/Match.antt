-- ===== src/Fat32/Names/Match.antt =====
-- `find_dirent_with_name` compares a name with what `fat32_dirent_name` shows of an entry.
use mathlib.Core.Bool.{or_assoc}
use dfs_pios_ro.Fat32.Names.RoundTrip.{
  NonZero, shown, blanks, NonZero-append, has_dot-dotted, All-no_dot, All-NonZero,
}
use dfs_pios_ro.Fat32.Names.Valid.{All, ValidName, is_valid_name-ValidName, plain, dotted}
use dfs_pios_ro.Fat32.Names.{match_from, has_dot, matches, is_valid_name}
use dfs_pios_ro.Base.{
  List, ℕ, ◌≡◌, Bool, length, [], ◌++◌, ◌+◌, true, ◌∷◌, ◌||◌, arith, get_or, refl, ap, suc, zero,
  ◌∙◌, false, sym, ◌==◌, length-append, append_assoc, ◌≤◌, ◌⊎◌, append-nil, ◌≢◌,
}

get_or-append :
    (xs ys : List ℕ) (i j : ℕ) → j ≡ length xs + i → get_or (xs ++ ys) j 0 ≡ get_or ys i 0
get_or-append [] ys i j e = ap (λ k. get_or ys k 0) (omega arith)
get_or-append (x ∷ xs) ys i zero e = absurd (omega arith)
get_or-append (x ∷ xs) ys i (suc j) e = get_or-append xs ys i j (omega arith)

-- The test behind the comparison loop, at the index where the name ends.
abbrev Accepts : List ℕ → ℕ → Bool → Type 0
Accepts tmp idx d = match_from tmp idx d [] ≡ true

match_from-cons :
    (tmp : List ℕ) (idx : ℕ) (d : Bool) (c : ℕ) (cs : List ℕ)
    → match_from tmp idx d (c ∷ cs) ≡ true
    → (c ≡ get_or tmp idx 0) × (match_from tmp (idx + 1) (d || (c == b'.')) cs ≡ true)
unfolding match_from
match_from-cons tmp idx d c cs m = ground arith

match_from-step :
    (tmp : List ℕ) (idx : ℕ) (d : Bool) (c : ℕ) (cs : List ℕ)
    → c ≡ get_or tmp idx 0
    → match_from tmp idx d (c ∷ cs) ≡ match_from tmp (idx + 1) (d || (c == b'.')) cs
unfolding match_from
match_from-step tmp idx d c cs e = ground arith

or-false : (b : Bool) → (b || false) ≡ b
or-false true = refl
or-false false = refl

length-snoc : (pre : List ℕ) (x idx : ℕ) → idx ≡ length pre → idx + 1 ≡ length (pre ++ (x ∷ []))
length-snoc pre x idx e = omega (arith, length-append pre (x ∷ []))

-- A name that matches is a prefix of what is shown, and the test behind the loop holds at its end.
match_from-prefix :
    (tmp pre rest cs : List ℕ) (idx : ℕ) (d : Bool)
    → NonZero cs
    → idx ≡ length pre
    → tmp ≡ pre ++ rest
    → match_from tmp idx d cs ≡ true
    → (suf : List ℕ) × (rest ≡ cs ++ suf) × Accepts tmp (idx + length cs) (d || has_dot cs)
unfolding has_dot
match_from-prefix tmp pre rest [] idx d nz e t m =
    let e' : idx + 0 ≡ idx = omega arith in (rest, refl, rw (e', or-false d) m)
match_from-prefix tmp pre [] (c ∷ cs) idx d nz e t m =
    let (eq, m') = match_from-cons tmp idx d c cs m in
    absurd (nz.0 (eq ∙ rw (t, get_or-append pre [] 0 idx (omega arith))))
match_from-prefix tmp pre (x ∷ rest) (c ∷ cs) idx d nz e t m =
    let (eq, m') = match_from-cons tmp idx d c cs m in
    let same : c ≡ x = eq ∙ rw (t, get_or-append pre (x ∷ rest) 0 idx (omega arith)) in
    let (suf, r, acc) =
      match_from-prefix tmp (pre ++ (x ∷ [])) rest cs (idx + 1) (d || (c == b'.')) nz.1
        (length-snoc pre x idx e) (t ∙ sym (append_assoc pre (x ∷ []) rest)) m' in
    let e' : idx + suc (length cs) ≡ idx + 1 + length cs = omega arith in
    (suf, cc, rw (e', ← or_assoc d (c == b'.') (has_dot cs)) acc)

-- A name that begins what is shown matches exactly if the test behind the loop holds at its end.
match_from-run :
    (tmp pre cs suf : List ℕ) (idx : ℕ) (d : Bool)
    → idx ≡ length pre
    → tmp ≡ pre ++ (cs ++ suf)
    → match_from tmp idx d cs ≡ match_from tmp (idx + length cs) (d || has_dot cs) []
unfolding has_dot
match_from-run tmp pre [] suf idx d e t =
    let e' : idx + 0 ≡ idx = omega arith in rw (e', or-false d)
match_from-run tmp pre (c ∷ cs) suf idx d e t =
    let e' : idx + suc (length cs) ≡ idx + 1 + length cs = omega arith in
    match_from-step tmp idx d c cs
      (sym (rw (t, get_or-append pre (c ∷ (cs ++ suf)) 0 idx (omega arith))))
    ∙ match_from-run tmp (pre ++ (c ∷ [])) cs suf (idx + 1) (d || (c == b'.'))
        (length-snoc pre c idx e) (t ∙ sym (append_assoc pre (c ∷ []) (cs ++ suf)))
    ∙ rw (e', or_assoc d (c == b'.') (has_dot cs))

first_dot :
    (xs ys : List ℕ) {p q : List ℕ}
    → All xs
    → All ys
    → xs ++ (b'.' ∷ p) ≡ ys ++ (b'.' ∷ q)
    → (xs ≡ ys) × (p ≡ q)
first_dot [] [] a b e = (refl, cc)
first_dot [] (y ∷ ys) a b e = absurd (ground arith)
first_dot (x ∷ xs) [] a b e = absurd (ground arith)
first_dot (x ∷ xs) (y ∷ ys) {p} {q} a b e =
    let tails : xs ++ (b'.' ∷ p) ≡ ys ++ (b'.' ∷ q) = cc in
    let (same, rest) = first_dot xs ys a.1 b.1 tails in
    let heads : x ≡ y = cc in (rw (heads, same), rest)

-- What is shown of a valid name, split at its dot.
shown-plain : (name : List ℕ) → All name → shown name ≡ name ++ (b'.' ∷ blanks)
shown-plain name a = rw (All-no_dot name a)

shown-dotted : (base ext : List ℕ) → shown (base ++ (b'.' ∷ ext)) ≡ base ++ (b'.' ∷ ext)
shown-dotted base ext = rw (has_dot-dotted base ext)

-- The test behind the loop for a name without a dot: the dot stands there, and behind it a space or
-- the end.
Accepts-plain :
    (tmp : List ℕ) (idx : ℕ)
    → idx ≤ 8
    → Accepts tmp idx false
    → (get_or tmp idx 0 ≡ b'.') × ((get_or tmp (idx + 1) 0 ≡ b' ') ⊎ (get_or tmp (idx + 1) 0 ≡ 0))
unfolding match_from
Accepts-plain tmp idx le acc = ground arith

plain-suffix :
    (b suf : List ℕ)
    → length b ≤ 8
    → Accepts (b ++ suf) (length b) false
    → (rest : List ℕ) × (suf ≡ b'.' ∷ rest) × ((get_or rest 0 0 ≡ b' ') ⊎ (get_or rest 0 0 ≡ 0))
plain-suffix b [] le acc =
    absurd
      (ground (arith, Accepts-plain (b ++ []) (length b) le acc, get_or-append b [] 0 (length b)))
plain-suffix b (x ∷ rest) le acc =
    let (dot, next) = Accepts-plain (b ++ (x ∷ rest)) (length b) le acc in
    let here = get_or-append b (x ∷ rest) 0 (length b) (omega arith) in
    let there = get_or-append b (x ∷ rest) 1 (length b + 1) (omega arith) in
    let is : x ≡ b'.' = sym here ∙ dot in (rest, rw is, rw there at next)

matches-prefix :
    (tmp b : List ℕ)
    → All b
    → matches tmp b ≡ true
    → (suf : List ℕ) × (tmp ≡ b ++ suf) × Accepts (b ++ suf) (length b) false
unfolding matches
matches-prefix tmp b a m =
    let (suf, e, acc) = match_from-prefix tmp [] tmp b 0 false (All-NonZero b a) refl refl m in
    let zero_add : 0 + length b ≡ length b = omega arith in
    (suf, e, rw (zero_add, All-no_dot b a, e) at acc)

NonZero-dotted : (base ext : List ℕ) → All base → All ext → NonZero (base ++ (b'.' ∷ ext))
NonZero-dotted base ext a b =
    NonZero-append base (b'.' ∷ ext) (All-NonZero base a) (omega arith, All-NonZero ext b)

matches-dotted :
    (tmp base ext : List ℕ)
    → All base
    → All ext
    → matches tmp (base ++ (b'.' ∷ ext)) ≡ true
    → (suf : List ℕ) × (tmp ≡ base ++ (b'.' ∷ (ext ++ suf)))
unfolding matches
matches-dotted tmp base ext a b m =
    let (suf, e, acc) =
      match_from-prefix tmp [] tmp (base ++ (b'.' ∷ ext)) 0 false (NonZero-dotted base ext a b) refl
        refl m in
    (suf, e ∙ append_assoc base (b'.' ∷ ext) suf)

-- No extension that is blank, or that ends where the other goes on, is taken for another.
ext_unique :
    (ext ext' suf : List ℕ) → length ext ≡ 3 → length ext' ≡ 3 → ext ≡ ext' ++ suf → ext ≡ ext'
ext_unique ext ext' [] l l' e = e ∙ append-nil ext'
ext_unique ext ext' (x ∷ suf) l l' e =
    absurd (omega (arith, ap length e, length-append ext' (x ∷ suf)))

blank-ext : (ext suf : List ℕ) → length ext ≡ 3 → All ext → blanks ≢ ext ++ suf
blank-ext [] suf l a e = absurd (omega arith)
blank-ext (c ∷ ext) suf l a e = ground arith

next-char :
    (ext : List ℕ) → length ext ≡ 3 → All ext → ¬ ((get_or ext 0 0 ≡ b' ') ⊎ (get_or ext 0 0 ≡ 0))
next-char [] l a h = absurd (omega arith)
next-char (c ∷ ext) l a h = ground arith

matches-eq-cases : {a b : List ℕ} → ValidName a → ValidName b → matches (shown a) b ≡ true → a ≡ b
matches-eq-cases {a} {b} (plain la ha ca) (plain lb hb cb) m =
    let (suf, e, acc) = matches-prefix (shown a) b cb m in
    let (rest, dot, next) = plain-suffix b suf hb acc in
    (first_dot a b {q = rest} ca cb (sym (shown-plain a ca) ∙ e ∙ ap (λ t. b ++ t) dot)).0
matches-eq-cases {a} {b} (plain la ha ca) (dotted base ext e lb hb three cb ce) m =
    let (suf, q) = matches-dotted (shown a) base ext cb ce (rw e at m) in
    absurd (blank-ext ext suf three ce (first_dot a base ca cb (sym (shown-plain a ca) ∙ q)).1)
matches-eq-cases {a} {b} (dotted base ext e la ha three ca ce) (plain lb hb cb) m =
    let (suf, q, acc) = matches-prefix (shown a) b cb m in
    let (rest, dot, next) = plain-suffix b suf hb acc in
    let (same, exts) =
      first_dot base b {q = rest} ca cb
        (sym (shown-dotted base ext) ∙ ap shown (sym e) ∙ q ∙ ap (λ t. b ++ t) dot) in
    absurd (next-char ext three ce (rw (← exts) at next))
matches-eq-cases {a} {b} (dotted base ext e la ha three ca ce)
      (dotted base' ext' e' lb hb three' cb ce') m =
    let (suf, q) = matches-dotted (shown a) base' ext' cb ce' (rw e' at m) in
    let (same, exts) =
      first_dot base base' ca cb (sym (shown-dotted base ext) ∙ ap shown (sym e) ∙ q) in
    e ∙ rw (same, ext_unique ext ext' suf three three' exts) (sym e')

-- Of two valid names, what is shown of one matches the other, in the comparison of
-- `find_dirent_with_name`, only if they are the same name.
pub matches-shown_eq :
    (a b : List ℕ)
    → is_valid_name a ≡ true
    → is_valid_name b ≡ true
    → matches (shown a) b ≡ true
    → a ≡ b
matches-shown_eq a b va vb =
    matches-eq-cases (is_valid_name-ValidName a va) (is_valid_name-ValidName b vb)

Accepts-blank :
    (tmp : List ℕ) (idx : ℕ)
    → get_or tmp idx 0 ≡ b'.'
    → get_or tmp (idx + 1) 0 ≡ b' '
    → Accepts tmp idx false
unfolding match_from
Accepts-blank tmp idx dot next = ground arith

Accepts-end : (tmp : List ℕ) (idx : ℕ) → get_or tmp idx 0 ≡ 0 → Accepts tmp idx true
unfolding match_from
Accepts-end tmp idx e = ground arith

matches-self-cases : {a : List ℕ} → ValidName a → matches (shown a) a ≡ true
unfolding matches
matches-self-cases {a} (plain lo hi ca) =
    let tail : List ℕ = b'.' ∷ blanks in
    let whole = shown-plain a ca in
    match_from-run (shown a) [] a tail 0 false refl whole
    ∙ rw (All-no_dot a ca) (
        Accepts-blank (a ++ tail) (0 + length a)
          (get_or-append a tail 0 (0 + length a) (omega arith))
          (get_or-append a tail 1 (0 + length a + 1) (omega arith)))
matches-self-cases {a} (dotted base ext e lo hi three ca ce) =
    let d : has_dot a ≡ true = rw e (has_dot-dotted base ext) in
    match_from-run (shown a) [] a [] 0 false refl (rw d (sym (append-nil a)))
    ∙ rw d (
        Accepts-end a (0 + length a) (
          ap (λ t. get_or t (0 + length a) 0) (sym (append-nil a))
          ∙ get_or-append a [] 0 (0 + length a) (omega arith)))

-- What is shown of a valid name matches that name.
pub matches-shown_self : (a : List ℕ) → is_valid_name a ≡ true → matches (shown a) a ≡ true
matches-shown_self a v = matches-self-cases (is_valid_name-ValidName a v)
