-- ===== src/Fat32/Names/RoundTrip.antt =====
-- A valid name, stored by `fat32_dirent_set_name` and read back by `fat32_dirent_name`.
use dfs_pios_ro.Fat32.Names.Valid.{All, ValidName, plain, dotted, is_valid_name-ValidName}
use dfs_pios_ro.Fat32.Names.{
  c_string, to_8dot3, trim_spaces, has_dot, copy_at, is_valid_name, raw_name,
}
use dfs_pios_ro.Base.{
  ok, List, ℕ, ◌++◌, length, ◌≡◌, ◌∷◌, ◌∷◌, ◌≤◌, replicate, drop, [], ◌≢◌, arith, take, ◌-◌, suc,
  ◌∙◌, refl, length-append, ap, length-replicate, zero, ◌+◌, false, append_assoc, true,
  if◌then◌else◌, drop-nil, append-nil, drop-drop, take-all,
}

abbrev pub NonZero : List ℕ → Type 0
NonZero [] = Unit {0}
NonZero (c ∷ cs) = (c ≢ 0) × NonZero cs

-- The eleven bytes of a directory entry for a base and an extension.
abbrev pub layout : List ℕ → List ℕ → List ℕ
layout base ext = (base ++ replicate (8 - length base) b' ') ++ ext

abbrev pub blanks : List ℕ
blanks = b' ' ∷ b' ' ∷ b' ' ∷ []

pub All-NonZero : (cs : List ℕ) → All cs → NonZero cs
All-NonZero [] a = tt
All-NonZero (c ∷ cs) a = (ground arith, All-NonZero cs a.1)

pub NonZero-append : (xs ys : List ℕ) → NonZero xs → NonZero ys → NonZero (xs ++ ys)
NonZero-append [] ys a b = b
NonZero-append (x ∷ xs) ys a b = (a.0, NonZero-append xs ys a.1 b)

c_string-NonZero : (cs : List ℕ) → NonZero cs → c_string cs ≡ cs
unfolding c_string
c_string-NonZero [] a = refl
c_string-NonZero (c ∷ cs) a = ground (arith, c_string-NonZero cs a.1)

trim_spaces-blank : (k : ℕ) → trim_spaces (replicate k b' ') ≡ []
unfolding trim_spaces
trim_spaces-blank zero = refl
trim_spaces-blank (suc k) = rw (trim_spaces-blank k)

trim_spaces-All : (cs : List ℕ) (k : ℕ) → All cs → trim_spaces (cs ++ replicate k b' ') ≡ cs
unfolding trim_spaces
trim_spaces-All [] k a = trim_spaces-blank k
trim_spaces-All (c ∷ []) k a = ground (arith, trim_spaces-blank k)
trim_spaces-All (c ∷ d ∷ cs) k a = ground (arith, trim_spaces-All (d ∷ cs) k a.1)

take-length-append : (n : ℕ) (xs ys : List ℕ) → length xs ≡ n → take n (xs ++ ys) ≡ xs
take-length-append zero [] ys e = refl
take-length-append (suc n) [] ys e = absurd (omega arith)
take-length-append zero (x ∷ xs) ys e = absurd (omega arith)
take-length-append (suc n) (x ∷ xs) ys e =
    ap (λ t. x ∷ t) (take-length-append n xs ys (omega arith))

drop-length-append : (n : ℕ) (xs ys : List ℕ) → length xs ≡ n → drop n (xs ++ ys) ≡ ys
drop-length-append zero [] ys e = refl
drop-length-append (suc n) [] ys e = absurd (omega arith)
drop-length-append zero (x ∷ xs) ys e = absurd (omega arith)
drop-length-append (suc n) (x ∷ xs) ys e = drop-length-append n xs ys (omega arith)

length-padded :
    (base : List ℕ) → length base ≤ 8 → length (base ++ replicate (8 - length base) b' ') ≡ 8
length-padded base le =
    let fill : List ℕ = replicate (8 - length base) b' ' in
    omega (arith, length-append base fill, length-replicate {A = ℕ} (8 - length base) b' ')

to_8dot3-trimmed :
    (p base : List ℕ)
    → 1 ≤ length base
    → trim_spaces (take 8 p) ≡ base
    → to_8dot3 p ≡ ok (c_string (base ++ (b'.' ∷ take 3 (drop 8 p))))
unfolding to_8dot3
to_8dot3-trimmed p [] le e = absurd (omega arith)
to_8dot3-trimmed p (c ∷ cs) le e = rw (to_8dot3, e)

pub to_8dot3-layout :
    (base ext : List ℕ)
    → 1 ≤ length base
    → length base ≤ 8
    → length ext ≡ 3
    → All base
    → NonZero ext
    → to_8dot3 (layout base ext) ≡ ok (base ++ (b'.' ∷ ext))
to_8dot3-layout base ext lo hi three a nz =
    let padded = base ++ replicate (8 - length base) b' ' in
    let full = length-padded base hi in
    to_8dot3-trimmed (padded ++ ext) base lo
      (rw (take-length-append 8 padded ext full) (trim_spaces-All base (8 - length base) a))
    ∙ rw (drop-length-append 8 padded ext full, take-all 3 ext (omega arith))
        (ap ok (
          c_string-NonZero (base ++ (b'.' ∷ ext))
            (NonZero-append base (b'.' ∷ ext) (All-NonZero base a) (omega arith, nz))))

pub All-no_dot : (cs : List ℕ) → All cs → has_dot cs ≡ false
unfolding has_dot
All-no_dot [] a = refl
All-no_dot (c ∷ cs) a = ground (arith, All-no_dot cs a.1)

pub has_dot-dotted : (base ext : List ℕ) → has_dot (base ++ (b'.' ∷ ext)) ≡ true
unfolding has_dot
has_dot-dotted [] ext = refl
has_dot-dotted (c ∷ cs) ext = ground (arith, has_dot-dotted cs ext)

drop-replicate : (k n a : ℕ) → drop k (replicate n a) ≡ replicate (n - k) a
drop-replicate zero n a = ap (λ m. replicate m a) (omega arith)
drop-replicate (suc k) zero a = let e : zero - suc k ≡ 0 = omega arith in rw e
drop-replicate (suc k) (suc n) a =
    let e : suc n - suc k ≡ n - k = omega arith in rw e (drop-replicate k n a)

replicate-add : (k n a : ℕ) → replicate (k + n) a ≡ replicate k a ++ replicate n a
replicate-add zero n a = ap (λ m. replicate m a) (omega arith)
replicate-add (suc k) n a =
    let e : suc k + n ≡ suc (k + n) = omega arith in rw (e, replicate-add k n a)

-- A name without a dot leaves the extension blank.
blank-layout :
    (base : List ℕ)
    → length base ≤ 8
    → base ++ replicate (11 - length base) b' ' ≡ layout base blanks
blank-layout base le =
    let e : 11 - length base ≡ 8 - length base + 3 = omega arith in
    rw (e, replicate-add (8 - length base) 3 b' ', append_assoc)

copy_at-blank :
    (base : List ℕ) → copy_at (replicate 11 b' ') 0 base ≡ base ++ replicate (11 - length base) b' '
copy_at-blank base =
    let e : 0 + length base ≡ length base = omega arith in
    rw e (ap (λ t. base ++ t) (drop-replicate (length base) 11 b' '))

drop-all : (n : ℕ) (xs : List ℕ) → length xs ≤ n → drop n xs ≡ []
drop-all n [] le = drop-nil n
drop-all zero (x ∷ xs) le = absurd (omega arith)
drop-all (suc n) (x ∷ xs) le = drop-all n xs (omega arith)

copy_at-ext :
    (base ext : List ℕ)
    → length base ≤ 8
    → length ext ≡ 3
    → copy_at (copy_at (replicate 11 b' ') 0 base) 8 ext ≡ layout base ext
copy_at-ext base ext le three =
    let padded = base ++ replicate (8 - length base) b' ' in
    let full = length-padded base le in
    let short : length (layout base blanks) ≤ 11 = omega (arith, length-append padded blanks) in
    rw (copy_at-blank base, blank-layout base le, three, take-length-append 8 padded blanks full)
      (rw (drop-all 11 (layout base blanks) short, append-nil))

raw_name-plain :
    (name : List ℕ)
    → is_valid_name name ≡ true
    → All name
    → length name ≤ 8
    → raw_name name ≡ ok (layout name blanks)
unfolding raw_name
raw_name-plain name v a le =
    rw (v, All-no_dot name a) (ap ok (copy_at-blank name ∙ blank-layout name le))

raw_name-dotted :
    (base ext : List ℕ)
    → is_valid_name (base ++ (b'.' ∷ ext)) ≡ true
    → length base ≤ 8
    → length ext ≡ 3
    → raw_name (base ++ (b'.' ∷ ext)) ≡ ok (layout base ext)
unfolding raw_name
raw_name-dotted base ext v le three =
    let n : length (base ++ (b'.' ∷ ext)) ≡ length base + 4 =
      omega (arith, length-append base (b'.' ∷ ext)) in
    let n4 : length base + 4 - 4 ≡ length base = omega arith in
    let n3 : length base + 4 - 3 ≡ length base + 1 = omega arith in
    rw
      (
        v,
        has_dot-dotted base ext,
        n,
        n4,
        n3,
        take-length-append (length base) base (b'.' ∷ ext) refl,
        ← drop-drop (length base) 1 (base ++ (b'.' ∷ ext)),
        drop-length-append (length base) base (b'.' ∷ ext) refl,
        take-all 3 ext (omega arith),
      )
      (ap ok (copy_at-ext base ext le three))

-- What `fat32_dirent_name` shows of a name that `fat32_dirent_set_name` stored.
abbrev pub shown : List ℕ → List ℕ
shown name = if has_dot name then name else name ++ (b'.' ∷ blanks)

-- A name that `fat32_is_valid_name` accepts is stored by `fat32_dirent_set_name` and reads back by
-- `to_8dot3` as itself, or, without a dot, with a dot and three spaces behind it.
pub to_8dot3-raw_name :
    (name : List ℕ)
    → is_valid_name name ≡ true
    → (raw : List ℕ) × (raw_name name ≡ ok raw) × (to_8dot3 raw ≡ ok (shown name))
to_8dot3-raw_name name v = go (is_valid_name-ValidName name v)
  where
    go :
        ValidName name
        → (raw : List ℕ) × (raw_name name ≡ ok raw) × (to_8dot3 raw ≡ ok (shown name))
    go (plain lo hi a) = (
      layout name blanks,
      raw_name-plain name v a hi,
      to_8dot3-layout name blanks lo hi refl a (ground arith) ∙ rw (All-no_dot name a),
    )
    go (dotted base ext e lo hi three a b) = (
      layout base ext,
      rw e (raw_name-dotted base ext (rw e at v) hi three),
      to_8dot3-layout base ext lo hi three a (All-NonZero ext b) ∙ rw (e, has_dot-dotted base ext),
    )
