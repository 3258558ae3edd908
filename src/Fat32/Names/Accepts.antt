-- ===== src/Fat32/Names/Accepts.antt =====
-- fat32/fat32-helpers.c: fat32_is_valid_name against the description of a valid name.
use dfs_pios_ro.Fat32.Names.RoundTrip.{All-no_dot, has_dot-dotted}
use dfs_pios_ro.Fat32.Names.Valid.{All, ValidName, plain, is_valid_name-ValidName, dotted}
use dfs_pios_ro.Fat32.Names.{chars_ok, is_valid_name}
use dfs_pios_ro.Base.{
  List, ℕ, ◌≡◌, get_or, ◌++◌, ◌+◌, true, ◌∷◌, ◌∷◌, ◌↔◌, length, [], arith, refl, length-append, ◌-◌,
  ltb-false_of_le,
}

chars_ok_of_All : (skip i : ℕ) (cs : List ℕ) → All cs → chars_ok skip i cs ≡ true
unfolding chars_ok
chars_ok_of_All skip i [] a = refl
chars_ok_of_All skip i (c ∷ cs) (here, a) = rw here (chars_ok_of_All skip (i + 1) cs a)

chars_ok-dotted :
    (skip i : ℕ) (base ext : List ℕ)
    → skip ≡ i + length base
    → All base
    → All ext
    → chars_ok skip i (base ++ (b'.' ∷ ext)) ≡ true
unfolding chars_ok
chars_ok-dotted skip i [] ext e a b = ground (arith, chars_ok_of_All skip (i + 1) ext b)
chars_ok-dotted skip i (c ∷ cs) ext e (here, a) b =
    rw here (chars_ok-dotted skip (i + 1) cs ext (omega arith) a b)

get_or-dot : (base ext : List ℕ) → get_or (base ++ (b'.' ∷ ext)) (length base) 0 ≡ b'.'
get_or-dot [] ext = refl
get_or-dot (c ∷ cs) ext = get_or-dot cs ext

is_valid_name_of_ValidName : (name : List ℕ) → ValidName name → is_valid_name name ≡ true
unfolding is_valid_name
is_valid_name_of_ValidName name (plain lo hi a) =
    ground (arith, All-no_dot name a, chars_ok_of_All (length name) 0 name a)
is_valid_name_of_ValidName name (dotted base ext e lo hi three a b) =
    let n : length name ≡ length base + 4 = rw e (omega (arith, length-append base (b'.' ∷ ext))) in
    let at : length base + 4 - 4 ≡ length base = omega arith in
    rw
      (
        n,
        at,
        e,
        has_dot-dotted base ext,
        ltb-false_of_le 12 (length base + 4) (omega arith),
        ltb-false_of_le (length base + 4) 5 (omega arith),
        get_or-dot base ext,
      )
      (chars_ok-dotted (length base) 0 base ext (omega arith) a b)

-- `fat32_is_valid_name` accepts exactly the names of one to eight capital letters and digits, and
-- those of such a base, a dot and exactly three capital letters and digits.
pub is_valid_name_iff : (name : List ℕ) → (is_valid_name name ≡ true) ↔ ValidName name
is_valid_name_iff name = (is_valid_name-ValidName name, is_valid_name_of_ValidName name)
