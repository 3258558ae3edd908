-- ===== src/Fat32/Names.antt =====
-- fat32/fat32-helpers.c, and `find_dirent_with_name` of fat32/fat32.c: 8.3 names. A C string is the
-- list of its bytes before the terminating NUL.
pub mod Valid
pub mod RoundTrip
pub mod Match
pub mod Accepts
mod Tests
use dfs_pios_ro.Base.{
  ok, ℕ, List, Bool, ◌∷◌, take, Outcome, length, if◌then◌else◌, ◌++◌, false, ltb, ◌>>◌, true, ◌+◌,
  ◌||◌, assert, drop, get_or, ◌==◌, not, [], leb, replicate, ◌&&◌, ◌-◌, fault,
}

-- What a C string function reads of the bytes at a pointer.
unfoldable pub c_string : List ℕ → List ℕ
c_string [] = []
c_string (c ∷ cs) = let rest = c_string cs in if c == 0 then [] else c ∷ rest

-- The bytes up to the last one that is not a space.
unfoldable pub trim_spaces : List ℕ → List ℕ
trim_spaces [] = []
trim_spaces (c ∷ cs) = elim (trim_spaces cs) [
  | [] ↦ if c == b' ' then [] else c ∷ []
  | x ∷ xs ↦ c ∷ x ∷ xs
]

-- `to_8dot3`. Where the first eight bytes are spaces, its index goes on to -1, and it writes the dot
-- in front of its buffer.
unfoldable pub to_8dot3 : List ℕ → Outcome (List ℕ)
unfolding c_string trim_spaces
to_8dot3 p = elim (trim_spaces (take 8 p)) [
  | [] ↦ fault
  | c ∷ cs ↦ ok (c_string ((c ∷ cs) ++ (b'.' ∷ take 3 (drop 8 p))))
]

-- The loop that looks for a dot, in `fat32_is_valid_name` and in `fat32_dirent_set_name`.
unfoldable pub has_dot : List ℕ → Bool
has_dot [] = false
has_dot (c ∷ cs) = (c == b'.') || has_dot cs

abbrev pub bad_char : ℕ → Bool
bad_char c = (ltb c b'A' || ltb b'Z' c) && (ltb c b'0' || ltb b'9' c)

-- The loop over the characters from index `i` on; the index `skip` is let through.
unfoldable pub chars_ok : ℕ → ℕ → List ℕ → Bool
chars_ok skip i [] = true
chars_ok skip i (c ∷ cs) =
    let rest = chars_ok skip (i + 1) cs in if bad_char c then (i == skip) && rest else rest

unfoldable pub is_valid_name : List ℕ → Bool
unfolding has_dot chars_ok
is_valid_name name =
    let n = length name in
    if has_dot name
    then (if ltb 12 n
        then false
        else if ltb n 5
        then false
        else if not (get_or name (n - 4) 0 == b'.')
        then false
        else chars_ok (n - 4) 0 name)
    else (if ltb 8 n then false else if ltb n 1 then false else chars_ok n 0 name)

-- `memcpy(dst + off, src, …)` inside an array.
abbrev pub copy_at : List ℕ → ℕ → List ℕ → List ℕ
copy_at dst off src = take off dst ++ (src ++ drop (off + length src) dst)

-- The eleven bytes that `fat32_dirent_set_name` stores.
unfoldable pub raw_name : List ℕ → Outcome (List ℕ)
unfolding is_valid_name
raw_name name = do
  assert (is_valid_name name)
  let n = length name
  let blank = replicate 11 b' '
  ok (
      if has_dot name
      then copy_at (copy_at blank 0 (take (n - 4) name)) 8 (take 3 (drop (n - 3) name))
      else copy_at blank 0 name)

-- The comparison loop of `find_dirent_with_name`, at index `idx` of `filename`, whose rest is given.
unfoldable pub match_from : List ℕ → ℕ → Bool → List ℕ → Bool
match_from tmp idx dotted [] =
    if dotted
    then (get_or tmp idx 0 == b' ') || ((get_or tmp idx 0 == 0) || (idx == 11))
    else leb 10 idx
      || ((get_or tmp idx 0 == b'.')
          && ((get_or tmp (idx + 1) 0 == b' ') || (get_or tmp (idx + 1) 0 == 0)))
match_from tmp idx dotted (c ∷ cs) =
    let rest = match_from tmp (idx + 1) (dotted || (c == b'.')) cs in
    if c == get_or tmp idx 0 then rest else false

unfoldable pub matches : List ℕ → List ℕ → Bool
unfolding match_from
matches tmp filename = match_from tmp 0 false filename
