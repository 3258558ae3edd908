-- ===== src/Dfs/FileNames.antt =====
-- libpi/include/dfs-fat32-common.h: the name of the file of a chunk, and of the directory of a
-- client: the digits of its number, the last one first.
-- The loop of `int_to_filename`; a 32-bit number has at most 10 digits.
use dfs_pios_ro.Base.{
  ℕ, List, ◌<◌, ◌∷◌, [], ◌∷◌, Bool, if◌then◌else◌, ◌^◌, ◌++◌, suc, ◌/◌, ◌≡◌, ◌==◌, true, ◌-◌, ◌+◌,
  zero, ◌%◌, false, ◌*◌, refl, arith, ◌≢◌, ◌∙◌, ==-false_of_ne, ℕ_discrete, ap, sym,
}

unfoldable pub digits : ℕ → ℕ → List ℕ
digits zero n = []
digits (suc rounds) n =
    let rest = digits rounds (n / 10) in if n == 0 then [] else (48 + n % 10) ∷ rest

-- `.TXT`.
abbrev pub dot_txt : List ℕ
dot_txt = 46 ∷ 84 ∷ 88 ∷ 84 ∷ []

unfoldable pub int_to_filename : ℕ → Bool → List ℕ
unfolding digits
int_to_filename n is_dir = digits 10 n ++ (if is_dir then [] else dot_txt)

-- The number that a name shows.
abbrev pub number_of : List ℕ → ℕ
number_of [] = 0
number_of (c ∷ cs) = if c == 46 then 0 else (c - 48) + 10 * number_of cs

digits-zero : (rounds n : ℕ) → n ≡ 0 → digits (suc rounds) n ≡ []
unfolding digits
digits-zero rounds n e = rw e refl

digits-suc : (rounds n : ℕ) → n ≢ 0 → digits (suc rounds) n ≡ (48 + n % 10) ∷ digits rounds (n / 10)
unfolding digits
digits-suc rounds n ne = rw (==-false_of_ne n 0 ne) refl

number_of-digit : (d : ℕ) (cs : List ℕ) → d < 10 → number_of ((48 + d) ∷ cs) ≡ d + 10 * number_of cs
number_of-digit d cs lt = ground arith

number_of-append :
    (rounds n : ℕ) (tail : List ℕ)
    → n < 10 ^ rounds
    → number_of tail ≡ 0
    → number_of (digits rounds n ++ tail) ≡ n
unfolding digits
number_of-append zero n tail lt e = e ∙ omega arith
number_of-append (suc rounds) n tail lt e = elim (ℕ_discrete n 0) [
  | yes none_left ↦
      ap (λ l. number_of (l ++ tail)) (digits-zero rounds n none_left) ∙ (e ∙ sym none_left)
  | no left ↦
      ap (λ l. number_of (l ++ tail)) (digits-suc rounds n left)
      ∙ (number_of-digit (n % 10) (digits rounds (n / 10) ++ tail) (omega arith)
          ∙ omega (arith, number_of-append rounds (n / 10) tail (omega arith) e))
]

pub number_of-int_to_filename :
    (n : ℕ) (is_dir : Bool) → n < 10 ^ 10 → number_of (int_to_filename n is_dir) ≡ n
unfolding int_to_filename
number_of-int_to_filename n true lt = number_of-append 10 n [] lt refl
number_of-int_to_filename n false lt = number_of-append 10 n dot_txt lt refl
