-- ===== src/Fat32/Card.antt =====
-- A card in memory, for the tests: a number for each byte.

-- The card as its bytes.
use dfs_pios_ro.Base.{
  List, ℕ, ◌≤◌, ◌+◌, get_or, some, [], if◌then◌else◌, length, suc, ◌*◌, drop, leb, ◌≡◌, ◌<◌, take,
  ◌∷◌, arith, zero, ap, ◌&&◌, ltb, refl, ◌-◌, some-injective, ◌⊎◌,
}
use dfs_pios_ro.Fat32.Disk.{SdCard, Reliable}

abbrev pub Bytes : Type 0
Bytes = ℕ → ℕ

abbrev pub range : Bytes → ℕ → ℕ → List ℕ
range w from zero = []
range w from (suc n) = w from ∷ range w (suc from) n

abbrev overwrite : Bytes → List ℕ → ℕ → ℕ → Bytes
overwrite w bytes from n i =
    if leb from i && ltb i (from + n) then get_or bytes (i - from) 0 else w i

abbrev pub card : SdCard Bytes
card = record {
  sd_init = λ w. some w;
  readblock = λ w lba n. some (range w (512 * lba) (512 * n));
  writeblock = λ w bytes lba n. some (overwrite w bytes (512 * lba) (512 * n));
}

length-range : (w : Bytes) (from n : ℕ) → length (range w from n) ≡ n
length-range w from zero = refl
length-range w from (suc n) = ap suc (length-range w (suc from) n)

outside :
    (w : Bytes) (bytes : List ℕ) (from n i : ℕ)
    → (i < from) ⊎ (from + n ≤ i)
    → overwrite w bytes from n i ≡ w i
outside w bytes from n i away = ground arith

range-same :
    (w w' : Bytes) (from n : ℕ)
    → ((i : ℕ) → from ≤ i → i < from + n → w i ≡ w' i)
    → range w from n ≡ range w' from n
range-same w w' from zero same = refl
range-same w w' from (suc n) same = rw (
  same from (omega arith) (omega arith),
  range-same w w' (suc from) n (λ i le lt. same i (omega arith) (omega arith)),
)

take-drop-suc :
    (xs : List ℕ) (j n : ℕ)
    → j < length xs
    → take (suc n) (drop j xs) ≡ get_or xs j 0 ∷ take n (drop (suc j) xs)
take-drop-suc [] j n lt = absurd (omega arith)
take-drop-suc (x ∷ xs) zero n lt = refl
take-drop-suc (x ∷ xs) (suc j) n lt = take-drop-suc xs j n (omega arith)

-- Within the bytes that were written, the card holds them.
range-overwrite :
    (w : Bytes) (bytes : List ℕ) (from total p j n : ℕ)
    → p ≡ from + j
    → j + n ≤ total
    → total ≤ length bytes
    → range (overwrite w bytes from total) p n ≡ take n (drop j bytes)
range-overwrite w bytes from total p j zero at in_block enough = refl
range-overwrite w bytes from total p j (suc n) at in_block enough =
    let rest =
      range-overwrite w bytes from total (suc p) (suc j) n (omega arith) (omega arith) enough in
    let offset : p - from ≡ j = omega arith in
    let first : overwrite w bytes from total p ≡ get_or bytes j 0 = ground arith in
    rw (first, rest, take-drop-suc bytes j n (omega arith))

pub card-Reliable : (capacity : ℕ) → Reliable card capacity
card-Reliable capacity = record {
  read_ok =
      λ w lba n le. (range w (512 * lba) (512 * n), refl, length-range w (512 * lba) (512 * n));
  write_ok = λ w bytes lba n le enough. (
    overwrite w bytes (512 * lba) (512 * n),
    refl,
    ap some (
        range-overwrite w bytes (512 * lba) (512 * n) (512 * lba) 0 (512 * n) (omega arith)
          (omega arith) enough),
  );
  write_apart = λ w w' bytes lba n lba' n' e away.
      let written : overwrite w bytes (512 * lba) (512 * n) ≡ w' = some-injective _ _ e in
      ap some (
        range-same w' w (512 * lba') (512 * n')
          (λ i lo hi. rw (← written) (outside w bytes (512 * lba) (512 * n) i (omega arith))));
}
