-- ===== src/Fat32/Writing/Rounds.antt =====
-- The walk taken round by round, and the 32-bit arithmetic of its tests where nothing wraps.
use dfs_pios_ro.Fat32.Writing.{walk_loop, Walked, walk_step}
use dfs_pios_ro.Fat32.Disk.{SdCard, System}
use dfs_pios_ro.Base.{
  suc, arith, ℕ, ◌*◌, ◌<◌, List, ◌^◌, ◌≤◌, u32, ◌+◌, ◌≡◌, ◌-◌, ok, false, true, ==-false_of_ne, ltb,
  leb, lt→ltb, ltb-false_of_le, le→leb, leb-false_of_lt,
}

count-le : (count spc : ℕ) → 0 < spc → count ≤ count * spc
count-le count spc h = grind arith

-- `cluster_count` after its increment, and the two products that the tests compare with.
pub round_suc :
    (count spc : ℕ) → 0 < spc → count * (512 * spc) < 2 ^ 32 → u32 (count + 1) ≡ suc count
round_suc count spc h top = omega (arith, count-le count spc h)

pub before_eq :
    (count spc : ℕ)
    → count * (512 * spc) < 2 ^ 32
    → u32 ((suc count - 1) * 512 * spc) ≡ count * (512 * spc)
before_eq count spc top = let e : suc count - 1 ≡ count = omega arith in rw e (omega arith)

pub after_eq :
    (count spc : ℕ)
    → suc count * (512 * spc) < 2 ^ 32
    → u32 (suc count * 512 * spc) ≡ suc count * (512 * spc)
after_eq count spc top = omega arith

module _ {W : Type 0} (sd : SdCard W) (bytes : List ℕ) (nbytes k : ℕ) (s : System W)
    (c start index count : ℕ) {count' : ℕ} (lo : 2 ≤ c) (e : u32 (count + 1) ≡ count') where
  pub walk_loop-next :
      {v : Walked W}
      → walk_step sd bytes nbytes s c start index count' ≡ ok (true, v)
      → walk_loop sd bytes nbytes (suc k) s c start index count
        ≡ walk_loop sd bytes nbytes k v.sys v.cluster v.start v.data_index count'
  unfolding walk_loop
  walk_loop-next step = rw (==-false_of_ne c 0 (ground arith), e, step)

  pub walk_loop-stop :
      {v : Walked W}
      → walk_step sd bytes nbytes s c start index count' ≡ ok (false, v)
      → walk_loop sd bytes nbytes (suc k) s c start index count ≡ ok v
  unfolding walk_loop
  walk_loop-stop step = rw (==-false_of_ne c 0 (ground arith), e, step)

-- The tests of the walk where nothing wraps.
module _ (nbytes count spc : ℕ) where
  pub before-false :
      count * (512 * spc) < 2 ^ 32
      → count * (512 * spc) < nbytes
      → leb nbytes (u32 ((suc count - 1) * 512 * spc)) ≡ false
  before-false top h = rw (before_eq count spc top) (leb-false_of_lt nbytes _ h)

  pub before-true :
      count * (512 * spc) < 2 ^ 32
      → nbytes ≤ count * (512 * spc)
      → leb nbytes (u32 ((suc count - 1) * 512 * spc)) ≡ true
  before-true top h = rw (before_eq count spc top) (le→leb nbytes _ h)

  pub after-false :
      suc count * (512 * spc) < 2 ^ 32
      → suc count * (512 * spc) < nbytes
      → leb nbytes (u32 (suc count * 512 * spc)) ≡ false
  after-false top h = rw (after_eq count spc top) (leb-false_of_lt nbytes _ h)

  pub after-true :
      suc count * (512 * spc) < 2 ^ 32
      → nbytes ≤ suc count * (512 * spc)
      → leb nbytes (u32 (suc count * 512 * spc)) ≡ true
  after-true top h = rw (after_eq count spc top) (le→leb nbytes _ h)

  pub more-false :
      suc count * (512 * spc) < 2 ^ 32
      → nbytes ≤ suc count * (512 * spc)
      → ltb (u32 (suc count * 512 * spc)) nbytes ≡ false
  more-false top h = rw (after_eq count spc top) (ltb-false_of_le _ nbytes h)

  pub more-true :
      suc count * (512 * spc) < 2 ^ 32
      → suc count * (512 * spc) < nbytes
      → ltb (u32 (suc count * 512 * spc)) nbytes ≡ true
  more-true top h = rw (after_eq count spc top) (lt→ltb _ nbytes h)
