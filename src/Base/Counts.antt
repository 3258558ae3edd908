-- ===== src/Base/Counts.antt =====
-- How often a number stands in a list.
use Prim.Native.Nat.{ℕ, ◌+◌}
use mathlib.Core.Path.{◌≡◌}
use mathlib.Core.Logic.{◌≢◌}
use mathlib.Core.List.{List, [], ◌∷◌, ◌++◌}
use native.Mathlib.Omega.{arith}
use dfs_pios_ro.Base.Tests.{◌==◌, if◌then◌else◌}

abbrev pub hit : ℕ → ℕ → ℕ
hit a x = if x == a then 1 else 0

abbrev pub copies : ℕ → List ℕ → ℕ
copies a [] = 0
copies a (x ∷ xs) = hit a x + copies a xs

pub copies-append : (a : ℕ) (xs ys : List ℕ) → copies a (xs ++ ys) ≡ copies a xs + copies a ys
copies-append a [] ys = omega arith
copies-append a (x ∷ xs) ys = omega (arith, copies-append a xs ys)

pub copies-last : (a : ℕ) (xs : List ℕ) (x : ℕ) → copies a (xs ++ (x ∷ [])) ≡ copies a xs + hit a x
copies-last a xs x = omega (arith, copies-append a xs (x ∷ []))

pub hit_self : (a : ℕ) → hit a a ≡ 1
hit_self a = ground arith

pub hit-eq : (a x : ℕ) → a ≢ x → hit a x ≡ 0
hit-eq a x ne = ground arith
