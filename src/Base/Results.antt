-- ===== src/Base/Results.antt =====
-- The outcome of a call in C: a value, a stop by `panic`, `assert` or `demand`, an access outside
-- an array, or a loop that used up the rounds that the model gives it.
use mathlib.Core.Path.{◌≡◌, refl, ap}
use mathlib.Core.Bool.{Bool, true, false}
use mathlib.Core.Option.{none, some}
use mathlib.Core.List.{List}
use Prim.Native.Nat.{ℕ}
use dfs_pios_ro.Base.Lists.{get_elem?}

pub data Outcome {ℓ} (A : Type ℓ) : Type ℓ where
  ok : A → Outcome A
  panic : Outcome A
  fault : Outcome A
  out_of_fuel : Outcome A

infixl 5 ◌>>=◌ ◌>>◌
abbrev pub ◌>>=◌ {ℓ κ} : {A : Type ℓ} {B : Type κ} → Outcome A → (A → Outcome B) → Outcome B
panic >>= next = panic
fault >>= next = fault
out_of_fuel >>= next = out_of_fuel
ok v >>= next = next v

abbrev pub ◌>>◌ {ℓ} : {B : Type ℓ} → Outcome (Unit {0}) → Outcome B → Outcome B
call >> rest = call >>= λ done. rest

-- `assert(b)` and `demand(b, …)`.
abbrev pub assert : Bool → Outcome (Unit {0})
assert true = ok tt
assert false = panic

-- `a[i]`.
abbrev pub elem_at {ℓ} : {A : Type ℓ} → List A → ℕ → Outcome A
elem_at xs i = elim (get_elem? xs i) [ none ↦ fault | some v ↦ ok v ]

pub >>=-assoc {ℓ κ ι} :
    {A : Type ℓ} {B : Type κ} {C : Type ι} (call : Outcome A) (f : A → Outcome B)
    (g : B → Outcome C)
    → ((call >>= f) >>= g) ≡ (call >>= (λ x. f x >>= g))
>>=-assoc (ok x) f g = refl
>>=-assoc panic f g = refl
>>=-assoc fault f g = refl
>>=-assoc out_of_fuel f g = refl

-- A sequence that returns has a first call that returns.
pub >>=-eq-ok {ℓ κ} :
    {A : Type ℓ} {B : Type κ} (call : Outcome A) (next : A → Outcome B) {r : B}
    → (call >>= next) ≡ ok r
    → (v : A) × (call ≡ ok v) × (next v ≡ ok r)
>>=-eq-ok panic next e = cc
>>=-eq-ok fault next e = cc
>>=-eq-ok out_of_fuel next e = cc
>>=-eq-ok (ok v) next e = (v, refl, e)

pub ok-injective {ℓ} : {A : Type ℓ} (a b : A) → ok a ≡ ok b → a ≡ b
ok-injective a b e = cc

pub >>=-ok {ℓ κ} :
    {A : Type ℓ} {B : Type κ} {call : Outcome A} {v : A} (next : A → Outcome B)
    → call ≡ ok v
    → (call >>= next) ≡ next v
>>=-ok next e = ap (λ c. c >>= next) e
