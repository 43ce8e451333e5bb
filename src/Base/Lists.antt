-- ===== src/Base/Lists.antt =====
-- Lists over the native numbers.
use Prim.Native.Nat.{ℕ, suc, ◌+◌}
use mathlib.Core.Path.{◌≡◌, refl}
use mathlib.Core.Bool.{Bool, true}
use mathlib.Core.List.{List, [], ◌∷◌, ◌++◌, map}
use native.Mathlib.Omega.{arith}
use zki_nevod.Base.Tests.{if◌then◌else◌}

module _ {ℓ} {A : Type ℓ} where
  abbrev pub length : List A → ℕ
  length [] = 0
  length (x ∷ xs) = suc (length xs)

  -- `[x for x in xs if test(x)]`
  unfoldable pub select : (A → Bool) → List A → List A
  select test [] = []
  select test (x ∷ xs) = let rest = select test xs in if test x then x ∷ rest else rest

  pub length-append : (xs ys : List A) → length (xs ++ ys) ≡ length xs + length ys
  length-append [] ys = omega arith
  length-append (x ∷ xs) ys = omega (arith, length-append xs ys)

module _ {ℓ} {A : Type ℓ} where
  pub select-append :
      (p : A → Bool) (xs ys : List A) → select p (xs ++ ys) ≡ select p xs ++ select p ys
  unfolding select
  select-append p [] ys = refl
  select-append p (x ∷ xs) ys = ground (arith, select-append p xs ys)

  -- Two selections are one, where the outer test implies the inner.
  pub select-select :
      (p q : A → Bool) (xs : List A)
      → ((x : A) → p x ≡ true → q x ≡ true)
      → select p (select q xs) ≡ select p xs
  unfolding select
  select-select p q [] h = refl
  select-select p q (x ∷ xs) h = ground (arith, h x, select-select p q xs h)

abbrev pub All {ℓ κ} : {A : Type ℓ} → (A → Type κ) → List A → Type κ
All P [] = Unit
All P (x ∷ xs) = P x × All P xs

pub select-All {ℓ} : {A : Type ℓ} (p : A → Bool) (xs : List A) → All (λ x. p x ≡ true) (select p xs)
unfolding select
select-All p [] = tt
select-All p (x ∷ xs) = ground (arith, select-All p xs)

-- `[f(x) for x in xs if test(f(x))]`, both ways
pub map-select {ℓ κ} :
    {A : Type ℓ} {B : Type κ} (f : A → B) (p : B → Bool) (xs : List A)
    → map f (select (λ x. p (f x)) xs) ≡ select p (map f xs)
unfolding select
map-select f p [] = refl
map-select f p (x ∷ xs) = ground (arith, map-select f p xs)
