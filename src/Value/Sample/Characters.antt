-- ===== src/Value/Sample/Characters.antt =====
-- A character from its number, which takes back `code`.
use Prim.Native.Char.{Char, char, code, nul, IsLt}
use Prim.Native.Nat.{compare, Ordering}
use text.Mathlib.TextEquality.{Char-path}
use zki_nevod.Base.{ℕ, ◌≡◌, refl, Option, none, some}

abbrev BothLess : Ordering → Ordering → Type 0
BothLess Ordering.lt o = IsLt o
BothLess Ordering.eq _ = ⊥
BothLess Ordering.gt _ = ⊥

-- the built-in condition on the number of a character
abbrev Scalar : Ordering → Ordering → Ordering → Type 0
Scalar Ordering.lt _ _ = Unit
Scalar Ordering.eq o p = BothLess o p
Scalar Ordering.gt o p = BothLess o p

less? : (o : Ordering) → Option (IsLt o)
less? Ordering.lt = some tt
less? Ordering.eq = none
less? Ordering.gt = none

both_less? : (o p : Ordering) → Option (BothLess o p)
both_less? Ordering.lt p = less? p
both_less? Ordering.eq _ = none
both_less? Ordering.gt _ = none

scalar? : (o p q : Ordering) → Option (Scalar o p q)
scalar? Ordering.lt _ _ = some tt
scalar? Ordering.eq o p = both_less? o p
scalar? Ordering.gt o p = both_less? o p

less?_found : (o : Ordering) → IsLt o → (h : IsLt o) × (less? o ≡ some h)
unfolding less?
less?_found Ordering.lt h = (tt, refl)
less?_found Ordering.eq h = absurd h
less?_found Ordering.gt h = absurd h

both_less?_found : (o p : Ordering) → BothLess o p → (h : BothLess o p) × (both_less? o p ≡ some h)
unfolding both_less?
both_less?_found Ordering.lt p h = less?_found p h
both_less?_found Ordering.eq p h = absurd h
both_less?_found Ordering.gt p h = absurd h

scalar?_found : (o p q : Ordering) → Scalar o p q → (h : Scalar o p q) × (scalar? o p q ≡ some h)
unfolding scalar?
scalar?_found Ordering.lt p q h = (tt, refl)
scalar?_found Ordering.eq p q h = both_less?_found p q h
scalar?_found Ordering.gt p q h = both_less?_found p q h

or_nul : (n : ℕ) → Option (Scalar (compare n 55296) (compare 57343 n) (compare n 1114112)) → Char
or_nul n none = nul
or_nul n (some h) = char n h

unfoldable pub to_char : ℕ → Char
unfolding scalar? both_less? less? or_nul
to_char n = or_nul n (scalar? (compare n 55296) (compare 57343 n) (compare n 1114112))

pub to_char-code : (c : Char) → to_char (code c) ≡ c
unfolding to_char
to_char-code (char n p) =
    let (h, e) = scalar?_found (compare n 55296) (compare 57343 n) (compare n 1114112) p in
    rw e (Char-path (char n h) (char n p) refl)
