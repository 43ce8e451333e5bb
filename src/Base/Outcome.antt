-- ===== src/Base/Outcome.antt =====
-- What a Python call returns or raises. The exceptions are told apart as far as the code does.
use mathlib.Core.Path.{◌≡◌, refl}
use mathlib.Core.Logic.{◌⊎◌, inl, inr}

pub data Error : Type 0 where
  key_error type_error attribute_error value_error runtime_error : Error
  connection_closed connection_error timeout_error file_not_found : Error
  invalid_signature invalid_tag unpack_error callback_error : Error

pub data Result {ℓ} (A : Type ℓ) : Type ℓ where
  err : Error → Result A
  ok : A → Result A

module _ {ℓ κ} {A : Type ℓ} {B : Type κ} where
  infixl 5 ◌>>=◌ ◌>>◌
  -- The first error ends a block.
  abbrev pub ◌>>=◌ : Result A → (A → Result B) → Result B
  ◌>>=◌ (err e) next = err e
  ◌>>=◌ (ok a) next = next a

  abbrev pub ◌>>◌ : Result A → Result B → Result B
  ◌>>◌ first second = first >>= λ _. second

  -- A successful block is one whose first step succeeded and whose rest did.
  pub >>=-eq-ok :
      (first : Result A) (next : A → Result B) {b : B}
      → (first >>= next) ≡ ok b
      → (a : A) × (first ≡ ok a) × (next a ≡ ok b)
  >>=-eq-ok (err e) next done = cc
  >>=-eq-ok (ok a) next done = (a, refl, done)

pub ok_injective {ℓ} : {A : Type ℓ} {a b : A} → ok a ≡ ok b → a ≡ b
ok_injective h = cc

pub Result-cases {ℓ} :
    {A : Type ℓ} (r : Result A) → ((e : Error) × (r ≡ err e)) ⊎ ((a : A) × (r ≡ ok a))
Result-cases (err e) = inl (e, refl)
Result-cases (ok a) = inr (a, refl)
