-- ===== src/Base/Effects.antt =====
-- Coroutines that change a state and may raise: what was written before a raise stays written.
use zki_nevod.Base.Outcome.{Error, Result, ok, err}

abbrev pub Exec {ℓ} : Type ℓ → Type ℓ → Type ℓ
Exec S A = S → Result A × S

module _ {ℓ} {S A : Type ℓ} where
  abbrev pub pure : A → Exec S A
  pure a s = (ok a, s)

  abbrev pub raise : Error → Exec S A
  raise e s = (err e, s)

  abbrev pub lift : Result A → Exec S A
  lift r s = (r, s)

  abbrev pub gets : (S → A) → Exec S A
  gets f s = (ok (f s), s)

  -- `try: m` with `except Exception: h`
  abbrev pub handle : Result A → Exec S A → Exec S A
  handle (ok a) h s = (ok a, s)
  handle (err e) h s = h s

  abbrev pub catch : Exec S A → Exec S A → Exec S A
  catch m h s = let (r, t) = m s in handle r h t

module _ {ℓ} {S A B : Type ℓ} where
  abbrev pub continue : Result A → (A → Exec S B) → Exec S B
  continue (ok a) f s = f a s
  continue (err e) f s = (err e, s)

  infixl 5 ◌>>=◌ ◌>>◌
  abbrev pub ◌>>=◌ : Exec S A → (A → Exec S B) → Exec S B
  ◌>>=◌ m f s = let (r, t) = m s in continue r f t

  abbrev pub ◌>>◌ : Exec S A → Exec S B → Exec S B
  m >> n = m >>= λ _. n

module _ {ℓ} {S : Type ℓ} {A : Type ℓ} {B : Type ℓ} where
  -- `try: a = r` with `except Exception: return b`, and what follows
  abbrev pub attempt : Result A → B → (A → Exec S B) → Exec S B
  attempt (ok a) b f s = f a s
  attempt (err e) b f s = (ok b, s)
