-- ===== src/Base/Keeps.antt =====
-- Invariants of coroutines: `m` keeps `P` whether it returns or raises, and what it returns
-- satisfies `R`. One rule for each way to build a coroutine.
use mathlib.Core.Path.{◌≡◌, refl}
use mathlib.Core.Bool.{Bool, true, false}
use zki_nevod.Base.Tests.{if◌then◌else◌}
use zki_nevod.Base.Outcome.{Error, Result, ok, err}
use zki_nevod.Base.Effects.{Exec, pure, raise, lift, handle, catch, continue, attempt, ◌>>=◌}

abbrev pub Holds {ℓ κ} : {A : Type ℓ} → (A → Type κ) → Result A → Type κ
Holds R (ok a) = R a
Holds R (err e) = Unit

-- no claim of the result
abbrev pub Any {ℓ} : {A : Type ℓ} → A → Type 0
Any a = Unit

pub record Keeps {ℓ} {S A : Type ℓ} (P : S → Type 0) (R : A → Type 0) (m : Exec S A) : Type ℓ where
  pub at : (s : S) → P s → P (m s).1 × Holds R (m s).0

Holds-of_eq {ℓ} :
    {A : Type ℓ} {R : A → Type 0} (r : Result A) → ((a : A) → r ≡ ok a → R a) → Holds R r
Holds-of_eq (ok a) h = h a refl
Holds-of_eq (err e) h = tt

Any-Holds {ℓ} : {A : Type ℓ} (r : Result A) → Holds Any r
Any-Holds (ok a) = tt
Any-Holds (err e) = tt

module _ {ℓ} {S A : Type ℓ} {P : S → Type 0} where
  pub Keeps-pure : {R : A → Type 0} (a : A) → R a → Keeps P R (pure a)
  Keeps-pure a r = record { at = λ s h. (h, r) }

  pub Keeps-raise : {R : A → Type 0} (e : Error) → Keeps P R (raise {A = A} e)
  Keeps-raise e = record { at = λ s h. (h, tt) }

  pub Keeps-lift : {R : A → Type 0} (r : Result A) → ((a : A) → r ≡ ok a → R a) → Keeps P R (lift r)
  Keeps-lift {R} r h = record { at = λ s k. (k, Holds-of_eq {R = R} r h) }

  -- The state is what matters.
  pub Keeps-Any : (m : Exec S A) → ((s : S) → P s → P (m s).1) → Keeps P Any m
  Keeps-Any m h = record { at = λ s k. (h s k, Any-Holds (m s).0) }

  pub Keeps-if :
      {R : A → Type 0} (b : Bool) (m n : Exec S A)
      → (b ≡ true → Keeps P R m)
      → (b ≡ false → Keeps P R n)
      → Keeps P R (if b then m else n)
  Keeps-if true m n km kn = km refl
  Keeps-if false m n km kn = kn refl

  handle-Keeps :
      {R : A → Type 0} (r : Result A) (n : Exec S A) (s : S)
      → P s
      → Holds R r
      → Keeps P R n
      → P (handle r n s).1 × Holds R (handle r n s).0
  handle-Keeps (ok a) n s p h kn = (p, h)
  handle-Keeps (err e) n s p h kn = kn.at s p

  pub Keeps-catch :
      {R : A → Type 0} (m n : Exec S A) → Keeps P R m → Keeps P R n → Keeps P R (catch m n)
  Keeps-catch {R} m n km kn = record {
    at = λ s p. let (q, h) = km.at s p in handle-Keeps {R = R} (m s).0 n (m s).1 q h kn;
  }

module _ {ℓ} {S A B : Type ℓ} {P : S → Type 0} where
  continue-Keeps :
      {Q : A → Type 0} {R : B → Type 0} (r : Result A) (f : A → Exec S B) (s : S)
      → P s
      → Holds Q r
      → ((a : A) → Q a → Keeps P R (f a))
      → P (continue r f s).1 × Holds R (continue r f s).0
  continue-Keeps (ok a) f s p h kf = (kf a h).at s p
  continue-Keeps (err e) f s p h kf = (p, tt)

  pub Keeps-bind :
      {Q : A → Type 0} {R : B → Type 0} (m : Exec S A) (f : A → Exec S B)
      → Keeps P Q m
      → ((a : A) → Q a → Keeps P R (f a))
      → Keeps P R (m >>= f)
  Keeps-bind {Q} {R} m f km kf = record {
    at = λ s p. let (q, h) = km.at s p in continue-Keeps {Q = Q} {R = R} (m s).0 f (m s).1 q h kf;
  }

  -- A step whose outcome, error or not, a function goes on from.
  pub Keeps-after :
      {Q : A → Type 0} {R : B → Type 0} (m : Exec S A) (f : Result A → Exec S B)
      → Keeps P Q m
      → ((r : Result A) → Holds Q r → Keeps P R (f r))
      → Keeps P R (λ s. f (m s).0 (m s).1)
  Keeps-after m f km kf = record {
    at = λ s p. let (q, h) = km.at s p in (kf (m s).0 h).at (m s).1 q;
  }

  pub Keeps-attempt :
      {R : B → Type 0} (r : Result A) (b : B) (f : A → Exec S B)
      → R b
      → ((a : A) → r ≡ ok a → Keeps P R (f a))
      → Keeps P R (attempt r b f)
  Keeps-attempt (ok a) b f h kf = record { at = λ s p. (kf a refl).at s p }
  Keeps-attempt (err e) b f h kf = record { at = λ s p. (p, h) }
