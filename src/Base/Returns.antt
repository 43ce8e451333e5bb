-- ===== src/Base/Returns.antt =====
-- Coroutines that never raise, or raise certain exceptions only.
use mathlib.Core.Path.{◌≡◌, refl}
use mathlib.Core.Bool.{Bool, true, false}
use zki_nevod.Base.Tests.{if◌then◌else◌}
use zki_nevod.Base.Outcome.{Error, Result, ok, err}
use zki_nevod.Base.Effects.{Exec, pure, continue, ◌>>=◌}

abbrev pub IsOk {ℓ} : {A : Type ℓ} → Result A → Type 0
IsOk (ok a) = Unit
IsOk (err e) = ⊥

pub record Returns {ℓ} {S A : Type ℓ} (m : Exec S A) : Type ℓ where
  pub at : (s : S) → IsOk (m s).0

pub IsOk-Unit : (r : Result (Unit {0})) → IsOk r → r ≡ ok tt
IsOk-Unit (ok a) h = refl
IsOk-Unit (err e) h = absurd h

pub Returns-pure {ℓ} : {S A : Type ℓ} (a : A) → Returns {S = S} (pure a)
Returns-pure a = record { at = λ s. tt }

module _ {ℓ} {S A B : Type ℓ} where
  continue-IsOk :
      (r : Result A) (f : A → Exec S B) (s : S)
      → IsOk r
      → ((a : A) → Returns (f a))
      → IsOk (continue r f s).0
  continue-IsOk (ok a) f s h rest = (rest a).at s
  continue-IsOk (err e) f s h rest = absurd h

  pub Returns-bind :
      (m : Exec S A) (f : A → Exec S B) → Returns m → ((a : A) → Returns (f a)) → Returns (m >>= f)
  Returns-bind m f h rest = record { at = λ s. continue-IsOk (m s).0 f (m s).1 (h.at s) rest }

pub Returns-if {ℓ} :
    {S A : Type ℓ} (b : Bool) (m n : Exec S A)
    → Returns m
    → Returns n
    → Returns (if b then m else n)
Returns-if true m n hm hn = hm
Returns-if false m n hm hn = hn

-- an exception, if there is one, of a kind
abbrev pub RaisesOnly {ℓ} : {A : Type ℓ} → (Error → Type 0) → Result A → Type 0
RaisesOnly P (ok a) = Unit
RaisesOnly P (err e) = P e

pub record Ends {ℓ} {S A : Type ℓ} (P : Error → Type 0) (m : Exec S A) : Type ℓ where
  pub at : (s : S) → RaisesOnly P (m s).0

RaisesOnly-weaken {ℓ} :
    {A : Type ℓ} (P Q : Error → Type 0) (r : Result A)
    → ((e : Error) → P e → Q e)
    → RaisesOnly P r
    → RaisesOnly Q r
RaisesOnly-weaken P Q (ok a) f h = tt
RaisesOnly-weaken P Q (err e) f h = f e h

RaisesOnly-IsOk {ℓ} : {A : Type ℓ} (P : Error → Type 0) (r : Result A) → IsOk r → RaisesOnly P r
RaisesOnly-IsOk P (ok a) h = tt
RaisesOnly-IsOk P (err e) h = absurd h

pub Ends-weaken {ℓ} :
    {S A : Type ℓ} (P Q : Error → Type 0) (m : Exec S A)
    → ((e : Error) → P e → Q e)
    → Ends P m
    → Ends Q m
Ends-weaken P Q m f h = record { at = λ s. RaisesOnly-weaken P Q (m s).0 f (h.at s) }

pub Ends-Returns {ℓ} : {S A : Type ℓ} (P : Error → Type 0) (m : Exec S A) → Returns m → Ends P m
Ends-Returns P m h = record { at = λ s. RaisesOnly-IsOk P (m s).0 (h.at s) }

module _ {ℓ} {S A B : Type ℓ} (P : Error → Type 0) where
  continue-RaisesOnly :
      (r : Result A) (f : A → Exec S B) (s : S)
      → RaisesOnly P r
      → ((a : A) → Ends P (f a))
      → RaisesOnly P (continue r f s).0
  continue-RaisesOnly (ok a) f s h rest = (rest a).at s
  continue-RaisesOnly (err e) f s h rest = h

  pub Ends-bind :
      (m : Exec S A) (f : A → Exec S B) → Ends P m → ((a : A) → Ends P (f a)) → Ends P (m >>= f)
  Ends-bind m f h rest = record { at = λ s. continue-RaisesOnly (m s).0 f (m s).1 (h.at s) rest }

pub Ends-if {ℓ} :
    {S A : Type ℓ} (P : Error → Type 0) (b : Bool) (m n : Exec S A)
    → Ends P m
    → Ends P n
    → Ends P (if b then m else n)
Ends-if P true m n hm hn = hm
Ends-if P false m n hm hn = hn
