-- ===== src/Base/Dict.antt =====
-- A Python `dict` with text keys: an association list in insertion order.
use Prim.Native.String.{String}
use mathlib.Core.Path.{◌≡◌, refl, sym, subst}
use mathlib.Core.Option.{Option, none, some, some-injective}
use mathlib.Core.Logic.{inl, inr}
use mathlib.Core.List.{List, [], ◌∷◌}
use native.Mathlib.Omega.{arith}
use text.Mathlib.Text.{◌==◌}
use text.Mathlib.TextEquality.{eq_iff}
use zki_nevod.Base.Tests.{if◌then◌else◌, Bool-cases}
use zki_nevod.Base.Lists.{All}

abbrev pub Dict {ℓ} : Type ℓ → Type ℓ
Dict V = List (String × V)

module _ {ℓ} {V : Type ℓ} where
  -- `d.get(k)`
  unfoldable pub get : String → Dict V → Option V
  get k [] = none
  get k ((j, v) ∷ d) = if j == k then some v else get k d

  -- `d[k] = v`
  unfoldable pub put : String → V → Dict V → Dict V
  put k v [] = (k, v) ∷ []
  put k v ((j, w) ∷ d) = if j == k then (j, v) ∷ d else (j, w) ∷ put k v d

  -- `d.pop(k, None)`; a real dict has at most one entry of a key
  unfoldable pub pop : String → Dict V → Dict V
  pop k [] = []
  pop k ((j, w) ∷ d) = let rest = pop k d in if j == k then rest else (j, w) ∷ rest

  pub get-put :
      (j k : String) (v : V) (d : Dict V) → get j (put k v d) ≡ (if k == j then some v else get j d)
  unfolding get put
  get-put j k v [] = refl
  get-put j k v ((i, w) ∷ d) = ground (arith, eq_iff k j, eq_iff i k, eq_iff i j, get-put j k v d)

  pub get-pop : (j k : String) (d : Dict V) → get j (pop k d) ≡ (if k == j then none else get j d)
  unfolding get pop
  get-pop j k [] = ground arith
  get-pop j k ((i, w) ∷ d) = ground (arith, eq_iff k j, eq_iff i k, eq_iff i j, get-pop j k d)

module _ {ℓ κ} {V : Type ℓ} (P : String → V → Type κ) where
  -- every entry has the property
  abbrev pub AllEntries : Dict V → Type κ
  AllEntries d = All (λ (k, v). P k v) d

  pub AllEntries-put :
      (k : String) (v : V) (d : Dict V) → P k v → AllEntries d → AllEntries (put k v d)
  unfolding put
  AllEntries-put k v [] p h = (p, tt)
  AllEntries-put k v ((j, w) ∷ d) p (q, h) = elim (Bool-cases (j == k)) [
    | inl same ↦ rw same (subst (λ i. P i v) (sym ((eq_iff j k).0 same)) p, h)
    | inr other ↦ rw other (q, AllEntries-put k v d p h)
  ]

  pub AllEntries-pop : (k : String) (d : Dict V) → AllEntries d → AllEntries (pop k d)
  unfolding pop
  AllEntries-pop k [] h = tt
  AllEntries-pop k ((j, w) ∷ d) (q, h) = elim (Bool-cases (j == k)) [
    | inl same ↦ rw same (AllEntries-pop k d h)
    | inr other ↦ rw other (q, AllEntries-pop k d h)
  ]

  pub AllEntries-get : (k : String) (d : Dict V) {v : V} → AllEntries d → get k d ≡ some v → P k v
  unfolding get
  AllEntries-get k [] h found = absurd (cc found)
  AllEntries-get k ((j, w) ∷ d) {v} (q, h) found = elim (Bool-cases (j == k)) [
    | inl same ↦
        subst (λ i. P i v) ((eq_iff j k).0 same)
          (subst (P j)
            (some-injective w v (subst (λ b. (if b then some w else get k d) ≡ some v) same found))
            q)
    | inr other ↦
        AllEntries-get k d h (subst (λ b. (if b then some w else get k d) ≡ some v) other found)
  ]
