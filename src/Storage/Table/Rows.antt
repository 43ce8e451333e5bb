-- ===== src/Storage/Table/Rows.antt =====
-- What holds of every row of a table after each kind of statement.
use zki_nevod.Base.{
  String, ◌≡◌, Bool, List, [], ◌∷◌, str_eq, eq_iff, if◌then◌else◌, All, Bool-cases, inl, inr, subst,
  some,
}
use mathlib.Core.Option.{some-injective}
use zki_nevod.Storage.Table.{find, upsert, update, delete_where}

module _ {ℓ κ} {Row : Type ℓ} (P : Row → Type κ) (key : Row → String) where
  pub All-upsert :
      (merge : Row → Row → Row) (new : Row) (t : List Row)
      → P new
      → ((r : Row) → key r ≡ key new → P (merge r new))
      → All P t
      → All P (upsert key merge new t)
  unfolding upsert
  All-upsert merge new [] p keeps h = (p, tt)
  All-upsert merge new (r ∷ t) p keeps (h, hs) = elim (Bool-cases (str_eq (key r) (key new))) [
    | inl same ↦ rw same (keeps r ((eq_iff (key r) (key new)).0 same), hs)
    | inr other ↦ rw other (h, All-upsert merge new t p keeps hs)
  ]

  pub All-update :
      (k : String) (change : Row → Row) (t : List Row)
      → ((r : Row) → P r → P (change r))
      → All P t
      → All P (update key k change t)
  unfolding update
  All-update k change [] keeps h = tt
  All-update k change (r ∷ t) keeps (h, hs) = elim (Bool-cases (str_eq (key r) k)) [
    | inl same ↦ rw same (keeps r h, All-update k change t keeps hs)
    | inr other ↦ rw other (h, All-update k change t keeps hs)
  ]

pub All-delete_where {ℓ κ} :
    {Row : Type ℓ} (P : Row → Type κ) (test : Row → Bool) (t : List Row)
    → All P t
    → All P (delete_where test t)
unfolding delete_where
All-delete_where P test [] h = tt
All-delete_where P test (r ∷ t) (h, hs) = elim (Bool-cases (test r)) [
  | inl gone ↦ rw gone (All-delete_where P test t hs)
  | inr stays ↦ rw stays (h, All-delete_where P test t hs)
]

pub All-find {ℓ κ} :
    {Row : Type ℓ} (P : Row → Type κ) (key : Row → String) (k : String) (t : List Row) {r : Row}
    → All P t
    → find key k t ≡ some r
    → P r × (key r ≡ k)
unfolding find
All-find P key k [] h found = absurd (cc found)
All-find P key k (s ∷ t) {r} (p, h) found = elim (Bool-cases (str_eq (key s) k)) [
  | inl same ↦
      subst (λ x. P x × (key x ≡ k))
        (some-injective s r (subst (λ b. (if b then some s else find key k t) ≡ some r) same found))
        (p, (eq_iff (key s) k).0 same)
  | inr other ↦
      All-find P key k t h (subst (λ b. (if b then some s else find key k t) ≡ some r) other found)
]
