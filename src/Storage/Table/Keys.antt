-- ===== src/Storage/Table/Keys.antt =====
-- The primary key of a table and the statements on it.
use zki_nevod.Base.{
  String, ◌≡◌, refl, Bool, false, not, none, List, [], ◌∷◌, str_eq, eq_iff, select, arith,
}
use zki_nevod.Storage.Table.{find, upsert, insert_or_ignore, update, delete_where}

module _ {ℓ} {Row : Type ℓ} (key : Row → String) where
  abbrev pub NodupKeys : List Row → Type ℓ
  NodupKeys [] = Unit
  NodupKeys (r ∷ t) = (find key (key r) t ≡ none) × NodupKeys t

  find-upsert-none :
      (merge : Row → Row → Row) (new : Row) (k : String) (t : List Row)
      → ((r : Row) → key (merge r new) ≡ key r)
      → find key k t ≡ none
      → str_eq (key new) k ≡ false
      → find key k (upsert key merge new t) ≡ none
  unfolding find upsert
  find-upsert-none merge new k [] keeps h ne = ground arith
  find-upsert-none merge new k (r ∷ t) keeps h ne =
      ground (arith, keeps r, find-upsert-none merge new k t keeps)

  pub upsert-NodupKeys :
      (merge : Row → Row → Row) (new : Row) (t : List Row)
      → ((r : Row) → key (merge r new) ≡ key r)
      → NodupKeys t
      → NodupKeys (upsert key merge new t)
  unfolding find upsert
  upsert-NodupKeys merge new [] keeps h = (refl, tt)
  upsert-NodupKeys merge new (r ∷ t) keeps (fresh, u) = ground (
    arith,
    keeps r,
    upsert-NodupKeys merge new t keeps u,
    find-upsert-none merge new (key r) t keeps fresh,
    eq_iff (key r) (key new),
    eq_iff (key new) (key r),
  )

  find-insert_or_ignore-none :
      (new : Row) (k : String) (t : List Row)
      → find key k t ≡ none
      → str_eq (key new) k ≡ false
      → find key k (insert_or_ignore key new t) ≡ none
  unfolding find insert_or_ignore
  find-insert_or_ignore-none new k [] h ne = ground arith
  find-insert_or_ignore-none new k (r ∷ t) h ne = ground (arith, find-insert_or_ignore-none new k t)

  pub insert_or_ignore-NodupKeys :
      (new : Row) (t : List Row) → NodupKeys t → NodupKeys (insert_or_ignore key new t)
  unfolding find insert_or_ignore
  insert_or_ignore-NodupKeys new [] h = (refl, tt)
  insert_or_ignore-NodupKeys new (r ∷ t) (fresh, u) = ground (
    arith,
    insert_or_ignore-NodupKeys new t u,
    find-insert_or_ignore-none new (key r) t fresh,
    eq_iff (key r) (key new),
    eq_iff (key new) (key r),
  )

  find-update-none :
      (k j : String) (change : Row → Row) (t : List Row)
      → ((r : Row) → key (change r) ≡ key r)
      → find key j t ≡ none
      → find key j (update key k change t) ≡ none
  unfolding find update
  find-update-none k j change [] keeps h = refl
  find-update-none k j change (r ∷ t) keeps h =
      ground (arith, keeps r, find-update-none k j change t keeps)

  pub update-NodupKeys :
      (k : String) (change : Row → Row) (t : List Row)
      → ((r : Row) → key (change r) ≡ key r)
      → NodupKeys t
      → NodupKeys (update key k change t)
  unfolding find update
  update-NodupKeys k change [] keeps h = tt
  update-NodupKeys k change (r ∷ t) keeps (fresh, u) = ground (
    arith,
    keeps r,
    update-NodupKeys k change t keeps u,
    find-update-none k (key r) change t keeps fresh,
  )

  find-select-none :
      (test : Row → Bool) (k : String) (t : List Row)
      → find key k t ≡ none
      → find key k (select test t) ≡ none
  unfolding find select
  find-select-none test k [] h = refl
  find-select-none test k (r ∷ t) h = ground (arith, find-select-none test k t)

  pub delete_where-NodupKeys :
      (test : Row → Bool) (t : List Row) → NodupKeys t → NodupKeys (delete_where test t)
  unfolding find delete_where
  delete_where-NodupKeys test [] h = tt
  delete_where-NodupKeys test (r ∷ t) (fresh, u) =
      ground (
        arith,
        delete_where-NodupKeys test t u,
        find-select-none (λ s. not (test s)) (key r) t fresh,
      )
