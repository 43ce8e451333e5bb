-- ===== src/Storage/Table/Laws.antt =====
-- What a look-up in a table finds after each statement.
use zki_nevod.Base.{
  String, ◌≡◌, refl, Bool, not, Option, none, some, List, [], ◌∷◌, str_eq, eq_iff, if◌then◌else◌,
  select, arith, Bool-cases, inl, inr,
}
use zki_nevod.Storage.Table.Keys.{NodupKeys}
use zki_nevod.Storage.Table.{find, upsert, insert_or_ignore, update, delete_where}

module _ {ℓ} {Row : Type ℓ} where
  -- the row that an upsert leaves for its key
  abbrev pub merged : (Row → Row → Row) → Row → Option Row → Row
  merged merge new none = new
  merged merge new (some r) = merge r new

  abbrev pub kept : Row → Option Row → Row
  kept new none = new
  kept new (some r) = r

  -- a row that the statement did not delete
  abbrev pub spared : (Row → Bool) → Option Row → Option Row
  spared test none = none
  spared test (some r) = if test r then none else some r

  abbrev pub changed : (Row → Row) → Option Row → Option Row
  changed change none = none
  changed change (some r) = some (change r)

module _ {ℓ} {Row : Type ℓ} (key : Row → String) where
  abbrev pub HasKey : String → Option Row → Type 0
  HasKey k none = Unit
  HasKey k (some r) = key r ≡ k

  pub find-HasKey : (k : String) (t : List Row) → HasKey k (find key k t)
  unfolding find
  find-HasKey k [] = tt
  find-HasKey k (r ∷ t) = elim (Bool-cases (str_eq (key r) k)) [
    | inl same ↦ rw same ((eq_iff (key r) k).0 same)
    | inr other ↦ rw other (find-HasKey k t)
  ]

  pub find-upsert :
      (merge : Row → Row → Row) (new : Row) (k : String) (t : List Row)
      → ((r : Row) → key (merge r new) ≡ key r)
      → find key k (upsert key merge new t)
        ≡ (if str_eq (key new) k then some (merged merge new (find key k t)) else find key k t)
  unfolding find upsert
  find-upsert merge new k [] keeps = ground arith
  find-upsert merge new k (r ∷ t) keeps = ground (
    arith,
    keeps r,
    find-upsert merge new k t keeps,
    eq_iff (key r) (key new),
    eq_iff (key r) k,
    eq_iff (key new) k,
  )

  pub find-insert_or_ignore :
      (new : Row) (k : String) (t : List Row)
      → find key k (insert_or_ignore key new t)
        ≡ (if str_eq (key new) k then some (kept new (find key k t)) else find key k t)
  unfolding find insert_or_ignore
  find-insert_or_ignore new k [] = ground arith
  find-insert_or_ignore new k (r ∷ t) = ground (
    arith,
    find-insert_or_ignore new k t,
    eq_iff (key r) (key new),
    eq_iff (key r) k,
    eq_iff (key new) k,
  )

  pub find-update :
      (k j : String) (change : Row → Row) (t : List Row)
      → ((r : Row) → key (change r) ≡ key r)
      → find key j (update key k change t)
        ≡ (if str_eq k j then changed change (find key j t) else find key j t)
  unfolding find update
  find-update k j change [] keeps = ground arith
  find-update k j change (r ∷ t) keeps = ground (
    arith,
    keeps r,
    find-update k j change t keeps,
    eq_iff (key r) k,
    eq_iff (key r) j,
    eq_iff k j,
  )

  find-select-none :
      (test : Row → Bool) (k : String) (t : List Row)
      → find key k t ≡ none
      → find key k (select test t) ≡ none
  unfolding find select
  find-select-none test k [] h = refl
  find-select-none test k (r ∷ t) h = ground (arith, find-select-none test k t)

  -- Where the key is unique, a look-up after a deletion finds the row unless it passed the test.
  pub find-delete_where :
      (test : Row → Bool) (k : String) (t : List Row)
      → NodupKeys key t
      → find key k (delete_where test t) ≡ spared test (find key k t)
  unfolding find delete_where
  find-delete_where test k [] u = refl
  find-delete_where test k (r ∷ t) (fresh, u) = ground (
    arith,
    find-delete_where test k t u,
    eq_iff (key r) k,
    find-select-none (λ s. not (test s)) k t,
  )

  -- A deletion by key.
  pub find-delete_key :
      (j k : String) (t : List Row)
      → find key k (delete_where (λ r. str_eq (key r) j) t)
        ≡ (if str_eq j k then none else find key k t)
  unfolding find delete_where
  find-delete_key j k [] = ground arith
  find-delete_key j k (r ∷ t) =
      ground (arith, find-delete_key j k t, eq_iff (key r) k, eq_iff (key r) j, eq_iff j k)
