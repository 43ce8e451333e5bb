-- ===== src/Storage/Table.antt =====
-- A SQL table with a text primary key, and the statements of node/storage.py in the form in which
-- they act on it. Rows stand in the order of their insertion, in which SQLite scans them.
pub mod Laws
pub mod Keys
pub mod Rows
use zki_nevod.Base.{
  String, Bool, not, Option, none, some, List, [], ◌∷◌, str_eq, if◌then◌else◌, select,
}

module _ {ℓ} {Row : Type ℓ} (key : Row → String) where
  -- `SELECT * FROM t WHERE key = ?`, of which the first row is fetched
  unfoldable pub find : String → List Row → Option Row
  find k [] = none
  find k (r ∷ t) = if str_eq (key r) k then some r else find k t

  -- `INSERT INTO t ... ON CONFLICT(key) DO UPDATE SET ...`: `merge old new` is the updated row
  unfoldable pub upsert : (Row → Row → Row) → Row → List Row → List Row
  upsert merge new [] = new ∷ []
  upsert merge new (r ∷ t) =
      if str_eq (key r) (key new) then merge r new ∷ t else r ∷ upsert merge new t

  -- `INSERT OR IGNORE INTO t ...`
  unfoldable pub insert_or_ignore : Row → List Row → List Row
  insert_or_ignore new [] = new ∷ []
  insert_or_ignore new (r ∷ t) =
      if str_eq (key r) (key new) then r ∷ t else r ∷ insert_or_ignore new t

  -- `UPDATE t SET ... WHERE key = ?`
  unfoldable pub update : String → (Row → Row) → List Row → List Row
  update k change [] = []
  update k change (r ∷ t) = (if str_eq (key r) k then change r else r) ∷ update k change t

-- `DELETE FROM t WHERE test`
unfoldable pub delete_where {ℓ} : {Row : Type ℓ} → (Row → Bool) → List Row → List Row
unfolding select
delete_where test t = select (λ r. not (test r)) t
