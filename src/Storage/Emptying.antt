-- ===== src/Storage/Emptying.antt =====
-- The message buffer of node/storage.py when every message that was fetched is deleted.
use zki_nevod.Base.{
  ℕ, String, ◌≡◌, refl, ◌∙◌, ap, Bool, true, false, ◌&&◌, ◌||◌, List, [], ◌∷◌, if◌then◌else◌,
  str_eq, eq_refl, ltb, All, select, Bool-cases, inl, inr, arith,
}
use zki_nevod.Storage.Table.{delete_where}
use zki_nevod.Storage.{BufferedMessage, Db, delete_buffered, get_buffered}

-- Messages are deleted one by one.
abbrev pub delete_each : List BufferedMessage → Db → Db
delete_each [] db = db
delete_each (m ∷ ms) db = delete_each ms (delete_buffered m.message_id db)

abbrev delete_rows : List BufferedMessage → List BufferedMessage → List BufferedMessage
delete_rows [] t = t
delete_rows (m ∷ ms) t = delete_rows ms (delete_where (λ r. str_eq r.message_id m.message_id) t)

-- one of the messages has the id
abbrev has_id : String → List BufferedMessage → Bool
has_id id [] = false
has_id id (m ∷ ms) = str_eq id m.message_id || has_id id ms

delete_rows-nil : (ms : List BufferedMessage) → delete_rows ms [] ≡ []
unfolding delete_where select
delete_rows-nil [] = refl
delete_rows-nil (m ∷ ms) = delete_rows-nil ms

delete_rows-cons :
    (ms : List BufferedMessage) (r : BufferedMessage) (t : List BufferedMessage)
    → delete_rows ms (r ∷ t)
      ≡ (if has_id r.message_id ms then delete_rows ms t else r ∷ delete_rows ms t)
unfolding delete_where select
delete_rows-cons [] r t = refl
delete_rows-cons (m ∷ ms) r t = elim (Bool-cases (str_eq r.message_id m.message_id)) [
  | inl same ↦ rw same refl
  | inr other ↦
      rw other (delete_rows-cons ms r (delete_where (λ x. str_eq x.message_id m.message_id) t))
]

module _ (test : BufferedMessage → Bool) where
  abbrev IsListed : List BufferedMessage → BufferedMessage → Type 0
  IsListed ms r = test r ≡ true → has_id r.message_id ms ≡ true

  select-delete_rows :
      (ms t : List BufferedMessage) → All (IsListed ms) t → select test (delete_rows ms t) ≡ []
  unfolding select
  select-delete_rows ms [] h = ap (select test) (delete_rows-nil ms)
  select-delete_rows ms (r ∷ t) (h, hs) = elim (Bool-cases (has_id r.message_id ms)) [
    | inl listed ↦ rw (delete_rows-cons ms r t, listed) (select-delete_rows ms t hs)
    | inr unlisted ↦
        rw (delete_rows-cons ms r t, unlisted)
          (ground (arith, h, unlisted, select-delete_rows ms t hs))
  ]

  IsListed-cons :
      (m : BufferedMessage) (ms t : List BufferedMessage)
      → All (IsListed ms) t
      → All (IsListed (m ∷ ms)) t
  IsListed-cons m ms [] h = tt
  IsListed-cons m ms (r ∷ t) (h, hs) = (λ passed. ground (arith, h passed), IsListed-cons m ms t hs)

  IsListed-step :
      (b : Bool) (r : BufferedMessage) (rest t : List BufferedMessage)
      → test r ≡ b
      → All (IsListed rest) t
      → All (IsListed (if b then r ∷ rest else rest)) (r ∷ t)
  IsListed-step true r rest t passed h =
      ((λ _. rw (eq_refl r.message_id) refl), IsListed-cons r rest t h)
  IsListed-step false r rest t failed h = ((λ passed. absurd (cc (passed, failed))), h)

  select-IsListed : (t : List BufferedMessage) → All (IsListed (select test t)) t
  unfolding select
  select-IsListed [] = tt
  select-IsListed (r ∷ t) = IsListed-step (test r) r (select test t) t refl (select-IsListed t)

delete_each-rows :
    (ms : List BufferedMessage) (db : Db)
    → (delete_each ms db).message_buffer ≡ delete_rows ms db.message_buffer
unfolding delete_buffered
delete_each-rows [] db = refl
delete_each-rows (m ∷ ms) db = delete_each-rows ms (delete_buffered m.message_id db)

pub get_buffered-delete_each :
    (now : ℕ) (cell : String) (db : Db)
    → get_buffered now cell (delete_each (get_buffered now cell db) db) ≡ []
unfolding get_buffered
get_buffered-delete_each now cell db =
    let test = λ (m : BufferedMessage). str_eq m.to_cell cell && ltb now m.expires_at in
    ap (select test) (delete_each-rows (select test db.message_buffer) db)
    ∙ select-delete_rows test (select test db.message_buffer) db.message_buffer
        (select-IsListed test db.message_buffer)
