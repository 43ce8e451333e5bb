-- ===== src/Storage/Messages.antt =====
-- The message buffer of node/storage.py: what can still be delivered, and for how long.
use zki_nevod.Base.{
  ℕ, ◌+◌, ◌≤◌, String, ◌≡◌, refl, ap, ◌&&◌, none, some, List, [], ◌∷◌, ◌++◌, str_eq, ltb,
  if◌then◌else◌, select, select-append, select-select, arith,
}
use zki_nevod.Bytes.{Bytes}
use zki_nevod.Storage.Table.{find, insert_or_ignore, delete_where}
use zki_nevod.Storage.{
  BufferedMessage, Db, new_message, message_key, ttl_message_secs, buffer_message, get_buffered,
  cleanup_expired_messages,
}

module _ {ℓ} {Row : Type ℓ} (key : Row → String) (new : Row) where
  insert_or_ignore_new :
      (t : List Row) → find key (key new) t ≡ none → insert_or_ignore key new t ≡ t ++ new ∷ []
  unfolding find insert_or_ignore
  insert_or_ignore_new [] h = refl
  insert_or_ignore_new (r ∷ t) h = ground (arith, insert_or_ignore_new t)

  insert_or_ignore_known :
      (t : List Row) (r : Row) → find key (key new) t ≡ some r → insert_or_ignore key new t ≡ t
  unfolding find insert_or_ignore
  insert_or_ignore_known [] r h = absurd (cc h)
  insert_or_ignore_known (s ∷ t) r h = ground (arith, insert_or_ignore_known t r)

-- A message that is buffered under an id that is not in the buffer is fetched by its recipient
-- alone, behind what was there, and exactly until 72 hours have passed.
pub get_buffered-buffer_message :
    (now later : ℕ) (id cell node reader : String) (payload : Bytes) (db : Db)
    → find message_key id db.message_buffer ≡ none
    → get_buffered later reader (buffer_message now id cell node payload db)
      ≡ get_buffered later reader db
        ++ (if str_eq cell reader && ltb later (now + ttl_message_secs)
            then record {
              message_id = id;
              to_cell = cell;
              to_node = node;
              payload = payload;
              created_at = now;
              expires_at = now + ttl_message_secs;
            }
              ∷ []
            else [])
unfolding get_buffered buffer_message select
get_buffered-buffer_message now later id cell node reader payload db fresh =
    rw
      (insert_or_ignore_new message_key (new_message now id cell node payload) db.message_buffer
        fresh)
      (rw (select-append _ db.message_buffer)
        (ap (λ more. get_buffered later reader db ++ more) (ground arith)))

-- A message whose id is in the buffer is not stored again: the first one stays as it is.
pub buffer_message_again :
    (now : ℕ) (id cell node : String) (payload : Bytes) (db : Db) {m : BufferedMessage}
    → find message_key id db.message_buffer ≡ some m
    → buffer_message now id cell node payload db ≡ db
unfolding buffer_message
buffer_message_again now id cell node payload db {m} known =
    ap (λ t. record db { message_buffer = t })
      (insert_or_ignore_known message_key _ db.message_buffer m known)

-- After a clean-up of the message buffer, the same messages are fetched at the time of the
-- clean-up or later as without it.
pub get_buffered-cleanup_expired_messages :
    (now later : ℕ) (cell : String) (db : Db)
    → now ≤ later
    → get_buffered later cell (cleanup_expired_messages now db) ≡ get_buffered later cell db
unfolding get_buffered cleanup_expired_messages delete_where
get_buffered-cleanup_expired_messages now later cell db h =
    select-select _ _ db.message_buffer (λ m fetched. ground arith)
