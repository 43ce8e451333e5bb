-- ===== src/Examples/Tables.antt =====
-- The theorems on the four tables at a concrete database.
use zki_nevod.Base.{◌≡◌, refl, true, false, List, [], ◌∷◌, All, arith}
use zki_nevod.Storage
use zki_nevod.Storage.{
  NodeEntry, NodeRow, CellEntry, PresenceEntry, BufferedMessage, Db, empty_db, ttl_message_secs,
  ttl_node_offline_secs, node_key,
}
use zki_nevod.Storage.Table.{find}
use zki_nevod.Storage.Messages.{buffer_message_again, get_buffered-cleanup_expired_messages}
use zki_nevod.Storage.Keys.{
  Write, apply_all, upsert_node_at, register_cell_at, update_node_ping_at, empty_db-IsKeyed,
}
use zki_nevod.Storage.Refinement.{view, write_all, view-apply_all}
use zki_nevod.Storage.Health.{RowIsSettled, apply_all-IsSettled}
use zki_nevod.Examples.Data.{entry, db_of}

abbrev db : Db
db = db_of "01"

abbrev stored : BufferedMessage
stored = record {
  message_id = "m1";
  to_cell = "c";
  to_node = "02";
  payload = 5 ∷ [];
  created_at = 9;
  expires_at = 20;
}

abbrev full : Db
full = record db { message_buffer = stored ∷ [] }

buffer_message_again_example : Storage.buffer_message 11 "m1" "d" "03" [] full ≡ full
unfolding find
buffer_message_again_example = buffer_message_again 11 "m1" "d" "03" [] full refl

get_buffered-cleanup_expired_messages_example :
    Storage.get_buffered 15 "c" (Storage.cleanup_expired_messages 12 full)
    ≡ Storage.get_buffered 15 "c" full
get_buffered-cleanup_expired_messages_example =
    get_buffered-cleanup_expired_messages 12 15 "c" full (omega arith)

abbrev writes : List Write
writes =
    upsert_node_at 9 entry
    ∷ register_cell_at 9 "c" (1 ∷ []) [] true
    ∷ register_cell_at 10 "c" (2 ∷ []) [] true
    ∷ update_node_ping_at 11 "n" false
    ∷ []

apply_all-IsSettled_example : All RowIsSettled (apply_all writes empty_db).node_table
apply_all-IsSettled_example =
    apply_all-IsSettled writes empty_db ((λ enough. absurd (omega arith)), (tt, (tt, (tt, tt)))) tt

view-apply_all_example : view (apply_all writes empty_db) ≡ write_all writes (view empty_db)
view-apply_all_example = view-apply_all writes empty_db empty_db-IsKeyed
