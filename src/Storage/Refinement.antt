-- ===== src/Storage/Refinement.antt =====
-- The database of node/storage.py as what its callers see of it: four maps from keys to entries. The order
-- of the rows, and how the columns are stored, are forgotten.
use zki_nevod.Base.{
  ◌+◌, String, eq_iff, ◌≡◌, refl, ap, ◌∙◌, fun_ext, Bool, ◌&&◌, Option, none, some, List, [], ◌∷◌,
  str_eq, leb, ltb, if◌then◌else◌, arith,
}
use mathlib.Core.Option
use zki_nevod.Storage.Table.{find}
use zki_nevod.Storage.Table.Laws.{
  kept, spared, find-insert_or_ignore, find-delete_key, find-delete_where,
}
use zki_nevod.Storage.{
  NodeEntry, CellEntry, PresenceEntry, BufferedMessage, Db, message_key, new_message,
  ttl_node_offline_secs, upsert_node, get_node, update_node_ping, remove_node,
  cleanup_expired_nodes, register_cell, get_cell, update_presence, get_presence, buffer_message,
  delete_buffered, cleanup_expired_messages,
}
use zki_nevod.Storage.Nodes.{
  refreshed, pinged, get_node-upsert_node, get_node-update_node_ping, get_node-remove_node,
  get_node-cleanup_expired_nodes,
}
use zki_nevod.Storage.Cells.{registered, get_cell-register_cell, get_presence-update_presence}
use zki_nevod.Storage.Keys.{
  Write, upsert_node_at, update_node_ping_at, remove_node_of, cleanup_nodes_at, register_cell_at,
  update_presence_at, buffer_message_at, delete_buffered_of, cleanup_messages_at, apply, apply_all,
  IsKeyed, apply-IsKeyed,
}

-- what the three look-ups return, and the stored messages by their ids
pub record View : Type 0 where
  pub nodes : String → Option NodeEntry
  pub cells : String → Option CellEntry
  pub presence : String → Option PresenceEntry
  pub messages : String → Option BufferedMessage

abbrev pub view : Db → View
view db = record {
  nodes = λ k. get_node k db;
  cells = λ k. get_cell k db;
  presence = λ k. get_presence k db;
  messages = λ k. find message_key k db.message_buffer;
}

module _ {V : Type 0} where
  -- one entry of a map, replaced
  abbrev pub set_at : String → (Option V → Option V) → (String → Option V) → String → Option V
  set_at k f m j = if str_eq k j then f (m j) else m j

  -- the entries that do not pass a test
  abbrev pub without : (V → Bool) → (String → Option V) → String → Option V
  without test m j = spared test (m j)

-- what a write means
abbrev pub write : Write → View → View
write (upsert_node_at now e) v = record v {
  nodes = set_at e.node_id (λ o. some (refreshed now e o)) v.nodes;
}
write (update_node_ping_at now id success) v = record v {
  nodes = set_at id (Option.map (pinged now success)) v.nodes;
}
write (remove_node_of id) v = record v { nodes = set_at id (λ o. none) v.nodes }
write (cleanup_nodes_at now) v = record v {
  nodes =
      without (λ e. str_eq e.status "offline" && ltb (e.last_seen + ttl_node_offline_secs) now)
        v.nodes;
}
write (register_cell_at now id signing enc home) v = record v {
  cells = set_at id (λ o. some (registered now id signing enc home o)) v.cells;
}
write (update_presence_at now id home visiting) v = record v {
  presence =
      set_at id
        (λ o. some (record {
          cell_id = id;
          home_node_id = home;
          visiting_node_id = visiting;
          updated_at = now;
        }))
        v.presence;
}
write (buffer_message_at now id cell node payload) v = record v {
  messages = set_at id (λ o. some (kept (new_message now id cell node payload) o)) v.messages;
}
write (delete_buffered_of id) v = record v { messages = set_at id (λ o. none) v.messages }
write (cleanup_messages_at now) v = record v {
  messages = without (λ m. leb m.expires_at now) v.messages;
}

abbrev pub write_all : List Write → View → View
write_all [] v = v
write_all (w ∷ ws) v = write_all ws (write w v)

view-apply : (w : Write) (db : Db) → IsKeyed db → view (apply w db) ≡ write w (view db)
unfolding apply upsert_node update_node_ping remove_node cleanup_expired_nodes register_cell
    update_presence buffer_message delete_buffered cleanup_expired_messages get_node get_cell
    get_presence
view-apply (upsert_node_at now e) db h =
    ap (λ f. record (view db) { nodes = f }) (fun_ext λ k. get_node-upsert_node now e k db)
view-apply (update_node_ping_at now id success) db h =
    ap (λ f. record (view db) { nodes = f })
      (fun_ext λ k. get_node-update_node_ping now id k success db)
view-apply (remove_node_of id) db h =
    ap (λ f. record (view db) { nodes = f }) (fun_ext λ k. get_node-remove_node id k db)
view-apply (cleanup_nodes_at now) db h =
    ap (λ f. record (view db) { nodes = f })
      (fun_ext λ k. get_node-cleanup_expired_nodes now k db h.nodes)
view-apply (register_cell_at now id signing enc home) db h =
    ap (λ f. record (view db) { cells = f })
      (fun_ext λ k. get_cell-register_cell now id k signing enc home db)
view-apply (update_presence_at now id home visiting) db h =
    ap (λ f. record (view db) { presence = f })
      (fun_ext
        λ k. get_presence-update_presence now id k home visiting db ∙ ground (arith, eq_iff id k))
view-apply (buffer_message_at now id cell node payload) db h =
    ap (λ f. record (view db) { messages = f })
      (fun_ext λ k.
        find-insert_or_ignore message_key (new_message now id cell node payload) k
          db.message_buffer)
view-apply (delete_buffered_of id) db h =
    ap (λ f. record (view db) { messages = f })
      (fun_ext λ k. find-delete_key message_key id k db.message_buffer)
view-apply (cleanup_messages_at now) db h =
    ap (λ f. record (view db) { messages = f })
      (fun_ext λ k.
        find-delete_where message_key (λ m. leb m.expires_at now) k db.message_buffer h.messages)

-- The database implements the four maps: what the look-ups of nodes, cells and presence return after any
-- writes, in any order, and which message the buffer then has under an id, is what the writes mean for the
-- maps from before, if each table has at most one row of a key, as it has in an empty database.
pub view-apply_all :
    (ws : List Write) (db : Db) → IsKeyed db → view (apply_all ws db) ≡ write_all ws (view db)
unfolding apply_all
view-apply_all [] db h = refl
view-apply_all (w ∷ ws) db h =
    view-apply_all ws (apply w db) (apply-IsKeyed w db h) ∙ ap (write_all ws) (view-apply w db h)
