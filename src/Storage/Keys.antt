-- ===== src/Storage/Keys.antt =====
-- The primary keys of the four tables of node/storage.py over any history of statements.
use zki_nevod.Base.{ℕ, String, refl, Bool, true, false, Option, List, [], ◌∷◌}
use zki_nevod.Bytes.{Bytes}
use zki_nevod.Storage.Table.Keys.{
  NodupKeys, upsert-NodupKeys, insert_or_ignore-NodupKeys, update-NodupKeys, delete_where-NodupKeys,
}
use zki_nevod.Storage.{
  NodeEntry, Db, empty_db, node_key, cell_key, presence_key, message_key, merge_node, merge_cell,
  merge_presence, node_row, seen, missed, upsert_node, update_node_ping, remove_node,
  cleanup_expired_nodes, register_cell, update_presence, buffer_message, delete_buffered,
  cleanup_expired_messages, is_expired_node,
}

-- a call of a method that writes, with the time at which it is made
pub data Write : Type 0 where
  upsert_node_at : ℕ → NodeEntry → Write
  update_node_ping_at : ℕ → String → Bool → Write
  remove_node_of : String → Write
  cleanup_nodes_at : ℕ → Write
  register_cell_at : ℕ → String → Bytes → Bytes → Bool → Write
  update_presence_at : ℕ → String → String → Option String → Write
  buffer_message_at : ℕ → String → String → String → Bytes → Write
  delete_buffered_of : String → Write
  cleanup_messages_at : ℕ → Write

unfoldable pub apply : Write → Db → Db
apply (upsert_node_at now e) db = upsert_node now e db
apply (update_node_ping_at now id success) db = update_node_ping now id success db
apply (remove_node_of id) db = remove_node id db
apply (cleanup_nodes_at now) db = cleanup_expired_nodes now db
apply (register_cell_at now id s e home) db = register_cell now id s e home db
apply (update_presence_at now id home visiting) db = update_presence now id home visiting db
apply (buffer_message_at now id cell node payload) db = buffer_message now id cell node payload db
apply (delete_buffered_of id) db = delete_buffered id db
apply (cleanup_messages_at now) db = cleanup_expired_messages now db

unfoldable pub apply_all : List Write → Db → Db
apply_all [] db = db
apply_all (w ∷ ws) db = apply_all ws (apply w db)

-- Each table has at most one row of a key.
pub record IsKeyed (db : Db) : Type 0 where
  pub nodes : NodupKeys node_key db.node_table
  pub cells : NodupKeys cell_key db.cells
  pub presence : NodupKeys presence_key db.presence_table
  pub messages : NodupKeys message_key db.message_buffer

pub apply-IsKeyed : (w : Write) (db : Db) → IsKeyed db → IsKeyed (apply w db)
unfolding apply upsert_node update_node_ping remove_node cleanup_expired_nodes register_cell
    update_presence buffer_message delete_buffered cleanup_expired_messages
apply-IsKeyed (upsert_node_at now e) db h = record {
  nodes = upsert-NodupKeys node_key merge_node (node_row now e) db.node_table (λ r. refl) h.nodes;
  cells = h.cells;
  presence = h.presence;
  messages = h.messages;
}
apply-IsKeyed (update_node_ping_at now id true) db h = record {
  nodes = update-NodupKeys node_key id (seen now) db.node_table (λ r. refl) h.nodes;
  cells = h.cells;
  presence = h.presence;
  messages = h.messages;
}
apply-IsKeyed (update_node_ping_at now id false) db h = record {
  nodes = update-NodupKeys node_key id missed db.node_table (λ r. refl) h.nodes;
  cells = h.cells;
  presence = h.presence;
  messages = h.messages;
}
apply-IsKeyed (remove_node_of id) db h = record {
  nodes = delete_where-NodupKeys node_key _ db.node_table h.nodes;
  cells = h.cells;
  presence = h.presence;
  messages = h.messages;
}
apply-IsKeyed (cleanup_nodes_at now) db h = record {
  nodes = delete_where-NodupKeys node_key (is_expired_node now) db.node_table h.nodes;
  cells = h.cells;
  presence = h.presence;
  messages = h.messages;
}
apply-IsKeyed (register_cell_at now id s e home) db h = record {
  nodes = h.nodes;
  cells = upsert-NodupKeys cell_key merge_cell _ db.cells (λ r. refl) h.cells;
  presence = h.presence;
  messages = h.messages;
}
apply-IsKeyed (update_presence_at now id home visiting) db h = record {
  nodes = h.nodes;
  cells = h.cells;
  presence =
      upsert-NodupKeys presence_key merge_presence _ db.presence_table (λ r. refl) h.presence;
  messages = h.messages;
}
apply-IsKeyed (buffer_message_at now id cell node payload) db h = record {
  nodes = h.nodes;
  cells = h.cells;
  presence = h.presence;
  messages = insert_or_ignore-NodupKeys message_key _ db.message_buffer h.messages;
}
apply-IsKeyed (delete_buffered_of id) db h = record {
  nodes = h.nodes;
  cells = h.cells;
  presence = h.presence;
  messages = delete_where-NodupKeys message_key _ db.message_buffer h.messages;
}
apply-IsKeyed (cleanup_messages_at now) db h = record {
  nodes = h.nodes;
  cells = h.cells;
  presence = h.presence;
  messages = delete_where-NodupKeys message_key _ db.message_buffer h.messages;
}

pub empty_db-IsKeyed : IsKeyed empty_db
empty_db-IsKeyed = record { nodes = tt; cells = tt; presence = tt; messages = tt }
