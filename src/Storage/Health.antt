-- ===== src/Storage/Health.antt =====
-- The status of a node and its count of missed pings (node/storage.py).
use zki_nevod.Base.{ℕ, ◌≤◌, String, ◌≡◌, true, false, List, [], ◌∷◌, arith, All}
use zki_nevod.Storage.Table.Rows.{All-upsert, All-update, All-delete_where}
use zki_nevod.Storage.{
  NodeRow, Db, node_key, node_row, merge_node, seen, missed, upsert_node, update_node_ping,
  remove_node, cleanup_expired_nodes, register_cell, update_presence, buffer_message,
  delete_buffered, cleanup_expired_messages, missed_pings_offline,
}
use zki_nevod.Storage.Keys.{
  Write, upsert_node_at, update_node_ping_at, remove_node_of, cleanup_nodes_at, apply, apply_all,
}

-- A node that missed three pings or more is offline.
abbrev pub IsSettled : ℕ → String → Type 0
IsSettled missed_pings status = missed_pings_offline ≤ missed_pings → status ≡ "offline"

abbrev pub RowIsSettled : NodeRow → Type 0
RowIsSettled r = IsSettled r.missed_pings r.status

-- every entry that is written with a counter is settled
abbrev pub WritesSettled : Write → Type 0
WritesSettled (upsert_node_at now e) = IsSettled e.missed_pings e.status
WritesSettled w = Unit

missed-IsSettled : (r : NodeRow) → RowIsSettled r → RowIsSettled (missed r)
missed-IsSettled r h = λ enough. ground arith

seen-IsSettled : (now : ℕ) (r : NodeRow) → RowIsSettled r → RowIsSettled (seen now r)
seen-IsSettled now r h = λ enough. absurd (omega arith)

pub apply-IsSettled :
    (w : Write) (db : Db)
    → WritesSettled w
    → All RowIsSettled db.node_table
    → All RowIsSettled (apply w db).node_table
unfolding apply upsert_node update_node_ping remove_node cleanup_expired_nodes register_cell
    update_presence buffer_message delete_buffered cleanup_expired_messages
apply-IsSettled (upsert_node_at now e) db w h =
    All-upsert RowIsSettled node_key merge_node (node_row now e) db.node_table
      (unfold node_row in w) (λ r _. unfold node_row in w) h
apply-IsSettled (update_node_ping_at now id true) db w h =
    All-update RowIsSettled node_key id (seen now) db.node_table (seen-IsSettled now) h
apply-IsSettled (update_node_ping_at now id false) db w h =
    All-update RowIsSettled node_key id missed db.node_table missed-IsSettled h
apply-IsSettled (remove_node_of id) db w h = All-delete_where RowIsSettled _ db.node_table h
apply-IsSettled (cleanup_nodes_at now) db w h = All-delete_where RowIsSettled _ db.node_table h
apply-IsSettled _ db w h = h

-- If every node that missed three pings or more is offline, then so it is after any writes in
-- any order, where each entry that is upserted meets this itself.
pub apply_all-IsSettled :
    (ws : List Write) (db : Db)
    → All WritesSettled ws
    → All RowIsSettled db.node_table
    → All RowIsSettled (apply_all ws db).node_table
unfolding apply_all
apply_all-IsSettled [] db w h = h
apply_all-IsSettled (w ∷ ws) db (p, ps) h =
    apply_all-IsSettled ws (apply w db) ps (apply-IsSettled w db p h)
