-- ===== src/Storage/Nodes.antt =====
-- The node table of node/storage.py: what a look-up returns after each statement.
use mathlib.Core.Option
use zki_nevod.Base.{
  ℕ, zero, suc, ◌+◌, String, ◌≡◌, refl, Bool, true, false, ◌&&◌, Option, none, some, List, [], ◌∷◌,
  str_eq, eq_refl, ltb, leb, if◌then◌else◌, select, map-select, ap, arith, length,
}
use zki_nevod.Storage.Table.Laws.{
  spared, find-upsert, find-update, find-delete_key, find-delete_where,
}
use zki_nevod.Storage.Table.Keys.{NodupKeys}
use zki_nevod.Storage.{
  NodeEntry, Db, node_key, row_to_node, node_row, merge_node, upsert_node, get_node, get_all_nodes,
  get_online_nodes, seen, missed, update_node_ping, remove_node, is_expired_node,
  cleanup_expired_nodes, missed_pings_offline, ttl_node_offline_secs,
}

-- What an upsert makes of the entry that was known.
abbrev pub refreshed : ℕ → NodeEntry → Option NodeEntry → NodeEntry
refreshed now e none = row_to_node (node_row now e)
refreshed now e (some old) = record old {
  address = e.address;
  last_seen = e.last_seen;
  missed_pings = e.missed_pings;
  status = e.status;
  cert = e.cert;
}

-- After an upsert the node of its id has the new address, certificate, status and ping
-- counters, and keeps its type, access, parent and date of joining if it was known; every other
-- node is as before.
pub get_node-upsert_node :
    (now : ℕ) (e : NodeEntry) (k : String) (db : Db)
    → get_node k (upsert_node now e db)
      ≡ (if str_eq e.node_id k then some (refreshed now e (get_node k db)) else get_node k db)
unfolding get_node upsert_node row_to_node
get_node-upsert_node now e k db =
    rw (find-upsert node_key merge_node (node_row now e) k db.node_table (λ r. refl)) (ground arith)

-- What a ping makes of an entry.
abbrev pub pinged : ℕ → Bool → NodeEntry → NodeEntry
pinged now true e = record e { last_seen = now; missed_pings = 0; status = "online" }
pinged now false e = record e {
  missed_pings = e.missed_pings + 1;
  status = if leb missed_pings_offline (e.missed_pings + 1) then "offline" else e.status;
}

pub get_node-update_node_ping :
    (now : ℕ) (id k : String) (success : Bool) (db : Db)
    → get_node k (update_node_ping now id success db)
      ≡ (if str_eq id k then Option.map (pinged now success) (get_node k db) else get_node k db)
unfolding get_node update_node_ping row_to_node
get_node-update_node_ping now id k true db =
    rw (find-update node_key id k (seen now) db.node_table (λ r. refl)) (ground arith)
get_node-update_node_ping now id k false db =
    rw (find-update node_key id k missed db.node_table (λ r. refl)) (ground arith)

-- One failed ping after another, at the given times.
pub failed_pings : String → List ℕ → Db → Db
failed_pings id [] db = db
failed_pings id (now ∷ times) db = failed_pings id times (update_node_ping now id false db)

-- What n failed pings make of an entry.
abbrev pub after_failures : ℕ → NodeEntry → NodeEntry
after_failures zero e = e
after_failures (suc n) e = record e {
  missed_pings = e.missed_pings + suc n;
  status = if leb missed_pings_offline (e.missed_pings + suc n) then "offline" else e.status;
}

pub after_failures-pinged :
    (n now : ℕ) (e : NodeEntry) → after_failures n (pinged now false e) ≡ after_failures (suc n) e
after_failures-pinged zero now e = ground arith
after_failures-pinged (suc n) now e = ground arith

pub map-after_failures_zero : (o : Option NodeEntry) → o ≡ Option.map (after_failures 0) o
map-after_failures_zero none = refl
map-after_failures_zero (some e) = refl

pub map-after_failures-suc :
    (n now : ℕ) (o : Option NodeEntry)
    → Option.map (after_failures n) (Option.map (pinged now false) o)
      ≡ Option.map (after_failures (suc n)) o
map-after_failures-suc n now none = refl
map-after_failures-suc n now (some e) = ap some (after_failures-pinged n now e)

-- Failed pings in a row add up: the counter grows by their number, the status is offline from the
-- third missed ping on, and nothing else of the node changes.
pub get_node-failed_pings :
    (id : String) (times : List ℕ) (db : Db)
    → get_node id (failed_pings id times db)
      ≡ Option.map (after_failures (length times)) (get_node id db)
unfolding failed_pings
get_node-failed_pings id [] db = map-after_failures_zero (get_node id db)
get_node-failed_pings id (now ∷ times) db =
    rw (get_node-failed_pings id times (update_node_ping now id false db)) (
      rw (get_node-update_node_ping now id id false db)
        (rw (eq_refl id) (map-after_failures-suc (length times) now (get_node id db))))

-- The online nodes are those of all nodes whose status says so.
pub get_online_nodes-eq-select :
    (db : Db) → get_online_nodes db ≡ select (λ e. str_eq e.status "online") (get_all_nodes db)
unfolding get_online_nodes get_all_nodes row_to_node
get_online_nodes-eq-select db = map-select row_to_node (λ e. str_eq e.status "online") db.node_table

pub get_node-remove_node :
    (id k : String) (db : Db)
    → get_node k (remove_node id db) ≡ (if str_eq id k then none else get_node k db)
unfolding get_node remove_node
get_node-remove_node id k db = rw (find-delete_key node_key id k db.node_table) (ground arith)

-- If no two rows of the node table have one key, a clean-up of it forgets a node exactly if its
-- status is offline and it was last seen more than 72 hours ago; all others stay as they are.
pub get_node-cleanup_expired_nodes :
    (now : ℕ) (k : String) (db : Db)
    → NodupKeys node_key db.node_table
    → get_node k (cleanup_expired_nodes now db)
      ≡ spared
          (λ e. str_eq e.status "offline" && ltb (e.last_seen + ttl_node_offline_secs) now)
          (get_node k db)
unfolding get_node cleanup_expired_nodes row_to_node
get_node-cleanup_expired_nodes now k db keyed =
    rw (find-delete_where node_key (is_expired_node now) k db.node_table keyed) (ground arith)
