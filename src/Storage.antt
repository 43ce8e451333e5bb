-- ===== src/Storage.antt =====
-- node/storage.py: the four tables of the SQLite database and the statements on them. A method that
-- reads the clock takes `now`. `open` and `close` are in Lifecycle;
-- failures of SQLite are not modelled.
pub mod Entries
pub mod Table
pub mod Keys
pub mod Nodes
pub mod Cells
pub mod Messages
pub mod Health
pub mod Emptying
pub mod Refinement
pub use Entries.{NodeEntry, NodeRow, CellEntry, PresenceEntry, BufferedMessage, Db}
unfoldable pub use Entries.{
  ttl_node_offline_secs, ttl_message_secs, missed_pings_offline, empty_db, new_node_entry, to_dict,
  row_to_node, node_key, cell_key, presence_key, message_key,
}
use zki_nevod.Base.{
  ℕ, zero, suc, ◌+◌, ◌*◌, String, Bool, true, false, ◌&&◌, Option, none, some, List, [], ◌∷◌, map,
  str_eq, is_empty, ltb, leb, if◌then◌else◌, select,
}
use zki_nevod.Bytes.{Bytes, hex}
use zki_nevod.Value.{Value, int, str, Fields, empty, field, obj}
use zki_nevod.Storage.Table.{find, upsert, insert_or_ignore, update, delete_where}
use mathlib.Core.Option

-- `entry.added_at or int(time.time())`
or_now : ℕ → ℕ → ℕ
or_now zero now = now
or_now (suc t) now = suc t

-- the row that `upsert_node` inserts
unfoldable pub node_row : ℕ → NodeEntry → NodeRow
unfolding or_now
node_row now e = record {
  node_id = e.node_id;
  address = e.address;
  type = e.type;
  access = e.access;
  cert = some e.cert;
  parent_node = some e.parent_node;
  last_seen = e.last_seen;
  missed_pings = e.missed_pings;
  status = e.status;
  added_at = or_now e.added_at now;
}

-- `DO UPDATE SET` of `upsert_node`: the other columns keep what they had
abbrev pub merge_node : NodeRow → NodeRow → NodeRow
merge_node old new = record old {
  address = new.address;
  last_seen = new.last_seen;
  missed_pings = new.missed_pings;
  status = new.status;
  cert = new.cert;
}

unfoldable pub upsert_node : ℕ → NodeEntry → Db → Db
unfolding node_row
upsert_node now entry db = record db {
  node_table = upsert node_key merge_node (node_row now entry) db.node_table;
}

unfoldable pub get_node : String → Db → Option NodeEntry
get_node node_id db = Option.map row_to_node (find node_key node_id db.node_table)

unfoldable pub get_all_nodes : Db → List NodeEntry
get_all_nodes db = map row_to_node db.node_table

unfoldable pub get_online_nodes : Db → List NodeEntry
get_online_nodes db = map row_to_node (select (λ r. str_eq r.status "online") db.node_table)

-- a successful ping, and a failed one
abbrev pub seen : ℕ → NodeRow → NodeRow
seen now r = record r { last_seen = now; missed_pings = 0; status = "online" }

abbrev pub missed : NodeRow → NodeRow
missed r = record r {
  missed_pings = r.missed_pings + 1;
  status = if leb missed_pings_offline (r.missed_pings + 1) then "offline" else r.status;
}

unfoldable pub update_node_ping : ℕ → String → Bool → Db → Db
update_node_ping now node_id success db = record db {
  node_table = update node_key node_id (if success then seen now else missed) db.node_table;
}

unfoldable pub remove_node : String → Db → Db
remove_node node_id db = record db {
  node_table = delete_where (λ r. str_eq r.node_id node_id) db.node_table;
}

-- `last_seen < now - TTL`, with the subtraction, which may be negative, on the other side
abbrev pub is_expired_node : ℕ → NodeRow → Bool
is_expired_node now r = str_eq r.status "offline" && ltb (r.last_seen + ttl_node_offline_secs) now

unfoldable pub cleanup_expired_nodes : ℕ → Db → Db
cleanup_expired_nodes now db = record db {
  node_table = delete_where (is_expired_node now) db.node_table;
}

-- `DO UPDATE SET` of `register_cell`
abbrev pub merge_cell : CellEntry → CellEntry → CellEntry
merge_cell old new = record old { signing_pubkey = new.signing_pubkey; enc_pubkey = new.enc_pubkey }

unfoldable pub register_cell : ℕ → String → Bytes → Bytes → Bool → Db → Db
register_cell now cell_id signing_pubkey enc_pubkey is_home db = record db {
  cells =
      upsert cell_key merge_cell
        (record {
          cell_id = cell_id;
          signing_pubkey = signing_pubkey;
          enc_pubkey = enc_pubkey;
          registered_at = now;
          is_home = is_home;
        })
        db.cells;
}

unfoldable pub get_cell : String → Db → Option CellEntry
get_cell cell_id db = find cell_key cell_id db.cells

unfoldable pub list_cells : Bool → Db → List CellEntry
list_cells home_only db = if home_only then select (λ c. c.is_home) db.cells else db.cells

-- `DO UPDATE SET` of `update_presence`
abbrev pub merge_presence : PresenceEntry → PresenceEntry → PresenceEntry
merge_presence old new = record old {
  home_node_id = new.home_node_id;
  visiting_node_id = new.visiting_node_id;
  updated_at = new.updated_at;
}

unfoldable pub update_presence : ℕ → String → String → Option String → Db → Db
update_presence now cell_id home_node_id visiting_node_id db = record db {
  presence_table =
      upsert presence_key merge_presence
        (record {
          cell_id = cell_id;
          home_node_id = home_node_id;
          visiting_node_id = visiting_node_id;
          updated_at = now;
        })
        db.presence_table;
}

unfoldable pub get_presence : String → Db → Option PresenceEntry
get_presence cell_id db = find presence_key cell_id db.presence_table

-- the row that `buffer_message` inserts
abbrev pub new_message : ℕ → String → String → String → Bytes → BufferedMessage
new_message now message_id to_cell to_node payload = record {
  message_id = message_id;
  to_cell = to_cell;
  to_node = to_node;
  payload = payload;
  created_at = now;
  expires_at = now + ttl_message_secs;
}

unfoldable pub buffer_message : ℕ → String → String → String → Bytes → Db → Db
buffer_message now message_id to_cell to_node payload db = record db {
  message_buffer =
      insert_or_ignore message_key (new_message now message_id to_cell to_node payload)
        db.message_buffer;
}

unfoldable pub get_buffered : ℕ → String → Db → List BufferedMessage
get_buffered now to_cell db =
    select (λ m. str_eq m.to_cell to_cell && ltb now m.expires_at) db.message_buffer

unfoldable pub delete_buffered : String → Db → Db
delete_buffered message_id db = record db {
  message_buffer = delete_where (λ m. str_eq m.message_id message_id) db.message_buffer;
}

unfoldable pub cleanup_expired_messages : ℕ → Db → Db
cleanup_expired_messages now db = record db {
  message_buffer = delete_where (λ m. leb m.expires_at now) db.message_buffer;
}
