-- ===== src/Storage/Entries.antt =====
-- The dataclasses of node/storage.py, the rows of its tables and their keys, and the constants.
use zki_nevod.Base.{ℕ, ◌*◌, String, Bool, Option, none, some, List, [], ◌∷◌}
use zki_nevod.Bytes.{Bytes, hex}
use zki_nevod.Value.{Value, int, str, empty, field, obj}

abbrev pub ttl_node_offline_secs : ℕ
ttl_node_offline_secs = 72 * 3600

abbrev pub ttl_message_secs : ℕ
ttl_message_secs = 72 * 3600

abbrev pub missed_pings_offline : ℕ
missed_pings_offline = 3

pub record NodeEntry : Type 0 where
  pub node_id : String
  pub address : String
  pub type : String
  pub access : String
  pub cert : Bytes
  pub parent_node : String
  pub last_seen : ℕ
  pub missed_pings : ℕ
  pub status : String
  pub added_at : ℕ

-- a row of `node_table`; two columns may be NULL
pub record NodeRow : Type 0 where
  pub node_id : String
  pub address : String
  pub type : String
  pub access : String
  pub cert : Option Bytes
  pub parent_node : Option String
  pub last_seen : ℕ
  pub missed_pings : ℕ
  pub status : String
  pub added_at : ℕ

pub record CellEntry : Type 0 where
  pub cell_id : String
  pub signing_pubkey : Bytes
  pub enc_pubkey : Bytes
  pub registered_at : ℕ
  pub is_home : Bool

pub record PresenceEntry : Type 0 where
  pub cell_id : String
  pub home_node_id : String
  pub visiting_node_id : Option String
  pub updated_at : ℕ

pub record BufferedMessage : Type 0 where
  pub message_id : String
  pub to_cell : String
  pub to_node : String
  pub payload : Bytes
  pub created_at : ℕ
  pub expires_at : ℕ

pub record Db : Type 0 where
  pub node_table : List NodeRow
  pub cells : List CellEntry
  pub presence_table : List PresenceEntry
  pub message_buffer : List BufferedMessage

-- the tables as SCHEMA creates them
abbrev pub empty_db : Db
empty_db = record { node_table = []; cells = []; presence_table = []; message_buffer = [] }

-- an entry with the defaults of the dataclass in the fields that callers leave out
unfoldable pub new_node_entry : String → String → String → String → ℕ → ℕ → NodeEntry
new_node_entry node_id address type access last_seen added_at = record {
  node_id = node_id;
  address = address;
  type = type;
  access = access;
  cert = [];
  parent_node = "";
  last_seen = last_seen;
  missed_pings = 0;
  status = "online";
  added_at = added_at;
}

-- `self.cert.hex() if self.cert else ""`
hex_or_empty : Bytes → String
hex_or_empty [] = ""
hex_or_empty (x ∷ b) = hex (x ∷ b)

unfoldable pub to_dict : NodeEntry → Value
unfolding hex_or_empty
to_dict e = obj (
    field "node_id" (str e.node_id) (
      field "address" (str e.address) (
        field "type" (str e.type) (
          field "access" (str e.access) (
            field "cert" (str (hex_or_empty e.cert)) (
              field "parent_node" (str e.parent_node)
                (field "last_seen" (int e.last_seen) (field "status" (str e.status) empty))))))))

or_empty_bytes : Option Bytes → Bytes
or_empty_bytes none = []
or_empty_bytes (some b) = b

or_empty_text : Option String → String
or_empty_text none = ""
or_empty_text (some s) = s

unfoldable pub row_to_node : NodeRow → NodeEntry
unfolding or_empty_bytes or_empty_text
row_to_node r = record {
  node_id = r.node_id;
  address = r.address;
  type = r.type;
  access = r.access;
  cert = or_empty_bytes r.cert;
  parent_node = or_empty_text r.parent_node;
  last_seen = r.last_seen;
  missed_pings = r.missed_pings;
  status = r.status;
  added_at = r.added_at;
}

abbrev pub node_key : NodeRow → String
node_key r = r.node_id

abbrev pub cell_key : CellEntry → String
cell_key c = c.cell_id

abbrev pub presence_key : PresenceEntry → String
presence_key p = p.cell_id

abbrev pub message_key : BufferedMessage → String
message_key m = m.message_id
