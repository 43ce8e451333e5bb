-- ===== src/Examples/Data.antt =====
-- The data of the examples: two nodes, a cell, and an outside world that answers every call.
use zki_nevod.Base.{◌+◌, String, refl, true, none, some, [], ◌∷◌}
use zki_nevod.Base.Outcome.{ok, err, connection_error}
use zki_nevod.Value.{int, bin}
use zki_nevod.Value.Sample.{sample as codec}
use zki_nevod.Crypto.{SigningKeypair, EncryptionKeypair}
use zki_nevod.Crypto.Sample.{sample as primitives}
use zki_nevod.Crypto.Laws.{IsSigning, IsEncryption}
use zki_nevod.Protocol.{Packet}
use zki_nevod.Identity.{NodeIdentity, CellIdentity}
use zki_nevod.Storage.{NodeEntry, NodeRow, CellEntry, PresenceEntry, Db}
use zki_nevod.Host.{World, PeerConnection, State, Host}

abbrev pub signing_one : SigningKeypair
signing_one = record { private = 1 ∷ []; public = 1 ∷ [] }

abbrev pub encryption_two : EncryptionKeypair
encryption_two = record { private = 2 ∷ []; public = 2 ∷ [] }

pub signing_one-IsSigning : IsSigning primitives signing_one
unfolding primitives
signing_one-IsSigning = record { matches = refl }

pub encryption_two-IsEncryption : IsEncryption primitives encryption_two
unfolding primitives
encryption_two-IsEncryption = record { matches = refl }

abbrev pub alice : NodeIdentity
alice = record {
  signing = signing_one;
  encryption = encryption_two;
  address = "localhost:7001";
  node_type = "permanent";
  access = "open";
}

abbrev pub anna : CellIdentity
anna = record { signing = signing_one; encryption = encryption_two; name = "anna" }

-- every connection attempt fails, every send succeeds
abbrev pub world : World
world = record {
  time = λ n. n + 1000;
  uuid4 = λ n. "id";
  urandom = λ n size. 7 ∷ [];
  connect = λ n uri. err connection_error;
  send = λ n ws message. ok tt;
  recv = λ n ws. err connection_error;
  sample = λ n k nodes. nodes;
  on_message = none;
}

abbrev pub host : Host
host = record { codec = codec; primitives = primitives; world = world; identity = alice }

-- a message to cell "c" at node "01", which is this node, or at another
abbrev pub message : Packet
message = record {
  type = "msg";
  payload = 5 ∷ [];
  id = "m1";
  from_addr = "02";
  to_addr = "c@01";
  sig = [];
  ts = int 3;
  v = int 1;
}

abbrev pub peer : PeerConnection
peer = record {
  ws = 4;
  peer_node_id = "01";
  peer_signing_pubkey = 1 ∷ [];
  peer_enc_pubkey = bin (2 ∷ []);
  local_node_id = "01";
}

abbrev pub entry : NodeEntry
entry = record {
  node_id = "n";
  address = "localhost:7002";
  type = "permanent";
  access = "open";
  cert = [];
  parent_node = "";
  last_seen = 5;
  missed_pings = 0;
  status = "online";
  added_at = 5;
}

abbrev pub row : NodeRow
row = record {
  node_id = "n";
  address = "localhost:7002";
  type = "permanent";
  access = "open";
  cert = some [];
  parent_node = some "";
  last_seen = 5;
  missed_pings = 0;
  status = "online";
  added_at = 5;
}

abbrev pub cell_c : CellEntry
cell_c = record {
  cell_id = "c";
  signing_pubkey = 9 ∷ [];
  enc_pubkey = [];
  registered_at = 5;
  is_home = true;
}

abbrev pub presence_of : String → PresenceEntry
presence_of home = record {
  cell_id = "c";
  home_node_id = home;
  visiting_node_id = none;
  updated_at = 5;
}

-- one known node, and cell "c" with the given home
abbrev pub db_of : String → Db
db_of home = record {
  node_table = row ∷ [];
  cells = cell_c ∷ [];
  presence_table = presence_of home ∷ [];
  message_buffer = [];
}

abbrev pub state_of : Db → State
state_of db = record { db = db; conns = ("01", peer) ∷ []; contact = 0; trace = [] }
