-- ===== src/Invariant.antt =====
-- Invariants of a running node over the registry of connections, the database and what it has
-- done. `Stable Q` is an invariant that survives the elementary changes; the modules below go
-- through the operations of node/transport.py, node/router.py, node/gossip.py and node/node.py
-- with it.
pub mod Contact
pub mod Handshake
pub mod Transport
pub mod Router
pub mod Gossip
pub mod Node
pub mod Step
pub mod Run
pub mod Home
use zki_nevod.Base.{String, ◌≡◌, ◌⊎◌, none, some, List, [], ◌∷◌, ◌++◌}
use zki_nevod.Base.Dict
use zki_nevod.Base.Dict.{Dict}
use zki_nevod.Bytes.{Bytes, hex}
use zki_nevod.Storage.{Db, PresenceEntry, get_presence}
use zki_nevod.Storage.Keys.{Write, register_cell_at, update_presence_at, buffer_message_at, apply}
use zki_nevod.Storage.Health.{WritesSettled}
use zki_nevod.Host.{PeerConnection, Event, spawned, State}

-- The identity of a peer is the hexadecimal text of the key that it proved to hold.
pub record IsAuthentic (conn : PeerConnection) : Type 0 where
  pub identity : conn.peer_node_id ≡ hex conn.peer_signing_pubkey

-- What a node may write: the names of cells by their keys, itself as the home of cells, and whether it
-- buffers messages.
pub record Permits : Type 1 where
  pub names : String → Bytes → Type 0
  pub me : String
  pub buffers : Type 0

-- A write as the node makes it: a cell and its key are registered if the permits allow them, the presence
-- of a cell is at this node, and a node entry is written as settled.
abbrev pub IsAllowed : Permits → Write → Type 0
IsAllowed N (register_cell_at now id signing enc is_home) = N.names id signing
IsAllowed N (update_presence_at now id home none) = home ≡ N.me
IsAllowed N (update_presence_at now id home (some visiting)) = ⊥
IsAllowed N (buffer_message_at now id cell node payload) = N.buffers
IsAllowed N w = WritesSettled w

-- The cell is at home at the node and visits no other.
abbrev pub IsAtHome : String → PresenceEntry → Type 0
IsAtHome me p = (p.home_node_id ≡ me) × (p.visiting_node_id ≡ none)

-- a receive loop is started on an authentic connection only
abbrev pub IsAllowedEvent : Event → Type 0
IsAllowedEvent (spawned conn) = IsAuthentic conn
IsAllowedEvent e = Unit

pub record Stable (N : Permits) (Q : Dict PeerConnection → Db → List Event → Type 0) : Type 0 where
  pub adds :
      (conn : PeerConnection) (c : Dict PeerConnection) (d : Db) (t : List Event)
      → IsAuthentic conn
      → Q c d t
      → Q (Dict.put conn.peer_node_id conn c) d t
  pub removes :
      (id : String) (c : Dict PeerConnection) (d : Db) (t : List Event)
      → Q c d t
      → Q (Dict.pop id c) d t
  pub writes :
      (w : Write) (c : Dict PeerConnection) (d : Db) (t : List Event)
      → IsAllowed N w
      → Q c d t
      → Q c (apply w d) t
  pub notes :
      (e : Event) (c : Dict PeerConnection) (d : Db) (t : List Event)
      → IsAllowedEvent e
      → Q c d t
      → Q c d (t ++ e ∷ [])
  -- Where nothing may be buffered, every cell is at home.
  pub homes :
      N.buffers
      ⊎ ((c : Dict PeerConnection) (d : Db) (t : List Event) (k : String) (p : PresenceEntry)
          → Q c d t
          → get_presence k d ≡ some p
          → IsAtHome N.me p)

abbrev pub At : (Dict PeerConnection → Db → List Event → Type 0) → State → Type 0
At Q s = Q s.conns s.db s.trace
