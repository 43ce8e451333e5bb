-- ===== src/Node/Register.antt =====
-- The rows of cells and the packets that node/node.py dispatches.
use zki_nevod.Base.{
  ℕ, String, ◌≡◌, refl, ◌∙◌, sym, subst, Bool, true, false, Option, none, some, List, ◌⊎◌, inl, inr,
  if◌then◌else◌, str_eq, eq_iff, Bool-cases,
}
use zki_nevod.Base.Dict.{Dict}
use zki_nevod.Bytes.{Bytes}
use zki_nevod.Protocol.{Packet}
use zki_nevod.Storage.{
  Db, CellEntry, get_cell, upsert_node, update_node_ping, remove_node, cleanup_expired_nodes,
  update_presence, buffer_message, delete_buffered, cleanup_expired_messages,
}
use zki_nevod.Storage.Cells.{get_cell-register_cell, registered}
use zki_nevod.Storage.Keys.{
  Write, apply, update_node_ping_at, register_cell_at, update_presence_at, buffer_message_at,
}
use zki_nevod.Host.{PeerConnection, Event, State, Host}
use zki_nevod.Invariant.{Permits, Stable, IsAllowed}
use zki_nevod.Invariant.Node.{dispatch-Keeps}
use zki_nevod.Transport.{my_id}
use zki_nevod.Node.{dispatch}

-- the row of a cell is as it was, or is that of the peer and has the peer's key
abbrev pub IsOwn : PeerConnection → String → Option CellEntry → Option CellEntry → Type 0
IsOwn conn k before after =
    (after ≡ before)
    ⊎ ((k ≡ conn.peer_node_id)
        × (c : CellEntry) × (after ≡ some c)
        × (c.signing_pubkey ≡ conn.peer_signing_pubkey))

module _ (conn : PeerConnection) (k : String) (before : Option CellEntry) where
  abbrev Kept : Dict PeerConnection → Db → List Event → Type 0
  Kept c d t = IsOwn conn k before (get_cell k d)

  -- the peer of the connection and its key
  abbrev peer_cell : String → Permits
  peer_cell me = record {
    names = λ id key. (id ≡ conn.peer_node_id) × (key ≡ conn.peer_signing_pubkey);
    me = me;
    buffers = Unit;
  }

  registered-key :
      (now : ℕ) (id : String) (signing enc : Bytes) (is_home : Bool) (old : Option CellEntry)
      → (registered now id signing enc is_home old).signing_pubkey ≡ signing
  registered-key now id signing enc is_home none = refl
  registered-key now id signing enc is_home (some c) = refl

  register-Kept :
      (now : ℕ) (id : String) (signing enc : Bytes) (is_home : Bool) (d : Db)
      → (id ≡ conn.peer_node_id) × (signing ≡ conn.peer_signing_pubkey)
      → IsOwn conn k before (get_cell k d)
      → IsOwn conn k before (
          if str_eq id k
          then some (registered now id signing enc is_home (get_cell k d))
          else get_cell k d)
  register-Kept now id signing enc is_home d (peer, key) h = elim (Bool-cases (str_eq id k)) [
    | inl same ↦ rw same (
        inr (
          sym ((eq_iff id k).0 same) ∙ peer,
          registered now id signing enc is_home (get_cell k d),
          refl,
          registered-key now id signing enc is_home (get_cell k d) ∙ key,
        ))
    | inr other ↦ rw other h
  ]

  write-Kept :
      (me : String) (w : Write) (d : Db)
      → IsAllowed (peer_cell me) w
      → IsOwn conn k before (get_cell k d)
      → IsOwn conn k before (get_cell k (apply w d))
  unfolding apply upsert_node update_node_ping remove_node cleanup_expired_nodes update_presence
      buffer_message delete_buffered cleanup_expired_messages get_cell
  write-Kept me (register_cell_at now id signing enc is_home) d peer h =
      subst (IsOwn conn k before) (sym (get_cell-register_cell now id k signing enc is_home d))
        (register-Kept now id signing enc is_home d peer h)
  write-Kept me (update_presence_at now id home none) d a h = h
  write-Kept me (buffer_message_at now id cell node payload) d a h = h
  write-Kept me (update_node_ping_at now id true) d a h = h
  write-Kept me (update_node_ping_at now id false) d a h = h
  write-Kept me w d a h = h

  Kept-Stable : (me : String) → Stable (peer_cell me) Kept
  Kept-Stable me = record {
    adds = λ c cs d t a h. h;
    removes = λ id cs d t h. h;
    writes = λ w cs d t a h. write-Kept me w d a h;
    notes = λ e cs d t a h. h;
    homes = inl tt;
  }

-- Whatever packet is dispatched from a connection, and in whatever state, the row of each cell
-- is as before, or the cell is the peer of the connection and its row has the public key of the
-- connection.
pub get_cell-dispatch :
    (H : Host) (pkt : Packet) (conn : PeerConnection) (k : String) (s : State)
    → IsOwn conn k (get_cell k s.db) (get_cell k (dispatch H pkt conn s).1.db)
get_cell-dispatch H pkt conn k s =
    ((dispatch-Keeps (Kept conn k (get_cell k s.db))
        (Kept-Stable conn k (get_cell k s.db) (my_id H)) H refl pkt conn (refl, refl)).at
      s (inl refl)).0
