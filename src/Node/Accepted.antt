-- ===== src/Node/Accepted.antt =====
-- What the tables have once node/node.py has accepted a cell: `_handle_cell_register` from the
-- registration to the end of the flush of the buffer.
use zki_nevod.Base.{
  ℕ, String, ◌≡◌, refl, ◌∙◌, sym, subst, Bool, true, false, Option, none, some, List, str_eq,
  eq_refl, Bool-cases, inl, inr,
}
use zki_nevod.Base.Dict.{Dict}
use zki_nevod.Bytes.{Bytes}
use zki_nevod.Storage.{
  Db, CellEntry, PresenceEntry, get_cell, get_presence, upsert_node, update_node_ping, remove_node,
  cleanup_expired_nodes, update_presence, buffer_message, delete_buffered, cleanup_expired_messages,
}
use zki_nevod.Storage.Cells.{registered, get_cell-register_cell, get_presence-update_presence}
use zki_nevod.Storage.Keys.{Write, apply, update_node_ping_at, register_cell_at, update_presence_at}
use zki_nevod.Host.{PeerConnection, Event, State, Host}
use zki_nevod.Invariant.{Permits, IsAllowed, IsAtHome, Stable}
use zki_nevod.Invariant.Router.{flush_buffer-Keeps}
use zki_nevod.Transport.{my_id}
use zki_nevod.Node.{Registration, accept_cell}
use zki_nevod.Node.Acceptance.{announced, accepted_db, accepted, accept_cell-flush_buffer}

-- The row of a cell has these two keys.
abbrev pub HasKeys : Bytes → Bytes → Option CellEntry → Type 0
HasKeys signing enc found =
    (c : CellEntry) × (found ≡ some c) × (c.signing_pubkey ≡ signing) × (c.enc_pubkey ≡ enc)

-- The cell is known to be at the node `me`.
abbrev pub IsPresent : String → Option PresenceEntry → Type 0
IsPresent me found = (p : PresenceEntry) × (found ≡ some p) × IsAtHome me p

-- The cell is recorded with its keys and its presence.
pub record IsRecorded (me id : String) (signing enc : Bytes) (db : Db) : Type 0 where
  pub keys : HasKeys signing enc (get_cell id db)
  pub presence : IsPresent me (get_presence id db)

-- A flush registers no cell.
abbrev flushing : String → Permits
flushing me = record { names = λ id key. ⊥; me = me; buffers = Unit }

module _ (me id : String) (signing enc : Bytes) where
  IsPresent-update :
      (now : ℕ) (k home : String) (db : Db)
      → home ≡ me
      → IsPresent me (get_presence id db)
      → IsPresent me (get_presence id (update_presence now k home none db))
  IsPresent-update now k home db at h =
      subst (IsPresent me) (sym (get_presence-update_presence now k id home none db))
        elim (Bool-cases (str_eq k id)) [
          | inl same ↦ rw same (_, refl, (at, refl))
          | inr other ↦ rw other h
        ]

  write-IsRecorded :
      (w : Write) (db : Db)
      → IsAllowed (flushing me) w
      → IsRecorded me id signing enc db
      → IsRecorded me id signing enc (apply w db)
  unfolding apply upsert_node update_node_ping remove_node cleanup_expired_nodes buffer_message
      delete_buffered cleanup_expired_messages get_cell get_presence
  write-IsRecorded (register_cell_at now k s e home) db a h = absurd a
  write-IsRecorded (update_presence_at now k home none) db at h = record {
    keys = unfold update_presence in h.keys;
    presence = IsPresent-update now k home db at h.presence;
  }
  write-IsRecorded (update_presence_at now k home (some v)) db a h = absurd a
  write-IsRecorded (update_node_ping_at now k true) db a h = record {
    keys = h.keys;
    presence = h.presence;
  }
  write-IsRecorded (update_node_ping_at now k false) db a h = record {
    keys = h.keys;
    presence = h.presence;
  }
  write-IsRecorded w db a h = record { keys = h.keys; presence = h.presence }

  abbrev Recorded : Dict PeerConnection → Db → List Event → Type 0
  Recorded c d t = IsRecorded me id signing enc d

  Recorded-Stable : Stable (flushing me) Recorded
  Recorded-Stable = record {
    adds = λ conn c d t a h. h;
    removes = λ k c d t h. h;
    writes = λ w c d t a h. write-IsRecorded w d a h;
    notes = λ e c d t a h. h;
    homes = inl tt;
  }

  registered-HasKeys :
      (now : ℕ) (home : Bool) (old : Option CellEntry)
      → HasKeys signing enc (some (registered now id signing enc home old))
  registered-HasKeys now home none = (_, refl, refl, refl)
  registered-HasKeys now home (some c) = (_, refl, refl, refl)

module _ (H : Host) (cell : String) (conn : PeerConnection) (r : Registration) (s : State) where
  accepted_cell :
      get_cell cell (accepted_db H cell conn r s)
      ≡ some (
          registered
            (H.world.time s.contact)
            cell
            r.signing_pub
            r.enc_pub
            r.is_home
            (get_cell cell s.db))
  unfolding update_presence get_cell
  accepted_cell =
      get_cell-register_cell (H.world.time s.contact) cell cell r.signing_pub r.enc_pub r.is_home
        s.db
      ∙ rw (eq_refl cell) refl

  -- When the flush begins the cell is recorded.
  accepted_db-IsRecorded :
      IsRecorded (my_id H) cell r.signing_pub r.enc_pub (accepted_db H cell conn r s)
  accepted_db-IsRecorded = record {
    keys = subst (HasKeys r.signing_pub r.enc_pub) (sym accepted_cell) (
        registered-HasKeys (my_id H) cell r.signing_pub r.enc_pub (H.world.time s.contact) r.is_home
          (get_cell cell s.db));
    presence =
        subst (IsPresent (my_id H)) (sym (announced H cell conn r s)) (_, refl, (refl, refl));
  }

  -- Whatever the flush of its stored messages comes to, a cell that was accepted is recorded.
  pub accept_cell-IsRecorded :
      IsRecorded (my_id H) cell r.signing_pub r.enc_pub (accept_cell H cell r s).1.db
  accept_cell-IsRecorded =
      rw (accept_cell-flush_buffer H cell conn r s)
        ((flush_buffer-Keeps (Recorded (my_id H) cell r.signing_pub r.enc_pub)
            (Recorded-Stable (my_id H) cell r.signing_pub r.enc_pub) H refl cell).at
          (accepted H cell conn r s) accepted_db-IsRecorded).0
