-- ===== src/Node/Acceptance.antt =====
-- What node/node.py does for a cell that it accepts: it is at home there, and gets what was stored for it.
use zki_nevod.Base.{
  ℕ, ◌+◌, String, ◌≡◌, refl, ◌∙◌, false, none, some, List, [], ◌++◌, is_empty, eq_refl, sym, subst,
}
use zki_nevod.Base.Outcome.{ok}
use zki_nevod.Base.Dict
use zki_nevod.Bytes.{Bytes}
use zki_nevod.Value.Codec.{IsLawful}
use zki_nevod.Protocol.{Packet}
use zki_nevod.Storage
use zki_nevod.Storage.{Db}
use zki_nevod.Storage.Cells.{get_presence-update_presence}
use zki_nevod.Host.{PeerConnection, State, Host, read_clock, change_db}
use zki_nevod.Transport.{my_id}
use zki_nevod.Router.{flush_buffer}
use zki_nevod.Router.FlushAll.{AreStored, deliveries, flush_buffer-deliveries}
use zki_nevod.Node.{Registration, accept_cell}

module _ (H : Host) (cell : String) (conn : PeerConnection) (r : Registration) (s : State) where
  -- the database when the flush begins
  abbrev pub accepted_db : Db
  accepted_db =
      Storage.update_presence (H.world.time (s.contact + 1)) cell (my_id H) none
        (Storage.register_cell (H.world.time s.contact) cell r.signing_pub r.enc_pub r.is_home s.db)

  abbrev pub accepted : State
  accepted = record s { db = accepted_db; contact = s.contact + 1 + 1 }

  pub accept_cell-flush_buffer : accept_cell H cell r s ≡ flush_buffer H cell accepted
  unfolding accept_cell read_clock change_db
  accept_cell-flush_buffer = refl

  pub announced :
      Storage.get_presence cell accepted_db
      ≡ some (record {
        cell_id = cell;
        home_node_id = my_id H;
        visiting_node_id = none;
        updated_at = H.world.time (s.contact + 1);
      })
  announced =
      get_presence-update_presence (H.world.time (s.contact + 1)) cell cell (my_id H) none
        (Storage.register_cell (H.world.time s.contact) cell r.signing_pub r.enc_pub r.is_home s.db)
      ∙ rw (eq_refl cell) refl

  buffer_as_before :
      (now : ℕ) → Storage.get_buffered now cell accepted_db ≡ Storage.get_buffered now cell s.db
  unfolding Storage.update_presence Storage.register_cell Storage.get_buffered
  buffer_as_before now = refl

  -- When a node accepts a cell that is connected, every message that was stored for it and has not expired
  -- goes out on its connection, in the order in which the messages were stored, signed by the node, and
  -- nothing else, and afterwards none of them is left in the buffer, if the codec is lawful, the name of
  -- the cell is not empty, the messages were stored from packets for the cell whose time stamps msgpack
  -- can carry, and the websocket takes what it is given.
  pub accept_cell-deliveries :
      (ps : List Packet)
      → IsLawful H.codec
      → AreStored H cell conn (Storage.get_buffered (H.world.time (s.contact + 1 + 1)) cell s.db) ps
      → is_empty cell ≡ false
      → Dict.get cell s.conns ≡ some conn
      → ((n : ℕ) (message : Bytes) → H.world.send n conn.ws message ≡ ok tt)
      → ((accept_cell H cell r s).0 ≡ ok tt)
        × ((accept_cell H cell r s).1.trace ≡ s.trace ++ deliveries H cell conn ps)
        × (Storage.get_buffered
              (H.world.time (s.contact + 1 + 1))
              cell
              (accept_cell H cell r s).1.db
            ≡ [])
  accept_cell-deliveries ps lawful stored named connected takes = rw accept_cell-flush_buffer (
      flush_buffer-deliveries H cell conn ps accepted lawful
        (subst (λ ms. AreStored H cell conn ms ps)
          (sym (buffer_as_before (H.world.time (s.contact + 1 + 1)))) stored)
        (record {
          at = H.world.time (s.contact + 1);
          named = named;
          connected = connected;
          announced = announced;
          takes = takes;
        }))
