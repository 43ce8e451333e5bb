-- ===== src/Router/FlushAll.antt =====
-- `flush_buffer` of node/router.py and all the stored messages of a cell that is connected.
use zki_nevod.Base.{
  is_empty, false, ℕ, String, ◌≡◌, refl, ◌∙◌, ap, sym, none, some, List, [], ◌∷◌, ◌++◌,
}
use mathlib.Core.List.{append-nil, append_assoc}
use zki_nevod.Base.Outcome.{ok}
use zki_nevod.Base.Dict
use zki_nevod.Value.Codec.{IsWire, IsLawful}
use zki_nevod.Bytes.{Bytes}
use zki_nevod.Protocol.{Packet, raw, pack}
use zki_nevod.Storage
use zki_nevod.Storage.{BufferedMessage, Db}
use zki_nevod.Storage.Emptying.{delete_each, get_buffered-delete_each}
use zki_nevod.Host.{PeerConnection, Event, sent, State, Host, note, next, query, read_clock}
use zki_nevod.Transport.{my_id, signed}
use zki_nevod.Router.{
  parse_addr, serialize_packet, deserialize_packet, flush_one, flush_all, flush_buffer,
}
use zki_nevod.Router.Flush.{current, flush_one-serialize_packet}

module _ (H : Host) (cell : String) (conn : PeerConnection) where
  -- a stored packet for the cell, whose time stamp msgpack can carry
  pub record IsStored (m : BufferedMessage) (p : Packet) : Type 0 where
    pub to_node : String
    pub stored : m.payload ≡ serialize_packet H.codec p
    pub addressed : parse_addr p.to_addr ≡ (some cell, to_node)
    pub stamped : IsWire p.ts

  abbrev pub AreStored : List BufferedMessage → List Packet → Type 0
  AreStored [] [] = Unit
  AreStored [] (p ∷ ps) = ⊥
  AreStored (m ∷ ms) [] = ⊥
  AreStored (m ∷ ms) (p ∷ ps) = IsStored m p × AreStored ms ps

  -- the cell is at home and connected, and its websocket takes what it is given
  pub record IsReady (s : State) : Type 0 where
    pub at : ℕ
    pub named : is_empty cell ≡ false
    pub connected : Dict.get cell s.conns ≡ some conn
    pub announced :
        Storage.get_presence cell s.db
        ≡ some (record {
          cell_id = cell;
          home_node_id = my_id H;
          visiting_node_id = none;
          updated_at = at;
        })
    pub takes : (n : ℕ) (message : Bytes) → H.world.send n conn.ws message ≡ ok tt

  -- what goes out for the stored packets
  abbrev pub deliveries : List Packet → List Event
  deliveries [] = []
  deliveries (p ∷ ps) = sent conn.ws (pack H.codec (raw (signed H (current p)))) ∷ deliveries ps

  -- one message sent and deleted
  abbrev step : BufferedMessage → Packet → State → State
  step m p s = record (note (sent conn.ws (pack H.codec (raw (signed H (current p))))) (next s)) {
    db = Storage.delete_buffered m.message_id s.db;
  }

  step-IsReady : (m : BufferedMessage) (p : Packet) (s : State) → IsReady s → IsReady (step m p s)
  unfolding Storage.delete_buffered Storage.get_presence
  step-IsReady m p s r = record {
    at = r.at;
    named = r.named;
    connected = r.connected;
    announced = r.announced;
    takes = r.takes;
  }

  flush_one-step :
      (m : BufferedMessage) (p : Packet) (s : State)
      → IsLawful H.codec
      → IsStored m p
      → IsReady s
      → flush_one H m (deserialize_packet H.codec m.payload) s ≡ (ok tt, step m p s)
  flush_one-step m p s lawful i r =
      ap (λ b. flush_one H m (deserialize_packet H.codec b) s) i.stored
      ∙ flush_one-serialize_packet H cell p s m lawful i.stamped
          (record {
            to_node = i.to_node;
            at = r.at;
            addressed = i.addressed;
            named = r.named;
            announced = r.announced;
          })
          r.connected (r.takes s.contact (pack H.codec (raw (signed H (current p)))))

  -- what a flush leaves
  pub record Flushed (ms : List BufferedMessage) (ps : List Packet) (s t : State) : Type 0 where
    pub db : t.db ≡ delete_each ms s.db
    pub conns : t.conns ≡ s.conns
    pub trace : t.trace ≡ s.trace ++ deliveries ps

  flush_all-Flushed :
      (ms : List BufferedMessage) (ps : List Packet) (s : State)
      → IsLawful H.codec
      → AreStored ms ps
      → IsReady s
      → (t : State) × (flush_all H ms s ≡ (ok tt, t)) × Flushed ms ps s t
  unfolding flush_all
  flush_all-Flushed [] [] s lawful h r =
      (s, refl, record { db = refl; conns = refl; trace = sym (append-nil s.trace) })
  flush_all-Flushed [] (p ∷ ps) s lawful h r = absurd h
  flush_all-Flushed (m ∷ ms) [] s lawful h r = absurd h
  flush_all-Flushed (m ∷ ms) (p ∷ ps) s lawful (i, h) r =
      let (t, done, f) = flush_all-Flushed ms ps (step m p s) lawful h (step-IsReady m p s r) in
      (
        t,
        rw (flush_one-step m p s lawful i r) done,
        record {
          db = f.db;
          conns = f.conns;
          trace =
              f.trace
              ∙ append_assoc s.trace (sent conn.ws (pack H.codec (raw (signed H (current p)))) ∷ [])
                  (deliveries ps);
        },
      )

  -- The flush of the buffer for a cell that is at home here and connected sends it every stored message
  -- that has not expired, in the order in which they were stored, signed by this node, and nothing else,
  -- and afterwards no message is left that the flush would have fetched, if the codec is lawful, the name
  -- of the cell is not empty, the messages were stored from packets for the cell whose time stamps msgpack
  -- can carry, and the websocket takes what it is given.
  pub flush_buffer-deliveries :
      (ps : List Packet) (s : State)
      → IsLawful H.codec
      → AreStored (Storage.get_buffered (H.world.time s.contact) cell s.db) ps
      → IsReady s
      → ((flush_buffer H cell s).0 ≡ ok tt)
        × ((flush_buffer H cell s).1.trace ≡ s.trace ++ deliveries ps)
        × (Storage.get_buffered (H.world.time s.contact) cell (flush_buffer H cell s).1.db ≡ [])
  unfolding flush_buffer read_clock query
  flush_buffer-deliveries ps s lawful h r =
      let now = H.world.time s.contact in
      let ms = Storage.get_buffered now cell s.db in
      let (t, done, f) = flush_all-Flushed ms ps (next s) lawful h (record {
        at = r.at;
        named = r.named;
        connected = r.connected;
        announced = r.announced;
        takes = r.takes;
      }) in
      rw done (
        refl,
        f.trace,
        ap (Storage.get_buffered now cell) f.db ∙ get_buffered-delete_each now cell s.db,
      )
