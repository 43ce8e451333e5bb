-- ===== src/Router/Buffering.antt =====
-- `route` of node/router.py and a message for a cell whose home is another node that cannot be
-- reached.
use zki_nevod.Base.{
  ℕ, ◌+◌, String, ◌≡◌, refl, ap, false, Option, none, some, [], ◌∷◌, ◌++◌, if◌then◌else◌, str_eq,
  ltb, eq_refl,
}
use zki_nevod.Base.Outcome.{ok}
use zki_nevod.Base.Dict
use zki_nevod.Value.{int, find_field, get_value}
use zki_nevod.Value.Laws.{or_value_bin}
use zki_nevod.Value.Codec.{Codec, IsWire, IsLawful}
use zki_nevod.Protocol.{RawPacket, Packet, raw, unpack, packet_of, proto_version}
use zki_nevod.Storage
use zki_nevod.Storage.{NodeEntry, PresenceEntry, BufferedMessage, message_key, ttl_message_secs}
use zki_nevod.Storage.Table.{find}
use zki_nevod.Storage.Messages.{get_buffered-buffer_message}
use zki_nevod.Host.{State, Host, next, query, change_db, read_clock}
use zki_nevod.Transport.{my_id}
use zki_nevod.Transport.Sending.{send_to-unconnected}
use zki_nevod.Router.{
  parse_addr, stored_value, to_option, serialize_packet, deserialize_packet, dial, send_to_node,
  try_visiting, buffer, route_announced, route_to, route,
}

module _ (C : Codec) (L : IsLawful C) where
  packet_of-stored_value :
      (p : Packet) → packet_of (stored_value p) ≡ ok (raw (record p { v = int proto_version }))
  unfolding packet_of stored_value find_field get_value raw
  packet_of-stored_value p =
      ap (λ (q : RawPacket). ok q) (rw (or_value_bin p.payload, or_value_bin p.sig) refl)

  stored_value-IsWire : (p : Packet) → IsWire p.ts → IsWire (stored_value p)
  unfolding stored_value find_field
  stored_value-IsWire p ts =
      (refl, tt, (refl, tt, (refl, tt, (refl, tt, (refl, tt, (refl, tt, (refl, ts, tt)))))))

  -- With a lawful codec, and if msgpack can carry its time stamp, a stored packet is read back
  -- with each of its fields, except that its version is the current one.
  pub deserialize_packet-serialize_packet :
      (p : Packet)
      → IsWire p.ts
      → deserialize_packet C (serialize_packet C p)
        ≡ some (raw (record p { v = int proto_version }))
  unfolding deserialize_packet serialize_packet unpack to_option
  deserialize_packet-serialize_packet p ts =
      rw (L.unpackb-packb (stored_value p) (stored_value-IsWire p ts), packet_of-stored_value p)
        refl

-- a node that is not known, or not as online
abbrev pub Unreachable : Option NodeEntry → Type 0
Unreachable none = Unit
Unreachable (some e) = str_eq e.status "online" ≡ false

-- The recipient is a cell that visits no node, and whose home is another node, to which there is no
-- connection and which cannot be dialled.
pub record IsAwayCell (H : Host) (cell : String) (home : String) (pkt : Packet) (s : State)
    : Type 0 where
  pub to_node : String
  pub at : ℕ
  pub addressed : parse_addr pkt.to_addr ≡ (some cell, to_node)
  pub announced :
      Storage.get_presence cell s.db
      ≡ some
          (record { cell_id = cell; home_node_id = home; visiting_node_id = none; updated_at = at })
  pub elsewhere : str_eq home (my_id H) ≡ false
  pub unconnected : Dict.get home s.conns ≡ none
  pub unreachable : Unreachable (Storage.get_node home s.db)

module _ (H : Host) where
  dial-Unreachable :
      (id : String) (found : Option NodeEntry) (pkt : Packet) (s : State)
      → Unreachable found
      → dial H id found pkt s ≡ (ok (false, pkt), s)
  unfolding dial
  dial-Unreachable id none pkt s h = refl
  dial-Unreachable id (some e) pkt s h = rw h refl

  module _ (cell home : String) (pkt : Packet) (s : State)
      (away : IsAwayCell H cell home pkt s) where
    send_to_node-away : send_to_node H home pkt s ≡ (ok (false, pkt), s)
    unfolding send_to_node query
    send_to_node-away =
        rw (away.elsewhere, send_to-unconnected H home pkt s away.unconnected)
          (dial-Unreachable home (Storage.get_node home s.db) pkt s away.unreachable)

    -- A message for a cell whose home node cannot be reached is buffered, with the time of the clock,
    -- and nothing else happens.
    pub route-away : route H pkt s ≡ (
      ok tt,
      record (next s) {
        db =
            Storage.buffer_message
              (H.world.time s.contact)
              pkt.id
              cell
              home
              (serialize_packet H.codec pkt)
              s.db;
      },
    )
    unfolding route route_to route_announced try_visiting query buffer read_clock change_db
    route-away = rw (away.addressed, away.announced, send_to_node-away) refl

    -- If a message for a cell that visits no node, and whose home is another node that is not
    -- connected and not known as online, is routed, and its id is not in the buffer, then it is
    -- fetched for this cell behind what was there, with the serialized packet as its payload,
    -- exactly until 72 hours have passed.
    pub get_buffered-route :
        (later : ℕ)
        → find message_key pkt.id s.db.message_buffer ≡ none
        → Storage.get_buffered later cell (route H pkt s).1.db
          ≡ Storage.get_buffered later cell s.db
            ++ (if ltb later (H.world.time s.contact + ttl_message_secs)
                then record {
                  message_id = pkt.id;
                  to_cell = cell;
                  to_node = home;
                  payload = serialize_packet H.codec pkt;
                  created_at = H.world.time s.contact;
                  expires_at = H.world.time s.contact + ttl_message_secs;
                }
                  ∷ []
                else [])
    get_buffered-route later fresh = rw route-away (
        rw
          (
            get_buffered-buffer_message (H.world.time s.contact) later pkt.id cell home cell
                (serialize_packet H.codec pkt) s.db fresh,
            eq_refl cell,
          )
          refl)
