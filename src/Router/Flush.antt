-- ===== src/Router/Flush.antt =====
-- `flush_buffer` of node/router.py and a stored message whose cell is connected.
use zki_nevod.Base.{String, ◌≡◌, refl, some}
use zki_nevod.Base.Outcome.{ok}
use zki_nevod.Base.Dict
use zki_nevod.Value.{int}
use zki_nevod.Value.Codec.{IsWire, IsLawful}
use zki_nevod.Protocol.{Packet, raw, pack, proto_version}
use zki_nevod.Protocol.Wire.{typed-raw}
use zki_nevod.Storage
use zki_nevod.Storage.{BufferedMessage}
use zki_nevod.Host.{PeerConnection, sent, State, Host, note, next, change_db}
use zki_nevod.Transport.{signed}
use zki_nevod.Router.{serialize_packet, deserialize_packet, flush_one}
use zki_nevod.Router.Delivery.{IsHomeCell, route-home_connected}
use zki_nevod.Router.Buffering.{deserialize_packet-serialize_packet}

-- what a stored packet is read back as
abbrev pub current : Packet → Packet
current p = record p { v = int proto_version }

-- With a lawful codec, the flush of a message that was stored from a packet for a cell of a name that is
-- not empty, whose home is this node, and which visits no other and is connected, sends the packet to
-- the cell, with the current version and signed by this node, and then deletes the message, if msgpack
-- can carry the time stamp and the websocket takes the packet.
pub flush_one-serialize_packet :
    (H : Host) (cell : String) (p : Packet) (s : State) (m : BufferedMessage)
    {conn : PeerConnection}
    → IsLawful H.codec
    → IsWire p.ts
    → IsHomeCell H cell (current p) s
    → Dict.get cell s.conns ≡ some conn
    → H.world.send s.contact conn.ws (pack H.codec (raw (signed H (current p)))) ≡ ok tt
    → flush_one H m (deserialize_packet H.codec (serialize_packet H.codec p)) s ≡ (
      ok tt,
      record (note (sent conn.ws (pack H.codec (raw (signed H (current p))))) (next s)) {
        db = Storage.delete_buffered m.message_id s.db;
      },
    )
unfolding flush_one change_db
flush_one-serialize_packet H cell p s m lawful ts home found took =
    rw (deserialize_packet-serialize_packet H.codec lawful p ts) (
      rw (typed-raw (current p))
        (rw (route-home_connected H cell (current p) s home found took) refl))
