-- ===== src/Router/Forwarding.antt =====
-- `route` of node/router.py and a message for a cell that another connected node has.
use zki_nevod.Base.{String, ◌≡◌, refl, true, false, Option, none, some, str_eq, is_empty}
use zki_nevod.Base.Outcome.{ok}
use zki_nevod.Base.Dict
use zki_nevod.Bytes.{Bytes}
use zki_nevod.Protocol.{Packet, raw, pack}
use zki_nevod.Storage
use zki_nevod.Storage.{PresenceEntry}
use zki_nevod.Host.{PeerConnection, sent, State, Host, note, next, query}
use zki_nevod.Transport.{my_id, signed}
use zki_nevod.Transport.Sending.{send_to-connected}
use zki_nevod.Router.{parse_addr, send_to_node, try_visiting, route_announced, route_to, route}

-- The node that a presence leads to first: the visited one, or the home.
abbrev pub Leads : Option String → String → String → Type 0
Leads none home hop = home ≡ hop
Leads (some visiting) home hop = (visiting ≡ hop) × (is_empty hop ≡ false)

-- The presence of the cell leads to another node, which is connected and whose websocket takes what
-- it is given.
pub record IsForwarding (H : Host) (cell hop : String) (conn : PeerConnection) (s : State)
    : Type 0 where
  pub presence : PresenceEntry
  pub announced : Storage.get_presence cell s.db ≡ some presence
  pub leads : Leads presence.visiting_node_id presence.home_node_id hop
  pub away : str_eq hop (my_id H) ≡ false
  pub connected : Dict.get hop s.conns ≡ some conn
  pub takes : (message : Bytes) → H.world.send s.contact conn.ws message ≡ ok tt

module _ (H : Host) (cell hop : String) (pkt : Packet) (conn : PeerConnection) (s : State)
    (forward : IsForwarding H cell hop conn s) where
  send_to_node-forward :
      send_to_node H hop pkt s
      ≡ (ok (true, signed H pkt), note (sent conn.ws (pack H.codec (raw (signed H pkt)))) (next s))
  unfolding send_to_node
  send_to_node-forward =
      rw
        (
          forward.away,
          send_to-connected H hop conn pkt s forward.connected,
          forward.takes (pack H.codec (raw (signed H pkt))),
        )
        refl

  announced-forward :
      (p : PresenceEntry) (visiting : Option String)
      → p.visiting_node_id ≡ visiting
      → Leads visiting p.home_node_id hop
      → route_announced H cell p pkt s
        ≡ (ok tt, note (sent conn.ws (pack H.codec (raw (signed H pkt)))) (next s))
  unfolding route_announced try_visiting
  announced-forward p none away home = rw (away, home, send_to_node-forward) refl
  announced-forward p (some visiting) there (same, named) =
      rw (there, same, named, send_to_node-forward) refl

  -- A message for a cell whose presence leads to another node, which is connected, is sent to that
  -- node, signed by this one, if the websocket takes it, and nothing else happens.
  pub route-forward :
      {to_node : String}
      → parse_addr pkt.to_addr ≡ (some cell, to_node)
      → route H pkt s ≡ (ok tt, note (sent conn.ws (pack H.codec (raw (signed H pkt)))) (next s))
  unfolding route route_to query
  route-forward addressed =
      rw (addressed, forward.announced, announced-forward forward.presence _ refl forward.leads)
        refl
