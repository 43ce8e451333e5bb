-- ===== src/Examples/Routing.antt =====
-- The theorems on sending, routing, registering and gossip at concrete states.
use zki_nevod.Base.{◌+◌, ◌≡◌, refl, ◌⊎◌, none, some, [], ◌∷◌, ◌++◌, if◌then◌else◌, ltb, arith}
use zki_nevod.Base.Outcome
use zki_nevod.Base.Outcome.{Result, ok, err}
use zki_nevod.Base.Effects.{pure, catch}
use zki_nevod.Base.Dict
use zki_nevod.Bytes.{hex, hex_digit}
use zki_nevod.Value.{int}
use zki_nevod.Value.Sample.{sample-IsLawful as codec-IsLawful}
use zki_nevod.Crypto.Sample.{sample-IsLawful as primitives-IsLawful}
use zki_nevod.Protocol.{Packet, raw, pack, unpack, typed}
use zki_nevod.Protocol.Signing.{signed_bytes}
use zki_nevod.Identity.{node_id}
use zki_nevod.Storage
use zki_nevod.Storage.{Db, NodeEntry, BufferedMessage, message_key, ttl_message_secs}
use zki_nevod.Storage.Table.{find}
use zki_nevod.Host.{State}
use zki_nevod.Transport.{signed, receive, recv_loop}
use zki_nevod.Transport.Sending.{receive-sent, receive-cases}
use zki_nevod.Transport.Registry.{recv_loop-get}
use zki_nevod.Router.{
  split_at, cons_part, address_of, parse_addr, serialize_packet, deserialize_packet, route,
  flush_one,
}
use zki_nevod.Router.Delivery.{IsHomeCell, route-home_db, route-home_absent, flush_one-home_absent}
use zki_nevod.Router.Buffering.{IsAwayCell, deserialize_packet-serialize_packet, get_buffered-route}
use zki_nevod.Gossip.{handle_gossip}
use zki_nevod.Gossip.Merge.{get_node-handle_gossip}
use zki_nevod.Node.{dispatch}
use zki_nevod.Node.Register.{IsOwn, get_cell-dispatch}
use zki_nevod.Examples.Data.{
  signing_one-IsSigning, host, world, alice, message, peer, entry, db_of, state_of,
}

-- cell "c" has this node as its home, and then another one
abbrev home : State
home = state_of (db_of "01")

abbrev away : State
away = state_of (db_of "02")

-- the cell is connected
abbrev with_cell : State
with_cell = record home { conns = ("c", peer) ∷ [] }

home-IsHomeCell : IsHomeCell host "c" message home
unfolding parse_addr address_of split_at cons_part Storage.get_presence find node_id hex hex_digit
home-IsHomeCell = record {
  to_node = "01";
  at = 5;
  addressed = refl;
  named = refl;
  announced = refl;
}

with_cell-IsHomeCell : IsHomeCell host "c" message with_cell
unfolding parse_addr address_of split_at cons_part Storage.get_presence find node_id hex hex_digit
with_cell-IsHomeCell = record {
  to_node = "01";
  at = 5;
  addressed = refl;
  named = refl;
  announced = refl;
}

away-IsAwayCell : IsAwayCell host "c" "02" message away
unfolding parse_addr address_of split_at cons_part Storage.get_presence Storage.get_node find
    node_id hex hex_digit Dict.get
away-IsAwayCell = record {
  to_node = "01";
  at = 5;
  addressed = refl;
  announced = refl;
  elsewhere = refl;
  unconnected = refl;
  unreachable = tt;
}

route-home_db_example : (route host message home).1.db ≡ home.db
route-home_db_example = route-home_db host "c" message home home-IsHomeCell

route-home_absent_example : route host message home ≡ (ok tt, home)
unfolding Dict.get
route-home_absent_example = route-home_absent host "c" message home home-IsHomeCell refl refl

abbrev stored : BufferedMessage
stored = record {
  message_id = "m1";
  to_cell = "c";
  to_node = "01";
  payload = 5 ∷ [];
  created_at = 9;
  expires_at = 20;
}

flush_one-home_absent_example :
    flush_one host stored (some (raw message)) home
    ≡ (ok tt, record home { db = Storage.delete_buffered "m1" home.db })
unfolding Dict.get
flush_one-home_absent_example =
    flush_one-home_absent host "c" message home home-IsHomeCell stored refl refl

deserialize_packet-serialize_packet_example :
    deserialize_packet host.codec (serialize_packet host.codec message)
    ≡ some (raw (record message { v = int 1 }))
deserialize_packet-serialize_packet_example =
    deserialize_packet-serialize_packet host.codec codec-IsLawful message (omega arith)

get_buffered-route_example :
    Storage.get_buffered 1001 "c" (route host message away).1.db
    ≡ Storage.get_buffered 1001 "c" away.db
      ++ (if ltb 1001 (1000 + ttl_message_secs)
          then record {
            message_id = "m1";
            to_cell = "c";
            to_node = "02";
            payload = serialize_packet host.codec message;
            created_at = 1000;
            expires_at = 1000 + ttl_message_secs;
          }
            ∷ []
          else [])
unfolding find
get_buffered-route_example = get_buffered-route host "c" "02" message away away-IsAwayCell 1001 refl

receive-sent_example :
    receive host (dispatch host) peer (pack host.codec (raw (signed host message))) home
    ≡ catch (dispatch host (signed host message) peer) (pure tt) home
receive-sent_example =
    receive-sent host world alice (dispatch host) peer message home codec-IsLawful
      primitives-IsLawful signing_one-IsSigning (omega arith) (omega arith) refl

receive-cases_example :
    ((receive host (dispatch host) peer (1 ∷ 2 ∷ []) home).1 ≡ home)
    ⊎ ((p : Packet) × (Outcome.◌>>=◌ (unpack host.codec (1 ∷ 2 ∷ [])) typed ≡ ok p)
        × (host.primitives.ed25519_verify (1 ∷ []) p.sig (signed_bytes host.codec p) ≡ ok tt)
        × (receive host (dispatch host) peer (1 ∷ 2 ∷ []) home
            ≡ catch (dispatch host p peer) (pure tt) home))
receive-cases_example = receive-cases host (dispatch host) peer (1 ∷ 2 ∷ []) home

-- the registry has a connection of this peer when an older loop of the peer ends
recv_loop-get_example :
    Dict.get "01" (recv_loop host (dispatch host) (record peer { ws = 3 }) [] home).1.conns ≡ none
recv_loop-get_example = recv_loop-get host (record peer { ws = 3 }) (dispatch host) [] home

get_node-handle_gossip_example :
    Storage.get_node "n" (handle_gossip host (record message { type = "gossip" }) home).1.db
    ≡ some entry
unfolding Storage.get_node find Storage.row_to_node
get_node-handle_gossip_example =
    get_node-handle_gossip host (record message { type = "gossip" }) "n" home refl

get_cell-dispatch_example :
    IsOwn peer "c"
      (Storage.get_cell "c" home.db)
      (Storage.get_cell "c" (dispatch host message peer home).1.db)
get_cell-dispatch_example = get_cell-dispatch host message peer "c" home
