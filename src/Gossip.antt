-- ===== src/Gossip.antt =====
-- node/gossip.py: pings, the exchange of node tables and the rounds that do both.
pub mod Merge
pub mod Pings
pub mod Isolation
pub mod Fanout
pub mod Spread
pub mod Exchange
use zki_nevod.Base.{
  ℕ, zero, suc, String, Bool, true, false, not, ◌&&◌, ◌||◌, Option, none, some, List, [], ◌∷◌,
  if◌then◌else◌, str_eq, length, select, ltb,
}
use zki_nevod.Base.Outcome
use zki_nevod.Base.Outcome.{Error, Result, ok, err, type_error}
use zki_nevod.Base.Effects.{
  Exec, pure, raise, lift, gets, handle, catch, continue, attempt, ◌>>=◌, ◌>>◌,
}
use zki_nevod.Bytes.{Bytes}
use zki_nevod.Value.{
  Value, int, str, bin, arr, obj, Items, end, item, Fields, empty, field, truthy, get_value, as_str,
}
use zki_nevod.Protocol.{Packet, raw, decode_payload}
use zki_nevod.Protocol.Constructors.{make_ping, make_pong, make_gossip}
use zki_nevod.Storage
use zki_nevod.Storage.{NodeEntry, to_dict, new_node_entry}
use zki_nevod.Host.{
  PeerConnection, State, Host, read_clock, new_stamp, draw_sample, change_db, query,
}
use zki_nevod.Transport.{get, my_id, send_via, connect_to_node}
use Prim.Native.Char.{code}

abbrev pub gossip_fanout : ℕ
gossip_fanout = 3

unfoldable pub characters : String → Items
characters String.[] = end
characters (String.◌∷◌ c s) = item (str (String.◌∷◌ c String.[])) (characters s)

unfoldable pub numbers : Bytes → Items
numbers [] = end
numbers (x ∷ b) = item (int x) (numbers b)

unfoldable pub keys : Fields → Items
keys empty = end
keys (field k v fs) = item (str k) (keys fs)

-- `for n in v:`
unfoldable pub iterate : Value → Result Items
iterate (arr vs) = ok vs
iterate (obj fs) = ok (keys fs)
iterate (str s) = ok (characters s)
iterate (bin b) = ok (numbers b)
iterate v = err type_error

unfoldable pub items_of : List NodeEntry → Items
items_of [] = end
items_of (e ∷ es) = item (to_dict e) (items_of es)

unfoldable pub min_of : ℕ → ℕ → ℕ
min_of a b = if ltb a b then a else b

module _ (H : Host) where
  unfoldable pub update_ping : String → Bool → Exec State (Unit {0})
  update_ping node_id success = do
    now ← read_clock H
    change_db (Storage.update_node_ping now node_id success)

  -- a ping over a connection
  unfoldable pub ping_over : NodeEntry → Result PeerConnection → Exec State (Unit {0})
  ping_over entry (err e) = update_ping entry.node_id false
  ping_over entry (ok conn) = do
    stamp ← new_stamp H
    let pkt = make_ping H.codec stamp (my_id H) entry.node_id
    catch (do send_via H conn (raw pkt); update_ping entry.node_id true)
        (update_ping entry.node_id false)

  unfoldable pub connection_for : NodeEntry → Option PeerConnection → Exec State PeerConnection
  connection_for entry (some conn) = pure conn
  connection_for entry none = connect_to_node H entry.node_id entry.address

  unfoldable pub ping_node : NodeEntry → Exec State (Unit {0})
  ping_node entry = do
    found ← get entry.node_id
    λ s. let (r, t) = connection_for entry found s in ping_over entry r t

  unfoldable pub exchange_over : Option PeerConnection → Exec State (Unit {0})
  exchange_over none = pure tt
  exchange_over (some conn) = do
    nodes ← query Storage.get_all_nodes
    stamp ← new_stamp H
    let pkt = make_gossip H.codec stamp (my_id H) (items_of nodes)
    catch (send_via H conn (raw pkt)) (pure tt)

  unfoldable pub exchange : NodeEntry → Exec State (Unit {0})
  exchange peer = do conn ← get peer.node_id; exchange_over conn

  unfoldable pub ping_all : List NodeEntry → Exec State (Unit {0})
  ping_all [] = pure tt
  ping_all (entry ∷ nodes) = do
    if str_eq entry.node_id (my_id H) then pure tt else ping_node entry
    ping_all nodes

  unfoldable pub exchange_all : List NodeEntry → Exec State (Unit {0})
  exchange_all [] = pure tt
  exchange_all (peer ∷ peers) = do exchange peer; exchange_all peers

  -- The peers are chosen by the statuses from before the pings.
  unfoldable pub round : Exec State (Unit {0})
  round = do
    nodes ← query Storage.get_all_nodes
    ping_all nodes
    now ← read_clock H
    change_db (Storage.cleanup_expired_nodes now)
    now' ← read_clock H
    change_db (Storage.cleanup_expired_messages now')
    let online = select (λ n. str_eq n.status "online" && not (str_eq n.node_id (my_id H))) nodes
    peers ← draw_sample H (min_of gossip_fanout (length online)) online
    exchange_all peers

  -- `_loop` over a number of rounds: an exception ends its round alone
  unfoldable pub loop : ℕ → Exec State (Unit {0})
  loop zero = pure tt
  loop (suc n) = do catch round (pure tt); loop n

  -- what `handle_gossip` does with an entry whose id and address are not empty
  unfoldable pub discover : Value → String → String → Option NodeEntry → Exec State (Unit {0})
  discover n node_id address (some known) = pure tt
  discover n node_id address none = do
    type ← lift (get_value n "type" (str "permanent"))
    type_text ← lift (as_str type)
    access ← lift (get_value n "access" (str "closed"))
    access_text ← lift (as_str access)
    seen ← read_clock H
    added ← read_clock H
    now ← read_clock H
    change_db
        (Storage.upsert_node now (new_node_entry node_id address type_text access_text seen added))

  -- An id or an address that is no text raises here, before SQLite would convert it.
  unfoldable pub merge_entry : Value → Exec State (Unit {0})
  merge_entry n = do
    node_id ← lift (get_value n "node_id" (str ""))
    address ← lift (get_value n "address" (str ""))
    if not (truthy node_id) || not (truthy address) then pure tt else do
      id ← lift (as_str node_id)
      existing ← query (Storage.get_node id)
      addr ← lift (as_str address)
      discover n id addr existing

  unfoldable pub merge_entries : Items → Exec State (Unit {0})
  merge_entries end = pure tt
  merge_entries (item n ns) = do merge_entry n; merge_entries ns

  -- the `try` of `handle_gossip`
  unfoldable pub remote_nodes : Packet → Result Value
  remote_nodes pkt =
      Outcome.◌>>=◌ (decode_payload H.codec pkt.payload) (λ d. get_value d "nodes" (arr end))

  unfoldable pub handle_gossip : Packet → Exec State (Unit {0})
  handle_gossip pkt =
      attempt (remote_nodes pkt) tt λ nodes. do ns ← lift (iterate nodes); merge_entries ns

  unfoldable pub handle_ping : Packet → PeerConnection → Exec State (Unit {0})
  handle_ping pkt conn = do
    stamp ← new_stamp H
    send_via H conn (raw (make_pong H.codec stamp (my_id H) pkt.from_addr pkt.id))

  unfoldable pub handle_pong : Packet → Exec State (Unit {0})
  handle_pong pkt = update_ping pkt.from_addr true
