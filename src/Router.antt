-- ===== src/Router.antt =====
-- node/router.py: addresses, routing, local delivery and the flush of the message buffer.
pub mod Address
pub mod Delivery
pub mod Buffering
pub mod Flush
pub mod FlushAll
pub mod Forwarding
use Prim.Native.Char.{Char, code}
use zki_nevod.Base.{
  ℕ, String, Bool, true, false, not, ◌&&◌, Option, none, some, List, [], ◌∷◌, if◌then◌else◌, str_eq,
  is_empty, ◌==◌,
}
use zki_nevod.Base.Outcome.{Error, Result, ok, err}
use zki_nevod.Base.Effects.{Exec, pure, raise, lift, gets, handle, catch, continue, ◌>>=◌, ◌>>◌}
use zki_nevod.Bytes.{Bytes}
use zki_nevod.Value.{Value, str, bin, obj, Fields, empty, field}
use zki_nevod.Value.Codec.{Codec}
use zki_nevod.Protocol.{RawPacket, Packet, raw, typed, unpack}
use zki_nevod.Storage
use zki_nevod.Storage.{NodeEntry, PresenceEntry, BufferedMessage}
use zki_nevod.Host.{PeerConnection, State, Host, read_clock, call_on_message, change_db, query}
use zki_nevod.Transport.{my_id, signed, send_via, send_to, connect_to_node}

unfoldable pub cons_part : Char → Option (String × String) → Option (String × String)
cons_part c none = none
cons_part c (some (s, t)) = some (String.◌∷◌ c s, t)

-- `addr.split("@", 1)`, or nothing where there is no "@"
unfoldable pub split_at : String → Option (String × String)
split_at String.[] = none
split_at (String.◌∷◌ c s) =
    let rest = cons_part c (split_at s) in if code c == b'@' then some (String.[], s) else rest

unfoldable pub address_of : String → Option (String × String) → Option String × String
address_of addr none = (none, addr)
address_of addr (some (cell_id, node_id)) = (some cell_id, node_id)

unfoldable pub parse_addr : String → Option String × String
parse_addr addr = address_of addr (split_at addr)

-- the dict of `_serialize_packet`, which has no version
unfoldable pub stored_value : Packet → Value
stored_value p = obj (
    field "type" (str p.type) (
      field "id" (str p.id) (
        field "from" (str p.from_addr) (
          field "to" (str p.to_addr)
            (field "payload" (bin p.payload) (field "sig" (bin p.sig) (field "ts" p.ts empty)))))))

unfoldable pub to_option {ℓ} : {A : Type ℓ} → Result A → Option A
to_option (ok a) = some a
to_option (err e) = none

module _ (C : Codec) where
  unfoldable pub serialize_packet : Packet → Bytes
  serialize_packet p = C.packb (stored_value p)

  unfoldable pub deserialize_packet : Bytes → Option RawPacket
  deserialize_packet message = to_option (unpack C message)

module _ (H : Host) where
  -- Delivery to a cell that is connected here, or to the callback.
  unfoldable pub deliver_to : Option String → Packet → Exec State (Unit {0})
  deliver_to none pkt = call_on_message H pkt
  deliver_to (some cell_id) pkt =
      if is_empty cell_id
      then call_on_message H pkt
      else do (sent, pkt') ← send_to H cell_id pkt; if sent then pure tt else call_on_message H pkt'

  unfoldable pub deliver_local : Packet → Exec State (Unit {0})
  deliver_local pkt = deliver_to (parse_addr pkt.to_addr).0 pkt

  -- `try: connect_to_node, send_via` with `except Exception: return False`
  unfoldable pub send_over : Packet → Result PeerConnection → Exec State (Bool × Packet)
  send_over pkt (err e) = pure (false, pkt)
  send_over pkt (ok conn) =
      catch (do send_via H conn (raw pkt); pure (true, signed H pkt)) (pure (false, signed H pkt))

  unfoldable pub dial : String → Option NodeEntry → Packet → Exec State (Bool × Packet)
  dial node_id none pkt = pure (false, pkt)
  dial node_id (some entry) pkt =
      if not (str_eq entry.status "online") then pure (false, pkt) else λ s.
      let (r, t) = connect_to_node H node_id entry.address s in send_over pkt r t

  -- with the packet object as it is afterwards
  unfoldable pub send_to_node : String → Packet → Exec State (Bool × Packet)
  send_to_node node_id pkt =
      if str_eq node_id (my_id H) then (do deliver_local pkt; pure (true, pkt)) else do
        (sent, pkt') ← send_to H node_id pkt
        if sent
            then pure (true, pkt')
            else do entry ← query (Storage.get_node node_id); dial node_id entry pkt'

  -- what `route` does for a cell that nobody announced
  unfoldable pub unannounced : String → Packet → Exec State (Unit {0})
  unannounced cell_id pkt = do
    cell ← query (Storage.get_cell cell_id)
    elim cell [ none ↦ pure tt | some _ ↦ deliver_local pkt ]

  -- the visiting node, if one is recorded
  unfoldable pub try_visiting : Option String → Packet → Exec State (Bool × Packet)
  try_visiting none pkt = pure (false, pkt)
  try_visiting (some node_id) pkt =
      if is_empty node_id then pure (false, pkt) else send_to_node node_id pkt

  unfoldable pub buffer : String → String → Packet → Exec State (Unit {0})
  buffer cell_id home pkt = do
    now ← read_clock H
    change_db (Storage.buffer_message now pkt.id cell_id home (serialize_packet H.codec pkt))

  unfoldable pub route_announced : String → PresenceEntry → Packet → Exec State (Unit {0})
  route_announced cell_id presence pkt = do
    (visited, pkt') ← try_visiting presence.visiting_node_id pkt
    if visited then pure tt else do
      (at_home, pkt'') ← send_to_node presence.home_node_id pkt'
      if at_home then pure tt else buffer cell_id presence.home_node_id pkt''

  unfoldable pub route_to : Option String × String → Packet → Exec State (Unit {0})
  route_to (none, to_node_id) pkt = do send_to_node to_node_id pkt; pure tt
  route_to (some cell_id, _) pkt = do
    presence ← query (Storage.get_presence cell_id)
    elim presence [ none ↦ unannounced cell_id pkt | some p ↦ route_announced cell_id p pkt ]

  unfoldable pub route : Packet → Exec State (Unit {0})
  route pkt = route_to (parse_addr pkt.to_addr) pkt

  -- A stored message that cannot be decoded stays in the buffer.
  unfoldable pub flush_one : BufferedMessage → Option RawPacket → Exec State (Unit {0})
  flush_one msg none = pure tt
  flush_one msg (some pkt) = do
    p ← lift (typed pkt)
    route p
    change_db (Storage.delete_buffered msg.message_id)

  unfoldable pub flush_all : List BufferedMessage → Exec State (Unit {0})
  flush_all [] = pure tt
  flush_all (msg ∷ messages) = do
    flush_one msg (deserialize_packet H.codec msg.payload)
    flush_all messages

  unfoldable pub flush_buffer : String → Exec State (Unit {0})
  flush_buffer cell_id = do
    now ← read_clock H
    messages ← query (Storage.get_buffered now cell_id)
    flush_all messages
