-- ===== src/Transport.antt =====
-- node/transport.py: the registry of connections, authenticated connecting, sending and the receive
-- loop. The start and stop of the server are in Lifecycle.
pub mod Registry
pub mod Sending
pub mod Honest
use zki_nevod.Base.{
  ℕ, String, ◌<>◌, Bool, true, false, not, Option, none, some, List, [], ◌∷◌, map, if◌then◌else◌,
  str_eq, ◌==◌,
}
use zki_nevod.Base.Outcome.{Error, Result, ok, err, value_error, connection_closed}
use zki_nevod.Base.Effects.{Exec, pure, raise, lift, gets, handle, catch, continue, ◌>>=◌, ◌>>◌}
use zki_nevod.Base.Dict
use zki_nevod.Bytes.{Bytes}
use zki_nevod.Value.{Value, str, subscript, is_str, as_bin}
use zki_nevod.Crypto.{sign}
use zki_nevod.Protocol.{
  RawPacket, Packet, raw, typed, pack, unpack, sign_packet, verify_packet, decode_payload,
  auth_challenge, auth_response,
}
use zki_nevod.Auth.{AuthResult, nonce_size, make_challenge, make_response, verify_response}
use zki_nevod.Identity
use zki_nevod.Protocol.Signing.{signed_bytes}
use Prim.Native.Char.{code}
use zki_nevod.Host.{
  Socket, PeerConnection, Event, spawned, State, Host, note, new_stamp, draw_bytes, ws_connect,
  ws_send, ws_recv, ws_close,
}

-- class ConnectionRegistry; its lock makes each of these one step
unfoldable pub add : PeerConnection → Exec State (Unit {0})
add conn s = (ok tt, record s { conns = Dict.put conn.peer_node_id conn s.conns })

unfoldable pub remove : String → Exec State (Unit {0})
remove node_id s = (ok tt, record s { conns = Dict.pop node_id s.conns })

unfoldable pub get : String → Exec State (Option PeerConnection)
get node_id s = (ok (Dict.get node_id s.conns), s)

unfoldable pub all : Exec State (List PeerConnection)
all s = (ok (map (λ (k, c). c) s.conns), s)

-- `asyncio.create_task(self._recv_loop(conn))`
unfoldable pub spawn : PeerConnection → Exec State (Unit {0})
spawn conn s = (ok tt, note (spawned conn) s)

-- `if b: raise e`
unfoldable pub raise_if : Bool → Error → Exec State (Unit {0})
raise_if b e = if b then raise e else pure tt

unfoldable pub granted_or_raise : Option AuthResult → Exec State AuthResult
granted_or_raise none = raise value_error
granted_or_raise (some a) = pure a

unfoldable pub text_or_empty : Option String → String
text_or_empty none = ""
text_or_empty (some s) = s

-- `":" in address`
unfoldable pub has_colon : String → Bool
has_colon String.[] = false
has_colon (String.◌∷◌ c s) = if code c == b':' then true else has_colon s

module _ (H : Host) where
  abbrev pub my_id : String
  my_id = Identity.node_id H.identity

  -- PeerConnection.send; `ConnectionClosed` is raised again
  unfoldable pub send : PeerConnection → RawPacket → Exec State (Unit {0})
  send conn packet = ws_send H conn.ws (pack H.codec packet)

  -- the peer's response to our challenge
  unfoldable pub check_answer : Socket → Option String → Bytes → Bytes → Exec State PeerConnection
  check_answer ws expected_node_id nonce second = do
    their_response ← lift (unpack H.codec second)
    raise_if (not (is_str their_response.type auth_response)) value_error
    result ← lift (verify_response H.codec H.primitives their_response nonce expected_node_id)
    granted ← granted_or_raise result
    pure (record {
      ws = ws;
      peer_node_id = granted.node_id;
      peer_signing_pubkey = granted.signing_pubkey;
      peer_enc_pubkey = granted.enc_pubkey;
      local_node_id = my_id;
    })

  -- our response to the peer's challenge, and what follows
  unfoldable pub answer : Socket → Option String → Bytes → RawPacket → Exec State PeerConnection
  answer ws expected_node_id nonce their_challenge = do
    raise_if (not (is_str their_challenge.type auth_challenge)) value_error
    payload ← lift (as_bin their_challenge.payload)
    d ← lift (decode_payload H.codec payload)
    their_nonce ← lift (subscript d "nonce")
    stamp ← new_stamp H
    response ← lift (
        make_response H.codec H.primitives stamp my_id their_challenge.from_addr their_nonce
          H.identity.signing H.identity.encryption)
    ws_send H ws (pack H.codec response)
    second ← ws_recv H ws
    check_answer ws expected_node_id nonce second

  -- the mutual authentication on a new websocket
  unfoldable pub do_auth : Socket → Option String → Exec State PeerConnection
  do_auth ws expected_node_id = do
    our_nonce ← draw_bytes H nonce_size
    stamp ← new_stamp H
    let (our_challenge, nonce) =
        make_challenge H.codec stamp my_id (text_or_empty expected_node_id) our_nonce
    ws_send H ws (pack H.codec (raw our_challenge))
    first ← ws_recv H ws
    their_challenge ← lift (unpack H.codec first)
    answer ws expected_node_id nonce their_challenge

  unfoldable pub connect : String → Exec State PeerConnection
  connect address = do
    raise_if (not (has_colon address)) value_error
    ws ← ws_connect H ("ws://" <> address)
    conn ← do_auth ws none
    add conn
    spawn conn
    pure conn

  unfoldable pub connect_to_node : String → String → Exec State PeerConnection
  connect_to_node node_id address = do
    ws ← ws_connect H ("ws://" <> address)
    conn ← do_auth ws (some node_id)
    add conn
    spawn conn
    pure conn

  -- `sign` sets the signature of the packet object that the caller holds: what a packet is after it
  -- was signed. Signing a packet of the declared types does not raise.
  unfoldable pub signed : Packet → Packet
  signed p = record p { sig = sign H.primitives (signed_bytes H.codec p) H.identity.signing }

  unfoldable pub send_via : PeerConnection → RawPacket → Exec State (Unit {0})
  send_via conn packet = do
    signed ← lift (sign_packet H.codec H.primitives packet H.identity.signing)
    send conn signed

  -- the end of `send_to`: `ConnectionClosed` drops the connection, another exception goes on
  unfoldable pub drop_closed : String → Result (Unit {0}) → Exec State Bool
  drop_closed node_id (ok _) s = (ok true, s)
  drop_closed node_id (err connection_closed) s = (do remove node_id; pure false) s
  drop_closed node_id (err e) s = (err e, s)

  -- with the packet object as it is afterwards: signed, once there was a connection
  unfoldable pub finish_send : String → Packet → Result (Unit {0}) → Exec State (Bool × Packet)
  finish_send node_id packet r = do sent ← drop_closed node_id r; pure (sent, signed packet)

  unfoldable pub send_if : String → Option PeerConnection → Packet → Exec State (Bool × Packet)
  send_if node_id none packet s = (ok (false, packet), s)
  send_if node_id (some conn) packet s =
      let (r, t) = send_via conn (raw packet) s in finish_send node_id packet r t

  unfoldable pub send_to : String → Packet → Exec State (Bool × Packet)
  send_to node_id packet = do conn ← get node_id; send_if node_id conn packet

  -- one message of `_recv_loop`, after which the loop goes on unless this raises
  unfoldable pub receive :
      (Packet → PeerConnection → Exec State (Unit {0}))
      → PeerConnection
      → Bytes
      → Exec State (Unit {0})
  receive on_packet conn message = do
    pkt ← lift (unpack H.codec message)
    valid ← lift (verify_packet H.codec H.primitives pkt conn.peer_signing_pubkey)
    if valid then catch (do p ← lift (typed pkt); on_packet p conn) (pure tt) else pure tt

  -- The loop goes on if nothing was raised. Otherwise its `finally` runs, and an exception other than
  -- `ConnectionClosed` goes on.
  unfoldable pub after_receive :
      PeerConnection → Result (Unit {0}) → Exec State (Unit {0}) → Exec State (Unit {0})
  after_receive conn (ok _) rest s = rest s
  after_receive conn (err connection_closed) rest s = remove conn.peer_node_id s
  after_receive conn (err e) rest s = (do remove conn.peer_node_id; raise e) s

  -- The messages that arrive until the connection closes, and the `finally`.
  unfoldable pub recv_loop :
      (Packet → PeerConnection → Exec State (Unit {0}))
      → PeerConnection
      → List Bytes
      → Exec State (Unit {0})
  recv_loop on_packet conn [] s = remove conn.peer_node_id s
  recv_loop on_packet conn (message ∷ messages) s =
      let (r, t) = receive on_packet conn message s in
      after_receive conn r (recv_loop on_packet conn messages) t

  -- the `finally` of `_handle_incoming`
  unfoldable pub leave : PeerConnection → Result (Unit {0}) → Exec State (Unit {0})
  leave conn r = do remove conn.peer_node_id; lift r

  -- the rest of `_handle_incoming`, after the authentication
  unfoldable pub serve :
      (Packet → PeerConnection → Exec State (Unit {0}))
      → Socket
      → List Bytes
      → Result PeerConnection
      → Exec State (Unit {0})
  serve on_packet ws messages (err e) s = ws_close ws s
  serve on_packet ws messages (ok conn) s =
      let (_, t) = add conn s in let (r, u) = recv_loop on_packet conn messages t in leave conn r u

  -- A connection from outside, and the messages that arrive on it until it closes.
  unfoldable pub handle_incoming :
      (Packet → PeerConnection → Exec State (Unit {0}))
      → Socket
      → List Bytes
      → Exec State (Unit {0})
  handle_incoming on_packet ws messages s =
      let (r, t) = do_auth ws none s in serve on_packet ws messages r t
