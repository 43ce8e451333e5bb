-- ===== src/Client.antt =====
-- node/client.py: the client of a cell.
pub mod Delivery
pub mod Registration
pub mod Sending
use zki_nevod.Base.{
  ℕ, ◌+◌, String, ◌<>◌, Bool, true, false, not, Option, none, some, List, [], ◌∷◌, ◌++◌,
  if◌then◌else◌, str_eq,
}
use zki_nevod.Base.Outcome
use zki_nevod.Base.Outcome.{Error, Result, ok, err, value_error, runtime_error}
use zki_nevod.Base.Effects.{Exec, pure, raise, lift, catch, continue, attempt, ◌>>=◌, ◌>>◌}
use zki_nevod.Bytes.{Bytes, hex}
use zki_nevod.Value.{Value, bool, str, bin, obj, Fields, empty, field, subscript, is_str, as_bin}
use zki_nevod.Value.Codec.{Codec}
use zki_nevod.Crypto.{Encrypted, encrypt, decrypt}
use zki_nevod.Crypto.Library.{Primitives}
use zki_nevod.Protocol
use zki_nevod.Protocol.{
  RawPacket, Packet, raw, typed, pack, unpack, sign_packet, verify_packet, encode_payload,
  decode_payload, auth_challenge, auth_response, msg, cell_register,
}
use zki_nevod.Protocol.Constructors.{Stamp, new_packet}
use zki_nevod.Auth.{AuthResult, nonce_size, make_challenge, make_response, verify_response}
use zki_nevod.Identity.{CellIdentity, cell_id}
use zki_nevod.Host.{Socket, World}
use zki_nevod.Transport.{text_or_empty}
use zki_nevod.Node.{to_bytes}

-- what a client does to the world, in order
pub data ClientEvent : Type 0 where
  wrote : Socket → Bytes → ClientEvent
  -- `on_message` was called with the sender and the text
  delivered : String → Bytes → ClientEvent
  -- a task that runs `_recv_loop`
  listening : ClientEvent
  shut : Socket → ClientEvent

-- the receive task: none, one whose loop has not begun, one whose loop runs
pub data Task : Type 0 where
  idle scheduled running : Task

pub record ClientState : Type 0 where
  pub ws : Option Socket
  pub node_id : String
  pub node_signing_pubkey : Bytes
  -- `connect` is called once, so there is one task
  pub task : Task
  -- the number of the next contact with the world
  pub contact : ℕ
  pub trace : List ClientEvent

-- what a client never changes; its callback is not that of `World`
pub record Client : Type 0 where
  pub codec : Codec
  pub primitives : Primitives
  pub world : World
  pub identity : CellIdentity
  pub on_message : Option (ℕ → String → Bytes → Result (Unit {0}))
  -- `ws.state == OPEN`
  pub is_open : ℕ → Socket → Bool

abbrev advance : ClientState → ClientState
advance s = record s { contact = s.contact + 1 }

abbrev log : ClientEvent → ClientState → ClientState
log e s = record s { trace = s.trace ++ e ∷ [] }

abbrev log_ok : Result (Unit {0}) → ClientEvent → ClientState → ClientState
log_ok (ok a) e s = log e s
log_ok (err x) e s = s

-- `bytes(data[k])`
unfoldable pub bytes_entry : Value → String → Result Bytes
bytes_entry d k = Outcome.◌>>=◌ (subscript d k) to_bytes

-- the payload of MSG
unfoldable pub message_value : Encrypted → Value
message_value e = obj (
    field "ephemeral_pubkey" (bin e.ephemeral_pubkey)
      (field "nonce" (bin e.nonce) (field "ciphertext" (bin e.ciphertext) empty)))

module _ (K : Client) where
  unfoldable pub my_cell_id : String
  my_cell_id = cell_id K.identity

  unfoldable pub stamp_now : Exec ClientState Stamp
  stamp_now s =
      (ok (record { id = K.world.uuid4 s.contact; ts = K.world.time s.contact }), advance s)

  unfoldable pub draw : ℕ → Exec ClientState Bytes
  draw n s = (ok (K.world.urandom s.contact n), advance s)

  unfoldable pub open_socket : String → Exec ClientState Socket
  open_socket uri s = (K.world.connect s.contact uri, advance s)

  unfoldable pub write : Socket → Bytes → Exec ClientState (Unit {0})
  write ws message s =
      let r = K.world.send s.contact ws message in (r, log_ok r (wrote ws message) (advance s))

  unfoldable pub read : Socket → Exec ClientState Bytes
  read ws s = (K.world.recv s.contact ws, advance s)

  -- the four entries of CELL_REGISTER
  unfoldable pub registration_value : Value
  registration_value = obj (
      field "cell_id" (str my_cell_id) (
        field "signing_pubkey" (bin K.identity.signing.public) (
          field "enc_pubkey" (bin K.identity.encryption.public)
            (field "is_home" (bool true) empty))))

  unfoldable pub registration_packet : Stamp → String → Packet
  registration_packet stamp node_id =
      new_packet stamp cell_register (encode_payload K.codec registration_value) my_cell_id node_id

  unfoldable pub require : Bool → Error → Exec ClientState (Unit {0})
  require b e = if b then pure tt else raise e

  unfoldable pub keys_or_raise : Option AuthResult → Exec ClientState (Bytes × Value)
  keys_or_raise none = raise value_error
  keys_or_raise (some a) = pure (a.signing_pubkey, a.enc_pubkey)

  -- the function `_do_auth` of the module, for a cell
  unfoldable pub authenticate : Socket → Option String → Exec ClientState (Bytes × Value)
  authenticate ws expected_peer_id = do
    drawn ← draw nonce_size
    stamp ← stamp_now
    let (challenge, nonce) =
        make_challenge K.codec stamp my_cell_id (text_or_empty expected_peer_id) drawn
    write ws (pack K.codec (raw challenge))
    first ← read ws
    their_challenge ← lift (unpack K.codec first)
    require (is_str their_challenge.type auth_challenge) value_error
    payload ← lift (as_bin their_challenge.payload)
    d ← lift (decode_payload K.codec payload)
    their_nonce ← lift (subscript d "nonce")
    stamp' ← stamp_now
    response ← lift (
        make_response K.codec K.primitives stamp' my_cell_id their_challenge.from_addr their_nonce
          K.identity.signing K.identity.encryption)
    write ws (pack K.codec response)
    second ← read ws
    their_response ← lift (unpack K.codec second)
    require (is_str their_response.type auth_response) value_error
    result ← lift (verify_response K.codec K.primitives their_response nonce expected_peer_id)
    keys_or_raise result

  unfoldable pub settle : Socket → Bytes → Exec ClientState (Unit {0})
  settle ws key s = (ok tt, record s { ws = some ws; node_id = hex key; node_signing_pubkey = key })

  unfoldable pub listen : Exec ClientState (Unit {0})
  listen s = (ok tt, record (log listening s) { task = scheduled })

  unfoldable pub connect : String → Option String → Exec ClientState (Unit {0})
  connect address expected_node_id = do
    ws ← open_socket ("ws://" <> address)
    (node_signing_pub, _) ← authenticate ws expected_node_id
    settle ws node_signing_pub
    stamp ← stamp_now
    reg ← lift (
        sign_packet K.codec K.primitives (raw (registration_packet stamp (hex node_signing_pub)))
          K.identity.signing)
    write ws (pack K.codec reg)
    listen

  -- the `finally` of `_recv_loop`
  unfoldable pub forget : Exec ClientState (Unit {0})
  forget s = (ok tt, record s { ws = none; task = idle })

  -- The event loop runs a task that was created.
  unfoldable pub begin : Task → Exec ClientState (Unit {0})
  begin idle s = (ok tt, s)
  begin scheduled s = (ok tt, record s { task = running })
  begin running s = (ok tt, s)

  -- Cancelling a task whose loop runs makes the loop run its `finally`; one that has not begun never
  -- does.
  unfoldable pub cancel : Task → Exec ClientState (Unit {0})
  cancel idle s = (ok tt, s)
  cancel scheduled s = (ok tt, record s { task = idle })
  cancel running s = forget s

  unfoldable pub shut_socket : Option Socket → Exec ClientState (Unit {0})
  shut_socket none s = (ok tt, s)
  shut_socket (some ws) s = (ok tt, record (log (shut ws) s) { ws = none })

  unfoldable pub disconnect : Exec ClientState (Unit {0})
  disconnect s = (do cancel s.task; λ t. shut_socket t.ws t) s

  -- the packet that `send` signs
  unfoldable pub message_packet : Stamp → String → String → Encrypted → Packet
  message_packet stamp node_id to_addr e =
      new_packet stamp msg (encode_payload K.codec (message_value e))
        (my_cell_id <> ("@" <> node_id)) to_addr

  -- the open socket, or `RuntimeError`
  unfoldable pub socket_or_raise : Option Socket → Exec ClientState Socket
  socket_or_raise none s = (err runtime_error, s)
  socket_or_raise (some ws) s =
      (if K.is_open s.contact ws then ok ws else err runtime_error, advance s)

  unfoldable pub send_on : Socket → String → Bytes → Bytes → String → Exec ClientState (Unit {0})
  send_on ws to_addr recipient_enc_pubkey plaintext node_id = do
    ephemeral ← draw 32
    nonce ← draw 12
    e ← lift (encrypt K.primitives ephemeral nonce plaintext recipient_enc_pubkey)
    stamp ← stamp_now
    pkt ← lift (
        sign_packet K.codec K.primitives (raw (message_packet stamp node_id to_addr e))
          K.identity.signing)
    write ws (pack K.codec pkt)

  unfoldable pub send : String → String → Bytes → Bytes → Exec ClientState (Unit {0})
  send to_cell_id to_node_id recipient_enc_pubkey plaintext s =
      (do
        ws ← socket_or_raise s.ws
        send_on ws (to_cell_id <> ("@" <> to_node_id)) recipient_enc_pubkey plaintext s.node_id)
        s

  -- the body of the `try` of `_handle_msg`
  unfoldable pub plaintext_of : Packet → Result Bytes
  plaintext_of pkt = Outcome.◌>>=◌ (decode_payload K.codec pkt.payload) λ d.
      Outcome.◌>>=◌ (bytes_entry d "ciphertext") λ ciphertext.
        Outcome.◌>>=◌ (bytes_entry d "nonce") λ nonce.
          Outcome.◌>>=◌ (bytes_entry d "ephemeral_pubkey") λ ephemeral_pubkey.
            decrypt K.primitives ciphertext nonce ephemeral_pubkey K.identity.encryption

  unfoldable pub call_back :
      Option (ℕ → String → Bytes → Result (Unit {0})) → String → Bytes → Exec ClientState (Unit {0})
  call_back none from_addr plaintext s = (ok tt, s)
  call_back (some f) from_addr plaintext s =
      (f s.contact from_addr plaintext, log (delivered from_addr plaintext) (advance s))

  unfoldable pub handle_msg : Packet → Exec ClientState (Unit {0})
  handle_msg pkt = attempt (plaintext_of pkt) tt (call_back K.on_message pkt.from_addr)

  unfoldable pub dispatch : Packet → Exec ClientState (Unit {0})
  dispatch pkt = if str_eq pkt.type msg then handle_msg pkt else pure tt

  -- one message of `_recv_loop`
  unfoldable pub receive : Bytes → Exec ClientState (Unit {0})
  receive message s =
      (do
        pkt ← lift (unpack K.codec message)
        valid ← lift (verify_packet K.codec K.primitives pkt s.node_signing_pubkey)
        if valid then (do p ← lift (typed pkt); dispatch p) else pure tt)
        s

  -- An exception ends the loop and goes no further.
  unfoldable pub after :
      Result (Unit {0}) → Exec ClientState (Unit {0}) → Exec ClientState (Unit {0})
  after (ok a) rest s = rest s
  after (err e) rest s = forget s

  -- the messages that arrive until the connection closes
  unfoldable pub recv_loop : List Bytes → Exec ClientState (Unit {0})
  recv_loop [] s = forget s
  recv_loop (message ∷ messages) s =
      let (r, t) = receive message s in after r (recv_loop messages) t
