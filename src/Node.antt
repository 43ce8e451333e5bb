-- ===== src/Node.antt =====
-- node/node.py: the dispatcher, the handlers and the operations of a node. Its creation,
-- start and stop are in Lifecycle.
pub mod Register
pub mod Acceptance
pub mod Accepted
use zki_nevod.Base.{
  ℕ, zero, suc, String, ◌<>◌, Bool, true, false, not, Option, none, some, List, [], ◌∷◌,
  if◌then◌else◌, str_eq, is_empty, bytes_eq, ltb,
}
use zki_nevod.Base.Outcome
use zki_nevod.Base.Outcome.{Error, Result, ok, err, type_error, value_error}
use zki_nevod.Base.Effects.{
  Exec, pure, raise, lift, gets, handle, catch, continue, attempt, ◌>>=◌, ◌>>◌,
}
use zki_nevod.Bytes.{Bytes}
use zki_nevod.Value.{
  Value, nil, bool, int, negative, str, bin, arr, obj, Items, end, item, Fields, empty, field,
  truthy, subscript, get_value, is_str, as_str,
}
use zki_nevod.Crypto.{Encrypted, encrypt}
use zki_nevod.Protocol
use zki_nevod.Protocol.{Packet, raw, encode_payload, decode_payload}
use zki_nevod.Protocol.Constructors.{new_packet}
use zki_nevod.Storage
use zki_nevod.Storage.{CellEntry, PresenceEntry, new_node_entry}
use zki_nevod.Host.{
  PeerConnection, State, Host, read_clock, new_stamp, draw_bytes, change_db, query,
}
use zki_nevod.Transport.{remove, my_id, send_via, connect}
use zki_nevod.Router.{split_at, route, flush_buffer}
use zki_nevod.Gossip.{handle_ping, handle_pong, handle_gossip}

unfoldable pub zeros : ℕ → Bytes
zeros zero = []
zeros (suc n) = 0 ∷ zeros n

unfoldable pub cons_checked : ℕ → Result Bytes → Result Bytes
cons_checked n (ok b) = if ltb n 256 then ok (n ∷ b) else err value_error
cons_checked n (err e) = err e

unfoldable pub bytes_of_items : Items → Result Bytes
bytes_of_items end = ok []
bytes_of_items (item (int n) vs) = cons_checked n (bytes_of_items vs)
bytes_of_items (item (negative n) vs) = err value_error
bytes_of_items (item (bool true) vs) = cons_checked 1 (bytes_of_items vs)
bytes_of_items (item (bool false) vs) = cons_checked 0 (bytes_of_items vs)
bytes_of_items (item v vs) = err type_error

-- `bytes(v)`: of a number n it is n zero bytes, of a list of numbers their row
unfoldable pub to_bytes : Value → Result Bytes
to_bytes (bin b) = ok b
to_bytes (int n) = ok (zeros n)
to_bytes (bool true) = ok (zeros 1)
to_bytes (bool false) = ok []
to_bytes (negative n) = err value_error
to_bytes (arr vs) = bytes_of_items vs
to_bytes (obj empty) = ok []
to_bytes v = err type_error

-- what CELL_REGISTER carries
pub record Registration : Type 0 where
  pub cell_id : Value
  pub signing_pub : Bytes
  pub enc_pub : Bytes
  pub is_home : Bool

unfoldable pub home_or_nil : Option PresenceEntry → Value
home_or_nil none = nil
home_or_nil (some p) = str p.home_node_id

unfoldable pub text_or_nil : Option String → Value
text_or_nil none = nil
text_or_nil (some s) = str s

unfoldable pub visiting_or_nil : Option PresenceEntry → Value
visiting_or_nil none = nil
visiting_or_nil (some p) = text_or_nil p.visiting_node_id

unfoldable pub known_or_raise : Option CellEntry → Exec State CellEntry
known_or_raise none = raise value_error
known_or_raise (some cell) = pure cell

unfoldable pub cell_of_address : Option (String × String) → Result String
cell_of_address none = err value_error
cell_of_address (some (cell_id, node_id)) = ok cell_id

module _ (H : Host) where
  -- the `try` of a handler that wants one entry of the payload
  unfoldable pub payload_entry : Packet → String → Result Value
  payload_entry pkt k = Outcome.◌>>=◌ (decode_payload H.codec pkt.payload) (λ d. subscript d k)

  -- An id that is no text raises here; in the code the log line after the statement raises.
  unfoldable pub handle_node_remove : Packet → Exec State (Unit {0})
  handle_node_remove pkt =
      attempt (payload_entry pkt "node_id") tt
        λ v. do node_id ← lift (as_str v); change_db (Storage.remove_node node_id)

  unfoldable pub handle_node_leaving : Packet → Exec State (Unit {0})
  handle_node_leaving pkt = do change_db (Storage.remove_node pkt.from_addr); remove pkt.from_addr

  unfoldable pub handle_presence_query : Packet → PeerConnection → Exec State (Unit {0})
  handle_presence_query pkt conn = attempt (payload_entry pkt "cell_id") tt λ v. do
    cell_id ← lift (as_str v)
    presence ← query (Storage.get_presence cell_id)
    let payload = encode_payload H.codec (
        obj (
          field "cell_id" v (
            field "home_node_id" (home_or_nil presence)
              (field "visiting_node_id" (visiting_or_nil presence) empty))))
    stamp ← new_stamp H
    let response = new_packet stamp Protocol.presence_response payload (my_id H) pkt.from_addr
    send_via H conn (raw response)

  -- the `try` of `_handle_cell_register`
  unfoldable pub registration_of : Packet → Result Registration
  registration_of pkt = Outcome.◌>>=◌ (decode_payload H.codec pkt.payload) λ d.
      Outcome.◌>>=◌ (subscript d "cell_id") λ cell_id.
        Outcome.◌>>=◌ (Outcome.◌>>=◌ (subscript d "signing_pubkey") to_bytes) λ signing_pub.
          Outcome.◌>>=◌ (Outcome.◌>>=◌ (subscript d "enc_pubkey") to_bytes) λ enc_pub.
            Outcome.◌>>=◌ (get_value d "is_home" (bool true)) λ is_home. ok (record {
              cell_id = cell_id;
              signing_pub = signing_pub;
              enc_pub = enc_pub;
              is_home = truthy is_home;
            })

  -- what follows the two checks; the identity is then that of the connection
  unfoldable pub accept_cell : String → Registration → Exec State (Unit {0})
  accept_cell cell_id r = do
    now ← read_clock H
    change_db (Storage.register_cell now cell_id r.signing_pub r.enc_pub r.is_home)
    now' ← read_clock H
    change_db (Storage.update_presence now' cell_id (my_id H) none)
    flush_buffer H cell_id

  unfoldable pub check_registration : Registration → PeerConnection → Exec State (Unit {0})
  check_registration r conn =
      if not (bytes_eq r.signing_pub conn.peer_signing_pubkey)
      then pure tt
      else if not (is_str r.cell_id conn.peer_node_id)
      then pure tt
      else accept_cell conn.peer_node_id r

  unfoldable pub handle_cell_register : Packet → PeerConnection → Exec State (Unit {0})
  handle_cell_register pkt conn = attempt (registration_of pkt) tt (λ r. check_registration r conn)

  unfoldable pub dispatch : Packet → PeerConnection → Exec State (Unit {0})
  dispatch pkt conn =
      if str_eq pkt.type Protocol.ping
      then handle_ping H pkt conn
      else if str_eq pkt.type Protocol.pong
      then handle_pong H pkt
      else if str_eq pkt.type Protocol.gossip
      then handle_gossip H pkt
      else if str_eq pkt.type Protocol.msg
      then route H pkt
      else if str_eq pkt.type Protocol.node_remove
      then handle_node_remove pkt
      else if str_eq pkt.type Protocol.node_leaving
      then handle_node_leaving pkt
      else if str_eq pkt.type Protocol.presence_query
      then handle_presence_query pkt conn
      else if str_eq pkt.type Protocol.presence_response
      then pure tt
      else if str_eq pkt.type Protocol.cell_register
      then handle_cell_register pkt conn
      else pure tt

  unfoldable pub join : String → Exec State (Unit {0})
  join bootstrap_address = do
    conn ← connect H bootstrap_address
    seen ← read_clock H
    added ← read_clock H
    now ← read_clock H
    change_db (
        Storage.upsert_node now
          (new_node_entry conn.peer_node_id bootstrap_address "permanent" "open" seen added))

  -- the entry of the node itself, which `create_genesis` writes
  unfoldable pub register_self : String → String → Exec State (Unit {0})
  register_self address access = do
    seen ← read_clock H
    added ← read_clock H
    now ← read_clock H
    change_db
        (Storage.upsert_node now (new_node_entry (my_id H) address "permanent" access seen added))

  unfoldable pub sender_address : Option String → String
  sender_address none = my_id H
  sender_address (some cell_id) = if is_empty cell_id then my_id H else cell_id <> ("@" <> my_id H)

  unfoldable pub send_message : String → Bytes → Option String → Exec State (Unit {0})
  send_message to_cell_at_node plaintext from_cell_id = do
    cell_id ← lift (cell_of_address (split_at to_cell_at_node))
    found ← query (Storage.get_cell cell_id)
    cell ← known_or_raise found
    ephemeral ← draw_bytes H 32
    nonce ← draw_bytes H 12
    e ← lift (encrypt H.primitives ephemeral nonce plaintext cell.enc_pubkey)
    let payload = encode_payload H.codec (
        obj (
          field "ephemeral_pubkey" (bin e.ephemeral_pubkey)
            (field "nonce" (bin e.nonce) (field "ciphertext" (bin e.ciphertext) empty))))
    stamp ← new_stamp H
    route H (new_packet stamp Protocol.msg payload (sender_address from_cell_id) to_cell_at_node)

  unfoldable pub register_cell_locally : String → Bytes → Bytes → Exec State (Unit {0})
  register_cell_locally cell_id signing_pubkey enc_pubkey = do
    now ← read_clock H
    change_db (Storage.register_cell now cell_id signing_pubkey enc_pubkey true)
    now' ← read_clock H
    change_db (Storage.update_presence now' cell_id (my_id H) none)
