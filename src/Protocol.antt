-- ===== src/Protocol.antt =====
-- node/protocol.py: packets, what is signed, the wire form, and the packet constructors.
-- `unpack` checks no types, so a packet from the wire is a `RawPacket`, whose fields are any values;
-- `Packet` is one whose fields have the types that the dataclass declares.
pub mod Wire
pub mod Signing
pub mod Constructors
use zki_nevod.Base.{
  ℕ, String, Bool, true, false, Option, none, some, List, [], ◌∷◌, ◌++◌, if◌then◌else◌,
}
use zki_nevod.Base.Outcome.{Result, ok, err, Error, ◌>>=◌}
use zki_nevod.Bytes.{Bytes, encode}
use zki_nevod.Bytes.Decimal.{decimal}
use zki_nevod.Value.{
  Value, nil, int, str, bin, obj, Fields, empty, field, truthy, or_value, get_value, as_str, as_bin,
}
use zki_nevod.Value.Codec.{Codec}
use zki_nevod.Crypto.{SigningKeypair, sign, verify}
use zki_nevod.Crypto.Library.{Primitives}

abbrev pub proto_version : ℕ
proto_version = 1

-- class `T`
abbrev pub msg : String
msg = "msg"

abbrev pub ack : String
ack = "ack"

abbrev pub ping : String
ping = "ping"

abbrev pub pong : String
pong = "pong"

abbrev pub gossip : String
gossip = "gossip"

abbrev pub node_register : String
node_register = "node_register"

abbrev pub node_vote : String
node_vote = "node_vote"

abbrev pub node_cert : String
node_cert = "node_cert"

abbrev pub node_remove : String
node_remove = "node_remove"

abbrev pub node_leaving : String
node_leaving = "node_leaving"

abbrev pub presence_query : String
presence_query = "presence_query"

abbrev pub presence_response : String
presence_response = "presence_response"

abbrev pub cell_register : String
cell_register = "cell_register"

abbrev pub cell_invite : String
cell_invite = "cell_invite"

abbrev pub auth_challenge : String
auth_challenge = "auth_challenge"

abbrev pub auth_response : String
auth_response = "auth_response"

pub record RawPacket : Type 0 where
  pub type : Value
  pub payload : Value
  pub id : Value
  pub from_addr : Value
  pub to_addr : Value
  pub sig : Value
  pub ts : Value
  pub v : Value

pub record Packet : Type 0 where
  pub type : String
  pub payload : Bytes
  pub id : String
  pub from_addr : String
  pub to_addr : String
  pub sig : Bytes
  -- `str` and msgpack take any value here
  pub ts : Value
  pub v : Value

-- A packet as the functions below see it.
unfoldable pub raw : Packet → RawPacket
raw p = record {
  type = str p.type;
  payload = bin p.payload;
  id = str p.id;
  from_addr = str p.from_addr;
  to_addr = str p.to_addr;
  sig = bin p.sig;
  ts = p.ts;
  v = p.v;
}

-- The packet of a raw one, if its fields have the declared types.
unfoldable pub typed : RawPacket → Result Packet
unfolding as_str as_bin
typed r = do
  type ← as_str r.type
  payload ← as_bin r.payload
  id ← as_str r.id
  from_addr ← as_str r.from_addr
  to_addr ← as_str r.to_addr
  sig ← as_bin r.sig
  ok (record {
    type = type;
    payload = payload;
    id = id;
    from_addr = from_addr;
    to_addr = to_addr;
    sig = sig;
    ts = r.ts;
    v = r.v;
  })

-- the dict that is sent
unfoldable pub packet_value : RawPacket → Value
packet_value p = obj (
    field "v" p.v (
      field "id" p.id (
        field "type" p.type (
          field "from" p.from_addr (
            field "to" p.to_addr
              (field "payload" p.payload (field "sig" p.sig (field "ts" p.ts empty))))))))

-- the fields of a decoded message, each with its default
unfoldable pub packet_of : Value → Result RawPacket
unfolding get_value or_value
packet_of d = do
  v ← get_value d "v" (int proto_version)
  id ← get_value d "id" (str "")
  type ← get_value d "type" (str "")
  from_addr ← get_value d "from" (str "")
  to_addr ← get_value d "to" (str "")
  payload ← get_value d "payload" (bin [])
  sig ← get_value d "sig" (bin [])
  ts ← get_value d "ts" (int 0)
  ok (record {
    type = type;
    payload = or_value payload (bin []);
    id = id;
    from_addr = from_addr;
    to_addr = to_addr;
    sig = or_value sig (bin []);
    ts = ts;
    v = v;
  })

module _ (C : Codec) where
  -- `str(v).encode()`
  unfoldable pub show : Value → Bytes
  show (int n) = decimal n
  show v = C.text_of v

  -- id + type + from + to + payload + ts; a field of another type raises
  unfoldable pub sign_data : RawPacket → Result Bytes
  unfolding as_str as_bin
  sign_data p = do
    id ← as_str p.id
    type ← as_str p.type
    from_addr ← as_str p.from_addr
    to_addr ← as_str p.to_addr
    payload ← as_bin p.payload
    ok (
        encode id
        ++ (encode type ++ (encode from_addr ++ (encode to_addr ++ (payload ++ show p.ts)))))

  unfoldable pub pack : RawPacket → Bytes
  unfolding packet_value
  pack p = C.packb (packet_value p)

  unfoldable pub unpack : Bytes → Result RawPacket
  unfolding packet_of
  unpack message = do d ← C.unpackb message; packet_of d

  unfoldable pub encode_payload : Value → Bytes
  encode_payload d = C.packb d

  unfoldable pub decode_payload : Bytes → Result Value
  decode_payload payload = C.unpackb payload

module _ (C : Codec) (P : Primitives) where
  -- The signature replaces the one that the packet had.
  unfoldable pub sign_packet : RawPacket → SigningKeypair → Result RawPacket
  unfolding sign_data
  sign_packet packet signing_kp = do
    message ← sign_data C packet
    ok (record packet { sig = bin (sign P message signing_kp) })

  unfoldable pub verify_packet : RawPacket → Bytes → Result Bool
  unfolding sign_data truthy as_bin
  verify_packet packet signing_pubkey =
      if truthy packet.sig
      then (do
        message ← sign_data C packet
        signature ← as_bin packet.sig
        verify P message signature signing_pubkey)
      else ok false
