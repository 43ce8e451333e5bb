-- ===== src/Protocol/Constructors.antt =====
-- The packet constructors of node/protocol.py. `uuid.uuid4` and `time.time` draw the id and the
-- time stamp, which are arguments here.
use zki_nevod.Base.{ℕ, String, []}
use zki_nevod.Bytes.{Bytes}
use zki_nevod.Value.{Value, int, str, bin, arr, obj, Items, empty, field}
use zki_nevod.Value.Codec.{Codec}
use zki_nevod.Protocol.{
  RawPacket, Packet, raw, proto_version, ping, pong, gossip, auth_challenge, auth_response,
  encode_payload,
}

-- what the defaults of a packet draw
pub record Stamp : Type 0 where
  pub id : String
  pub ts : ℕ

-- `Packet(type=..., payload=..., from_addr=..., to_addr=...)`
unfoldable pub new_packet : Stamp → String → Bytes → String → String → Packet
new_packet stamp type payload from_addr to_addr = record {
  type = type;
  payload = payload;
  id = stamp.id;
  from_addr = from_addr;
  to_addr = to_addr;
  sig = [];
  ts = int stamp.ts;
  v = int proto_version;
}

-- the payload of AUTH_RESPONSE
unfoldable pub auth_response_payload : Value → Bytes → Bytes → Bytes → Value
auth_response_payload nonce signature signing_pubkey enc_pubkey = obj (
    field "nonce" nonce (
      field "sig" (bin signature)
        (field "signing_pubkey" (bin signing_pubkey) (field "enc_pubkey" (bin enc_pubkey) empty))))

module _ (C : Codec) (stamp : Stamp) where
  unfoldable pub make_ping : String → String → Packet
  unfolding new_packet
  make_ping from_node to_node = new_packet stamp ping [] from_node to_node

  unfoldable pub make_pong : String → String → String → Packet
  unfolding new_packet encode_payload
  make_pong from_node to_node ping_id =
      new_packet stamp pong (encode_payload C (obj (field "ping_id" (str ping_id) empty))) from_node
        to_node

  unfoldable pub make_gossip : String → Items → Packet
  unfolding new_packet encode_payload
  make_gossip from_node node_table_entries =
      new_packet stamp gossip
        (encode_payload C (obj (field "nodes" (arr node_table_entries) empty))) from_node ""

  unfoldable pub make_auth_challenge : String → String → Bytes → Packet
  unfolding new_packet encode_payload
  make_auth_challenge from_node to_node nonce =
      new_packet stamp auth_challenge (encode_payload C (obj (field "nonce" (bin nonce) empty)))
        from_node to_node

  -- The recipient is what the peer's challenge names as its sender, unchecked.
  unfoldable pub make_auth_response : String → Value → Value → Bytes → Bytes → Bytes → RawPacket
  unfolding new_packet encode_payload auth_response_payload raw
  make_auth_response from_node to_node nonce signature signing_pubkey enc_pubkey =
      let payload =
        encode_payload C (auth_response_payload nonce signature signing_pubkey enc_pubkey) in
      record (raw (new_packet stamp auth_response payload from_node "")) { to_addr = to_node }
