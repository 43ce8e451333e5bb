-- ===== src/Network/Delivery.antt =====
-- The way of a message from one cell to another through the node where both are connected.
use Prim.Native.Char.{code}
use zki_nevod.Base.{
  ℕ, ◌+◌, ◌/◌, ◌%◌, String, ◌<>◌, ◌≡◌, ◌≢◌, refl, ◌∙◌, ap, true, false, none, some, [], ◌∷◌, ◌++◌,
  is_empty, arith,
}
use zki_nevod.Base.Outcome.{ok}
use zki_nevod.Base.Dict
use zki_nevod.Bytes.{Bytes, AreBytes, hex, hex_digit, hex_value}
use zki_nevod.Bytes.Hex.{hex_value-hex_digit}
use zki_nevod.Value.{int}
use zki_nevod.Value.Codec
use zki_nevod.Value.Codec.{IsWire}
use zki_nevod.Crypto.{Encrypted, encrypt}
use zki_nevod.Crypto.Library
use zki_nevod.Crypto.Laws.{IsSigning, IsEncryption}
use zki_nevod.Protocol
use zki_nevod.Protocol.{Packet, raw, pack, encode_payload}
use zki_nevod.Protocol.Constructors.{Stamp, new_packet}
use zki_nevod.Protocol.Signing.{sign_packet-raw}
use zki_nevod.Identity.{cell_id}
use zki_nevod.Storage
use zki_nevod.Host.{Socket, PeerConnection, sent, State, Host, note, next}
use zki_nevod.Transport
use zki_nevod.Transport.{my_id, signed}
use zki_nevod.Transport.Sending.{receive-sent}
use zki_nevod.Router.{parse_addr, route}
use zki_nevod.Router.Address.{HasNoAt, parse_addr-join}
use zki_nevod.Router.Delivery.{IsHomeCell, route-home_connected}
use zki_nevod.Node
use zki_nevod.Client
use zki_nevod.Client.{
  Client, ClientState, wrote, my_cell_id, message_value, message_packet, socket_or_raise, send_on,
  draw, stamp_now, write, send, call_back,
}
use zki_nevod.Client.Delivery.{receive-encrypted}
use zki_nevod.Network.{joined}

hex_value-ne-at : (c h : ℕ) → hex_value c ≡ some h → c ≢ b'@'
unfolding hex_value
hex_value-ne-at c h e = ground arith

hex-HasNoAt : (b : Bytes) → AreBytes b → HasNoAt (hex b)
unfolding hex
hex-HasNoAt [] h = tt
hex-HasNoAt (x ∷ b) (h, hs) = (
  hex_value-ne-at (code (hex_digit (x / 16))) (x / 16) (hex_value-hex_digit (x / 16) (omega arith)),
  (
    hex_value-ne-at (code (hex_digit (x % 16))) (x % 16)
        (hex_value-hex_digit (x % 16) (omega arith)),
    hex-HasNoAt b hs,
  ),
)

module _ (H : Host) (A B : Client) (s : ClientState) (text : Bytes) (e : Encrypted) where
  -- the node's view of the signer of the message
  abbrev pub signer : Host
  signer = record H { identity = record H.identity { signing = A.identity.signing } }

  abbrev sent_at : Stamp
  sent_at = record {
    id = A.world.uuid4 (s.contact + 1 + 1 + 1);
    ts = A.world.time (s.contact + 1 + 1 + 1);
  }

  -- the address of the recipient, and the packet
  abbrev pub to_addr : String → String
  to_addr node = my_cell_id B <> ("@" <> node)

  abbrev pub packet : String → Packet
  packet node = message_packet (joined H A) sent_at s.node_id (to_addr node) e

  abbrev pub signed_packet : String → Packet
  signed_packet node = signed signer (packet node)

  -- The sender is connected, the texts are encrypted, and its websocket takes what it is given.
  pub record IsSending (ws : Socket) : Type 0 where
    pub connected : s.ws ≡ some ws
    pub is_open : A.is_open s.contact ws ≡ true
    pub encrypted :
        encrypt H.primitives
          (A.world.urandom (s.contact + 1) 32)
          (A.world.urandom (s.contact + 1 + 1) 12)
          text
          B.identity.encryption.public
        ≡ ok e
    pub takes : (n : ℕ) (message : Bytes) → A.world.send n ws message ≡ ok tt

  pub send-wrote :
      (ws : Socket) (node : String)
      → IsSending ws
      → (send (joined H A) (my_cell_id B) node B.identity.encryption.public text s).1.trace
        ≡ s.trace ++ wrote ws (pack H.codec (raw (signed_packet node))) ∷ []
  unfolding send socket_or_raise send_on draw stamp_now write signed
  send-wrote ws node h =
      rw
        (
          h.connected,
          h.is_open,
          h.encrypted,
          sign_packet-raw H.codec H.primitives (packet node) A.identity.signing,
          h.takes (s.contact + 1 + 1 + 1 + 1) (pack H.codec (raw (signed_packet node))),
        )
        refl

  pub signed-fields :
      (node : String)
      → ((signed_packet node).type ≡ Protocol.msg)
        × ((signed_packet node).to_addr ≡ to_addr node)
        × ((signed_packet node).from_addr ≡ my_cell_id A <> ("@" <> s.node_id))
        × IsWire (signed_packet node).v
  unfolding signed message_packet new_packet my_cell_id
  signed-fields node = (refl, refl, refl, omega arith)

  -- The node knows the sender by its key and has a connection to the recipient, whose home it is.
  pub record IsRelaying (from to : PeerConnection) (n : State) : Type 0 where
    pub at : ℕ
    pub sender_key : from.peer_signing_pubkey ≡ A.identity.signing.public
    pub connected : Dict.get (my_cell_id B) n.conns ≡ some to
    pub announced :
        Storage.get_presence (my_cell_id B) n.db
        ≡ some (record {
          cell_id = my_cell_id B;
          home_node_id = my_id H;
          visiting_node_id = none;
          updated_at = at;
        })
    pub takes : (message : Bytes) → H.world.send n.contact to.ws message ≡ ok tt

  -- The codec and the primitives are lawful, the keys match, and msgpack can carry the time stamp.
  pub record AreMatched : Type 0 where
    pub coded : Codec.IsLawful H.codec
    pub lawful : Library.IsLawful H.primitives
    pub sender : IsSigning H.primitives A.identity.signing
    pub node : IsSigning H.primitives H.identity.signing
    pub recipient : IsEncryption H.primitives B.identity.encryption
    pub cell_key : AreBytes B.identity.signing.public
    pub named : is_empty (my_cell_id B) ≡ false
    pub stamped : IsWire (int (A.world.time (s.contact + 1 + 1 + 1)))

  pub addressed :
      (node : String)
      → AreMatched
      → parse_addr (signed_packet node).to_addr ≡ (some (my_cell_id B), node)
  unfolding my_cell_id cell_id
  addressed node m =
      ap parse_addr (signed-fields node).1
      ∙ (parse_addr-join (my_cell_id B) node (hex-HasNoAt B.identity.signing.public m.cell_key)).0

  home-IsHomeCell :
      (node : String) (from to : PeerConnection) (n : State)
      → AreMatched
      → IsRelaying from to n
      → IsHomeCell H (my_cell_id B) (signed_packet node) n
  home-IsHomeCell node from to n m r = record {
    to_node = node;
    at = r.at;
    addressed = addressed node m;
    named = m.named;
    announced = r.announced;
  }

  pub packet-IsWire :
      (node : String) → AreMatched → IsWire (packet node).ts × IsWire (packet node).v
  unfolding message_packet new_packet
  packet-IsWire node m = (m.stamped, omega arith)

  pub signed-IsWire :
      (node : String) → AreMatched → IsWire (signed_packet node).ts × IsWire (signed_packet node).v
  unfolding signed message_packet new_packet
  signed-IsWire node m = (m.stamped, omega arith)

  pub carried :
      (node : String) → (signed_packet node).payload ≡ encode_payload H.codec (message_value e)
  unfolding signed message_packet new_packet
  carried node = refl

  pub dispatch-msg :
      (p : Packet) (conn : PeerConnection) (n : State)
      → p.type ≡ Protocol.msg
      → Node.dispatch H p conn n ≡ route H p n
  unfolding Node.dispatch
  dispatch-msg p conn n type = rw type refl

  relay :
      (node : String) (from to : PeerConnection) (n : State)
      → AreMatched
      → IsRelaying from to n
      → Transport.receive H (Node.dispatch H) from (pack H.codec (raw (signed_packet node))) n
        ≡ (ok tt, note (sent to.ws (pack H.codec (raw (signed H (signed_packet node))))) (next n))
  relay node from to n m r =
      receive-sent signer H.world H.identity (Node.dispatch H) from (packet node) n m.coded m.lawful
        m.sender (packet-IsWire node m).0 (packet-IsWire node m).1 r.sender_key
      ∙ rw
          (
            dispatch-msg (signed_packet node) from n (signed-fields node).0,
            route-home_connected H (my_cell_id B) (signed_packet node) n
                (home-IsHomeCell node from to n m r) r.connected
                (r.takes (pack H.codec (raw (signed H (signed_packet node))))),
          )
          refl

  -- A text that one cell sends to another through the node where both are connected arrives: the sender
  -- writes one message, which makes the node send one message to the recipient, which makes the
  -- recipient's client call its callback with the text and the address of the sender, if the
  -- encryption succeeds, the websockets take what they are given, the recipient has this node as its home and
  -- visits no other, everybody knows the keys of the others, the keys match, the codec and the primitives
  -- are lawful, and msgpack can carry the time stamp.
  pub send-arrives :
      (ws : Socket) (node : String) (from to : PeerConnection) (n : State) (t : ClientState)
      → IsSending ws
      → IsRelaying from to n
      → AreMatched
      → t.node_signing_pubkey ≡ H.identity.signing.public
      → (message : Bytes) × (relayed : Bytes) × ((send
            (joined H A)
            (my_cell_id B)
            node
            B.identity.encryption.public
            text
            s).1.trace
          ≡ s.trace ++ wrote ws message ∷ [])
        × (Transport.receive H (Node.dispatch H) from message n
            ≡ (ok tt, note (sent to.ws relayed) (next n)))
        × (Client.receive (joined H B) relayed t
            ≡ call_back (joined H B) B.on_message (my_cell_id A <> ("@" <> s.node_id)) text t)
  send-arrives ws node from to n t sending relaying matched known = (
    pack H.codec (raw (signed_packet node)),
    pack H.codec (raw (signed H (signed_packet node))),
    send-wrote ws node sending,
    relay node from to n matched relaying,
    receive-encrypted H B t (A.world.urandom (s.contact + 1) 32)
          (A.world.urandom (s.contact + 1 + 1) 12) text (signed_packet node) matched.coded
          matched.lawful matched.node matched.recipient known sending.encrypted
          (signed-fields node).0 (carried node) (signed-IsWire node matched).0
          (signed-IsWire node matched).1
        ∙ ap (λ from_addr. call_back (joined H B) B.on_message from_addr text t)
            (signed-fields node).2,
  )
