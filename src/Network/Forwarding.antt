-- ===== src/Network/Forwarding.antt =====
-- The way of a message from a cell at one node to a cell at another: node/client.py, node/transport.py
-- and node/router.py at both ends.
use zki_nevod.Base.{ℕ, ◌+◌, String, ◌<>◌, ◌≡◌, refl, ◌∙◌, ap, none, some, [], ◌∷◌, ◌++◌}
use zki_nevod.Base.Outcome.{ok}
use zki_nevod.Base.Dict
use zki_nevod.Bytes.{Bytes}
use zki_nevod.Crypto.{Encrypted}
use zki_nevod.Crypto.Laws.{IsSigning}
use zki_nevod.Protocol
use zki_nevod.Protocol.{Packet, raw, pack}
use zki_nevod.Router
use zki_nevod.Value.Codec.{IsWire}
use zki_nevod.Identity.{NodeIdentity}
use zki_nevod.Storage
use zki_nevod.Host.{Socket, PeerConnection, sent, World, State, Host, note, next}
use zki_nevod.Transport
use zki_nevod.Transport.{my_id, signed}
use zki_nevod.Transport.Sending.{receive-sent}
use zki_nevod.Router.Delivery.{IsHomeCell, route-home_connected}
use zki_nevod.Router.Forwarding.{IsForwarding, route-forward}
use zki_nevod.Node
use zki_nevod.Client
use zki_nevod.Client.{Client, ClientState, wrote, my_cell_id, send, call_back}
use zki_nevod.Client.Delivery.{receive-encrypted}
use zki_nevod.Network.{joined}
use zki_nevod.Network.Delivery.{
  signer, packet, signed_packet, IsSending, AreMatched, send-wrote, signed-fields, addressed,
  packet-IsWire, signed-IsWire, carried, dispatch-msg,
}

module _ (H : Host) (W : World) (me : NodeIdentity) (A B : Client) (s : ClientState) (text : Bytes)
    (e : Encrypted) (node : String) where
  -- the node of the recipient
  abbrev pub second : Host
  second = record H { world = W; identity = me }

  -- the message as the sender's node passes it on, and as the recipient's node does
  abbrev forwarded : Packet
  forwarded = signed H (signed_packet H A B s text e node)

  abbrev arrived : Packet
  arrived = signed second forwarded

  -- The recipient's node knows the sender's node by its key and has a connection to the recipient, whose
  -- home it is.
  pub record IsArriving (from to : PeerConnection) (n : State) : Type 0 where
    pub at : ℕ
    pub sender_key : from.peer_signing_pubkey ≡ H.identity.signing.public
    pub connected : Dict.get (my_cell_id B) n.conns ≡ some to
    pub announced :
        Storage.get_presence (my_cell_id B) n.db
        ≡ some (record {
          cell_id = my_cell_id B;
          home_node_id = my_id second;
          visiting_node_id = none;
          updated_at = at;
        })
    pub takes : (message : Bytes) → W.send n.contact to.ws message ≡ ok tt

  onward :
      (from to : PeerConnection) (n : State)
      → AreMatched H A B s text e
      → from.peer_signing_pubkey ≡ A.identity.signing.public
      → IsForwarding H (my_cell_id B) (my_id second) to n
      → Transport.receive H
          (Node.dispatch H)
          from
          (pack H.codec (raw (signed_packet H A B s text e node)))
          n
        ≡ (ok tt, note (sent to.ws (pack H.codec (raw forwarded))) (next n))
  onward from to n m known forward =
      receive-sent (signer H A B s text e) H.world H.identity (Node.dispatch H) from
        (packet H A B s text e node) n m.coded m.lawful m.sender
        (packet-IsWire H A B s text e node m).0 (packet-IsWire H A B s text e node m).1 known
      ∙ rw
          (
            dispatch-msg H A B s text e (signed_packet H A B s text e node) from n
                (signed-fields H A B s text e node).0,
            route-forward H (my_cell_id B) (my_id second) (signed_packet H A B s text e node) to n
                forward (addressed H A B s text e node m),
          )
          refl

  forwarded-addressed :
      AreMatched H A B s text e → Router.parse_addr forwarded.to_addr ≡ (some (my_cell_id B), node)
  unfolding signed
  forwarded-addressed m = addressed H A B s text e node m

  forwarded-IsHomeCell :
      (from to : PeerConnection) (n : State)
      → AreMatched H A B s text e
      → IsArriving from to n
      → IsHomeCell second (my_cell_id B) forwarded n
  forwarded-IsHomeCell from to n m r = record {
    to_node = node;
    at = r.at;
    addressed = forwarded-addressed m;
    named = m.named;
    announced = r.announced;
  }

  forwarded-fields :
      (forwarded.type ≡ Protocol.msg)
      × (forwarded.from_addr ≡ my_cell_id A <> ("@" <> s.node_id))
      × (forwarded.payload ≡ Protocol.encode_payload H.codec (Client.message_value e))
  unfolding signed
  forwarded-fields = (
    (signed-fields H A B s text e node).0,
    (signed-fields H A B s text e node).2,
    carried H A B s text e node,
  )

  forwarded-IsWire : AreMatched H A B s text e → IsWire forwarded.ts × IsWire forwarded.v
  unfolding signed
  forwarded-IsWire m = signed-IsWire H A B s text e node m

  handed_over :
      (from to : PeerConnection) (n : State)
      → AreMatched H A B s text e
      → IsArriving from to n
      → Transport.receive second (Node.dispatch second) from (pack H.codec (raw forwarded)) n
        ≡ (ok tt, note (sent to.ws (pack H.codec (raw arrived))) (next n))
  handed_over from to n m r =
      receive-sent H W me (Node.dispatch second) from (signed_packet H A B s text e node) n m.coded
        m.lawful m.node (signed-IsWire H A B s text e node m).0
        (signed-IsWire H A B s text e node m).1 r.sender_key
      ∙ rw
          (
            dispatch-msg second A B s text e forwarded from n forwarded-fields.0,
            route-home_connected second (my_cell_id B) forwarded n
                (forwarded-IsHomeCell from to n m r) r.connected
                (r.takes (pack H.codec (raw arrived))),
          )
          refl

  -- A text that a cell at one node sends to a cell at another arrives: the sender writes one message,
  -- which makes its node send one message to the recipient's node, which makes that node send one
  -- message to the recipient, which makes the recipient's client call its callback with the text and
  -- the address of the sender, if the encryption succeeds, the websockets take what they are given,
  -- the sender's node has a presence that leads to the recipient's node and is connected to it, the
  -- recipient has that node as its home and visits no other, everybody knows the keys of the next,
  -- the keys match, the codec and the primitives are lawful, and msgpack can carry the time stamp.
  pub forward-arrives :
      (ws : Socket) (from to_second from_first to : PeerConnection) (n m : State) (t : ClientState)
      → IsSending H A B s text e ws
      → AreMatched H A B s text e
      → from.peer_signing_pubkey ≡ A.identity.signing.public
      → IsForwarding H (my_cell_id B) (my_id second) to_second n
      → IsArriving from_first to m
      → IsSigning H.primitives me.signing
      → t.node_signing_pubkey ≡ me.signing.public
      → (first : Bytes) × (between : Bytes) × (last : Bytes) × ((send
            (joined H A)
            (my_cell_id B)
            node
            B.identity.encryption.public
            text
            s).1.trace
          ≡ s.trace ++ wrote ws first ∷ [])
        × (Transport.receive H (Node.dispatch H) from first n
            ≡ (ok tt, note (sent to_second.ws between) (next n)))
        × (Transport.receive second (Node.dispatch second) from_first between m
            ≡ (ok tt, note (sent to.ws last) (next m)))
        × (Client.receive (joined H B) last t
            ≡ call_back (joined H B) B.on_message (my_cell_id A <> ("@" <> s.node_id)) text t)
  forward-arrives ws from to_second from_first to n m t sending matched known forward arriving keys
        trusted =
      (
        pack H.codec (raw (signed_packet H A B s text e node)),
        pack H.codec (raw forwarded),
        pack H.codec (raw arrived),
        send-wrote H A B s text e ws node sending,
        onward from to_second n matched known forward,
        handed_over from_first to m matched arriving,
        receive-encrypted second B t (A.world.urandom (s.contact + 1) 32)
              (A.world.urandom (s.contact + 1 + 1) 12) text forwarded matched.coded matched.lawful
              keys matched.recipient trusted sending.encrypted forwarded-fields.0 forwarded-fields.2
              (forwarded-IsWire matched).0 (forwarded-IsWire matched).1
            ∙ ap (λ from_addr. call_back (joined H B) B.on_message from_addr text t)
                forwarded-fields.1,
      )
