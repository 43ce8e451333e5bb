-- ===== src/Transport/Sending.antt =====
-- What goes out on a connection of node/transport.py, and what a receive loop makes of it.
use zki_nevod.Base.{String, ◌≡◌, refl, Bool, true, false, none, some, inl, inr, ◌⊎◌}
use zki_nevod.Base.Outcome
use zki_nevod.Base.Outcome.{Error, Result, ok, err, Result-cases}
use zki_nevod.Base.Effects.{Exec, pure, catch}
use zki_nevod.Base.Dict
use zki_nevod.Bytes.{Bytes}
use zki_nevod.Value.Codec
use zki_nevod.Value.Codec.{IsWire}
use zki_nevod.Crypto.Library
use zki_nevod.Crypto
use zki_nevod.Value
use zki_nevod.Crypto.Laws.{IsSigning}
use zki_nevod.Protocol.{Packet, raw, typed, pack, unpack, sign_packet, verify_packet}
use zki_nevod.Protocol.Wire.{typed-raw, unpack-pack_typed}
use zki_nevod.Protocol.Signing.{
  signed_bytes, sign_packet-raw, verify_packet-sign_packet, verify_packet-eq-true,
}
use zki_nevod.Identity.{NodeIdentity}
use zki_nevod.Host.{World, sent, PeerConnection, State, Host, next, note, note_ok, ws_send}
use zki_nevod.Transport.{
  remove, get, signed, send, send_via, drop_closed, finish_send, send_if, send_to, receive,
}

module _ (H : Host) where
  sign_packet-signed :
      (p : Packet)
      → sign_packet H.codec H.primitives (raw p) H.identity.signing ≡ ok (raw (signed H p))
  unfolding signed
  sign_packet-signed p = sign_packet-raw H.codec H.primitives p H.identity.signing

  pub send_via-raw :
      (conn : PeerConnection) (p : Packet) (s : State)
      → send_via H conn (raw p) s ≡ ws_send H conn.ws (pack H.codec (raw (signed H p))) s
  unfolding send_via send
  send_via-raw conn p s = rw (sign_packet-signed p) refl

  -- the end of a send, by what the websocket answered
  abbrev pub sent_to :
      PeerConnection → String → Packet → State → Result (Unit {0}) → Result (Bool × Packet) × State
  sent_to conn id p s (ok a) =
      (ok (true, signed H p), note (sent conn.ws (pack H.codec (raw (signed H p)))) (next s))
  sent_to conn id p s (err Outcome.connection_closed) =
      (ok (false, signed H p), record (next s) { conns = Dict.pop id s.conns })
  sent_to conn id p s (err e) = (err e, next s)

  finish_sent :
      (conn : PeerConnection) (id : String) (p : Packet) (s : State) (r : Result (Unit {0}))
      → finish_send H id p r (note_ok r (sent conn.ws (pack H.codec (raw (signed H p)))) (next s))
        ≡ sent_to conn id p s r
  unfolding finish_send drop_closed remove
  finish_sent conn id p s (ok a) = refl
  finish_sent conn id p s (err Outcome.connection_closed) = refl
  finish_sent conn id p s (err e) = refl

  pub send_to-connected :
      (id : String) (conn : PeerConnection) (p : Packet) (s : State)
      → Dict.get id s.conns ≡ some conn
      → send_to H id p s
        ≡ sent_to conn id p s (H.world.send s.contact conn.ws (pack H.codec (raw (signed H p))))
  unfolding send_to send_if get ws_send
  send_to-connected id conn p s found =
      rw (found, send_via-raw conn p s)
        (finish_sent conn id p s (H.world.send s.contact conn.ws (pack H.codec (raw (signed H p)))))

  -- Without a connection nothing is sent and nothing changes.
  pub send_to-unconnected :
      (id : String) (p : Packet) (s : State)
      → Dict.get id s.conns ≡ none
      → send_to H id p s ≡ (ok (false, p), s)
  unfolding send_to send_if get
  send_to-unconnected id p s absent = rw absent refl

  pub signed-verifies :
      Crypto.Library.IsLawful H.primitives
      → IsSigning H.primitives H.identity.signing
      → (p : Packet)
      → verify_packet H.codec H.primitives (raw (signed H p)) H.identity.signing.public ≡ ok true
  signed-verifies L k p =
      verify_packet-sign_packet H.codec H.primitives L (raw p) H.identity.signing k
        (sign_packet-signed p)

  -- A packet that a node with a matching key pair signed and packed is handed, signed and
  -- otherwise unchanged, to its handler by every node that receives it on a connection with the
  -- sender's public key, and what the handler raises is dropped; for lawful codecs and
  -- primitives, and time stamps and versions that msgpack can carry.
  pub receive-sent :
      (W : World) (me : NodeIdentity) (on_packet : Packet → PeerConnection → Exec State (Unit {0}))
      (conn : PeerConnection) (p : Packet) (s : State)
      → Value.Codec.IsLawful H.codec
      → Crypto.Library.IsLawful H.primitives
      → IsSigning H.primitives H.identity.signing
      → IsWire p.ts
      → IsWire p.v
      → conn.peer_signing_pubkey ≡ H.identity.signing.public
      → receive
          (record H { world = W; identity = me })
          on_packet
          conn
          (pack H.codec (raw (signed H p)))
          s
        ≡ catch (on_packet (signed H p) conn) (pure tt) s
  unfolding receive
  receive-sent W me on_packet conn p s CL L k ts v same =
      rw (unpack-pack_typed H.codec CL (signed H p) (unfold signed in ts) (unfold signed in v))
        (rw same (rw (signed-verifies L k p) (rw (typed-raw (signed H p)) refl)))

-- A message either leaves the state as it is, or it decodes to a packet whose signature of its
-- fields the primitive accepts for the public key of the connection; then what happens is what
-- the handler does with this packet, without what it raises.
pub receive-cases :
    (H : Host) (on_packet : Packet → PeerConnection → Exec State (Unit {0})) (conn : PeerConnection)
    (message : Bytes) (s : State)
    → ((receive H on_packet conn message s).1 ≡ s)
      ⊎ ((p : Packet) × (Outcome.◌>>=◌ (unpack H.codec message) typed ≡ ok p)
          × (H.primitives.ed25519_verify conn.peer_signing_pubkey p.sig (signed_bytes H.codec p)
              ≡ ok tt)
          × (receive H on_packet conn message s ≡ catch (on_packet p conn) (pure tt) s))
unfolding receive
receive-cases H on_packet conn message s = elim (Result-cases (unpack H.codec message)) [
  | inl (e, broken) ↦ inl (rw broken refl)
  | inr (r, decoded) ↦
      elim (Result-cases (verify_packet H.codec H.primitives r conn.peer_signing_pubkey)) [
        | inl (e, raised) ↦ inl (rw (decoded, raised) refl)
        | inr (false, refused) ↦ inl (rw (decoded, refused) refl)
        | inr (true, passed) ↦
            let (p, is_p, verified) =
              verify_packet-eq-true H.codec H.primitives r conn.peer_signing_pubkey passed in
            inr (p, rw decoded is_p, verified, rw (decoded, passed, is_p) refl)
      ]
]
