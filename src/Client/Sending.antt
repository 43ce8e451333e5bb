-- ===== src/Client/Sending.antt =====
-- What `send` of node/client.py writes to its websocket.
use zki_nevod.Base.{ℕ, ◌+◌, String, ◌<>◌, ◌≡◌, refl, true, some, [], ◌∷◌, ◌++◌}
use zki_nevod.Base.Outcome.{ok}
use zki_nevod.Bytes.{Bytes}
use zki_nevod.Crypto.{Encrypted, encrypt, sign}
use zki_nevod.Protocol.{Packet, raw, pack}
use zki_nevod.Protocol.Constructors.{Stamp}
use zki_nevod.Protocol.Signing.{signed_bytes, sign_packet-raw}
use zki_nevod.Host.{Socket}
use zki_nevod.Client.{
  Client, ClientState, wrote, message_packet, socket_or_raise, send_on, draw, stamp_now, write,
  send,
}

module _ (K : Client) (s : ClientState) where
  abbrev sent_at : Stamp
  sent_at = record {
    id = K.world.uuid4 (s.contact + 1 + 1 + 1);
    ts = K.world.time (s.contact + 1 + 1 + 1);
  }

  -- the packet for an address, signed by the cell
  abbrev pub signed_message : String → Encrypted → Packet
  signed_message to_addr e =
      let p = message_packet K sent_at s.node_id to_addr e in
      record p { sig = sign K.primitives (signed_bytes K.codec p) K.identity.signing }

  -- The client is connected, the text is encrypted to the key, and the websocket takes what it is given.
  pub record IsSending (ws : Socket) (key text : Bytes) (e : Encrypted) : Type 0 where
    pub connected : s.ws ≡ some ws
    pub is_open : K.is_open s.contact ws ≡ true
    pub encrypted :
        encrypt K.primitives
          (K.world.urandom (s.contact + 1) 32)
          (K.world.urandom (s.contact + 1 + 1) 12)
          text
          key
        ≡ ok e
    pub takes : (n : ℕ) (message : Bytes) → K.world.send n ws message ≡ ok tt

  pub send-signed_message :
      (ws : Socket) (cell node : String) (key text : Bytes) (e : Encrypted)
      → IsSending ws key text e
      → ((send K cell node key text s).0 ≡ ok tt)
        × ((send K cell node key text s).1.trace
            ≡ s.trace
              ++ wrote ws (pack K.codec (raw (signed_message (cell <> ("@" <> node)) e))) ∷ [])
  unfolding send socket_or_raise send_on draw stamp_now write
  send-signed_message ws cell node key text e h =
      let to = cell <> ("@" <> node) in
      rw
        (
          h.connected,
          h.is_open,
          h.encrypted,
          sign_packet-raw K.codec K.primitives (message_packet K sent_at s.node_id to e)
              K.identity.signing,
          h.takes (s.contact + 1 + 1 + 1 + 1) (pack K.codec (raw (signed_message to e))),
        )
        (refl, refl)
