-- ===== src/Transport/Honest.antt =====
-- The handshake of node/transport.py with an honest peer.
use zki_nevod.Base.{
  ℕ, ◌+◌, String, ◌<>◌, ◌≡◌, refl, ◌∙◌, true, Option, some, [], ◌∷◌, ◌++◌, bytes_eq_refl, arith,
  eq_refl,
}
use zki_nevod.Base.Outcome.{ok}
use zki_nevod.Base.Dict
use zki_nevod.Base.Dict.{get-put}
use zki_nevod.Bytes.{Bytes}
use zki_nevod.Value.{
  int, str, bin, obj, field, empty, subscript, find_field, is_str, as_bin, or_value, truthy,
}
use zki_nevod.Value.Laws.{or_value_bin}
use zki_nevod.Value.Codec
use zki_nevod.Value.Codec.{IsWire}
use zki_nevod.Crypto.{sign}
use zki_nevod.Crypto.Library
use zki_nevod.Crypto.Laws.{IsSigning}
use zki_nevod.Protocol
use zki_nevod.Protocol.{RawPacket, Packet, raw, pack, unpack, encode_payload, decode_payload}
use zki_nevod.Protocol.Constructors.{Stamp, make_auth_challenge, make_auth_response}
use zki_nevod.Protocol.Wire.{unpack-pack_raw, unpack-pack_typed}
use zki_nevod.Auth.{
  nonce_size, is_expected, granted, make_challenge, make_response, verify_response,
}
use zki_nevod.Auth.Honest.{verify_response-make_response}
use zki_nevod.Identity.{NodeIdentity, node_id}
use zki_nevod.Host.{
  Socket, PeerConnection, sent, State, Host, next, new_stamp, draw_bytes, ws_connect, ws_send,
  ws_recv,
}
use zki_nevod.Transport.{
  add, spawn, raise_if, granted_or_raise, text_or_empty, my_id, check_answer, answer, do_auth,
  connect_to_node,
}

is_expected_self : (id : String) → is_expected (some id) id ≡ true
unfolding is_expected
is_expected_self id = rw (eq_refl id) (ground arith)

-- the peer: its identity, its stamps and its nonce
pub record Peer : Type 0 where
  pub identity : NodeIdentity
  pub asked : Stamp
  pub answered : Stamp
  pub nonce : Bytes

module _ (H : Host) (p : Peer) where
  -- what the peer sends first, and what it answers to our nonce
  abbrev pub challenge : Packet
  challenge = make_auth_challenge H.codec p.asked (node_id p.identity) "" p.nonce

  abbrev pub response : Bytes → RawPacket
  response nonce =
      make_auth_response H.codec p.answered (node_id p.identity) (str (my_id H)) (bin nonce)
        (sign H.primitives nonce p.identity.signing) p.identity.signing.public
        p.identity.encryption.public

  -- the connection to the peer
  abbrev pub peer_on : Socket → PeerConnection
  peer_on ws = record {
    ws = ws;
    peer_node_id = node_id p.identity;
    peer_signing_pubkey = p.identity.signing.public;
    peer_enc_pubkey = bin p.identity.encryption.public;
    local_node_id = my_id H;
  }

  -- The websocket takes what is sent and gives what the peer sends, from contact n on.
  pub record Answers (n : ℕ) (ws : Socket) : Type 0 where
    pub takes : (k : ℕ) (message : Bytes) → H.world.send k ws message ≡ ok tt
    pub first : H.world.recv (n + 1 + 1 + 1) ws ≡ ok (pack H.codec (raw challenge))
    pub second :
        H.world.recv (n + 1 + 1 + 1 + 1 + 1 + 1) ws
        ≡ ok (pack H.codec (response (H.world.urandom n nonce_size)))

  -- The stamps are numbers that msgpack can carry.
  pub record IsHonest : Type 0 where
    pub coded : Codec.IsLawful H.codec
    pub lawful : Library.IsLawful H.primitives
    pub matched : IsSigning H.primitives p.identity.signing
    pub asked_wire : IsWire (int p.asked.ts)
    pub answered_wire : IsWire (int p.answered.ts)

  module _ (honest : IsHonest) where
    unpack-challenge : unpack H.codec (pack H.codec (raw challenge)) ≡ ok (raw challenge)
    unfolding make_auth_challenge
    unpack-challenge =
        unpack-pack_typed H.codec honest.coded challenge honest.asked_wire (omega arith)

    decode-challenge :
        decode_payload H.codec challenge.payload ≡ ok (obj (field "nonce" (bin p.nonce) empty))
    unfolding make_auth_challenge decode_payload encode_payload find_field
    decode-challenge =
        honest.coded.unpackb-packb (obj (field "nonce" (bin p.nonce) empty)) (refl, tt, tt)

    unpack-response :
        (nonce : Bytes) → unpack H.codec (pack H.codec (response nonce)) ≡ ok (response nonce)
    unfolding make_auth_response or_value truthy
    unpack-response nonce =
        unpack-pack_raw H.codec honest.coded (response nonce)
          (record {
            type = tt;
            payload = tt;
            id = tt;
            from_addr = tt;
            to_addr = tt;
            sig = tt;
            ts = honest.answered_wire;
            v = omega arith;
          })
          (record { payload = or_value_bin _; sig = refl })

    accepts :
        (nonce : Bytes) (expected : Option String)
        → is_expected expected (node_id p.identity) ≡ true
        → verify_response H.codec H.primitives (response nonce) nonce expected
          ≡ ok (some (granted p.identity.signing.public (bin p.identity.encryption.public)))
    unfolding make_response as_bin node_id
    accepts nonce expected same =
        verify_response-make_response H.codec H.primitives honest.coded honest.lawful p.answered
          (node_id p.identity) (str (my_id H)) nonce nonce p.identity.signing p.identity.encryption
          expected honest.matched refl
        ∙ rw (bytes_eq_refl nonce, same) refl

    response-type : (nonce : Bytes) → is_str (response nonce).type Protocol.auth_response ≡ true
    unfolding make_auth_response is_str
    response-type nonce = refl

    challenge-type : is_str (raw challenge).type Protocol.auth_challenge ≡ true
    unfolding make_auth_challenge raw is_str
    challenge-type = refl

    challenge-from : challenge.from_addr ≡ node_id p.identity
    unfolding make_auth_challenge
    challenge-from = refl

    check_answer-honest :
        (ws : Socket) (expected : Option String) (nonce : Bytes) (s : State)
        → is_expected expected (node_id p.identity) ≡ true
        → check_answer H ws expected nonce (pack H.codec (response nonce)) s ≡ (ok (peer_on ws), s)
    unfolding check_answer raise_if granted_or_raise node_id granted
    check_answer-honest ws expected nonce s same =
        rw (unpack-response nonce, response-type nonce, accepts nonce expected same) refl

    module _ (ws : Socket) (expected : Option String) (s : State) (answers : Answers s.contact ws)
        (same : is_expected expected (node_id p.identity) ≡ true) where
      -- the two packets that we sent, and the state after the handshake
      abbrev our_challenge : Packet
      our_challenge =
          make_auth_challenge H.codec
            (record { id = H.world.uuid4 (s.contact + 1); ts = H.world.time (s.contact + 1) })
            (my_id H) (text_or_empty expected) (H.world.urandom s.contact nonce_size)

      abbrev our_response : RawPacket
      our_response =
          make_auth_response H.codec
            (record {
              id = H.world.uuid4 (s.contact + 1 + 1 + 1 + 1);
              ts = H.world.time (s.contact + 1 + 1 + 1 + 1);
            })
            (my_id H) (str (node_id p.identity)) (bin p.nonce)
            (sign H.primitives p.nonce H.identity.signing) H.identity.signing.public
            H.identity.encryption.public

      abbrev pub authenticated : State
      authenticated = record s {
        contact = s.contact + 1 + 1 + 1 + 1 + 1 + 1 + 1;
        trace =
            (s.trace ++ sent ws (pack H.codec (raw our_challenge)) ∷ [])
            ++ sent ws (pack H.codec our_response) ∷ [];
      }

      pub do_auth-honest : do_auth H ws expected s ≡ (ok (peer_on ws), authenticated)
      unfolding do_auth answer draw_bytes new_stamp ws_send ws_recv raise_if make_challenge
          make_response subscript find_field as_bin raw
      do_auth-honest =
          rw
            (
              answers.takes (s.contact + 1 + 1) (pack H.codec (raw our_challenge)),
              answers.first,
              unpack-challenge,
              challenge-type,
              decode-challenge,
              challenge-from,
              answers.takes (s.contact + 1 + 1 + 1 + 1 + 1) (pack H.codec our_response),
              answers.second,
              check_answer-honest ws expected (H.world.urandom s.contact nonce_size) authenticated
                  same,
            )
            refl

    -- A node that dials a peer by its identity is connected to it: if the peer and the network answer as the
    -- code of the peer does, to the nonce that was drawn, the codec and the primitives are lawful, the keys
    -- of the peer match and msgpack can carry its time stamps, then the dial raises nothing, the connection
    -- that it returns has the identity and the keys of the peer, and is registered under this identity.
    pub connect_to_node-honest :
        (address : String) (ws : Socket) (s : State)
        → H.world.connect s.contact ("ws://" <> address) ≡ ok ws
        → Answers (s.contact + 1) ws
        → ((connect_to_node H (node_id p.identity) address s).0 ≡ ok (peer_on ws))
          × (Dict.get
                (node_id p.identity)
                (connect_to_node H (node_id p.identity) address s).1.conns
              ≡ some (peer_on ws))
    unfolding connect_to_node ws_connect add spawn
    connect_to_node-honest address ws s dialled answers =
        rw
          (
            dialled,
            do_auth-honest ws (some (node_id p.identity)) (next s) answers
                (is_expected_self (node_id p.identity)),
          )
          (
            refl,
            get-put (node_id p.identity) (node_id p.identity) (peer_on ws) s.conns
                ∙ rw (eq_refl (node_id p.identity)) refl,
          )
