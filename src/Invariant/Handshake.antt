-- ===== src/Invariant/Handshake.antt =====
-- A stable invariant and the handshake of node/transport.py, with the identity of the peer.
use zki_nevod.Base.{String, ◌≡◌, not, Option, none, some, List, ◌<>◌}
use zki_nevod.Base.Outcome.{ok, value_error}
use zki_nevod.Base.Effects.{pure, lift, ◌>>=◌, ◌>>◌}
use zki_nevod.Base.Keeps.{Keeps, Any, Keeps-pure, Keeps-raise, Keeps-lift, Keeps-bind}
use zki_nevod.Base.Dict.{Dict}
use zki_nevod.Bytes.{Bytes}
use zki_nevod.Value.{as_bin, subscript}
use zki_nevod.Protocol.{RawPacket, raw, pack, unpack, decode_payload}
use zki_nevod.Auth.{AuthResult, nonce_size, make_challenge, make_response, verify_response}
use zki_nevod.Auth.Soundness.{verify_response_sound}
use zki_nevod.Bytes.{hex}
use zki_nevod.Storage.{Db}
use zki_nevod.Host.{
  Socket, PeerConnection, Event, Host, new_stamp, draw_bytes, ws_connect, ws_send, ws_recv, Event,
}
use zki_nevod.Invariant.{Permits, IsAuthentic, Stable, At}
use zki_nevod.Transport.{
  add, spawn, raise_if, granted_or_raise, text_or_empty, has_colon, my_id, check_answer, answer,
  do_auth, connect, connect_to_node,
}
use zki_nevod.Invariant.Contact.{
  new_stamp-Keeps, draw_bytes-Keeps, ws_connect-Keeps, ws_send-Keeps, ws_recv-Keeps, lift-Keeps,
  add-Keeps, spawn-Keeps, raise_if-Keeps,
}

-- an accepted peer, if any
abbrev Named : Option AuthResult → Type 0
Named none = Unit
Named (some a) = a.node_id ≡ hex a.signing_pubkey

abbrev IsNamed : AuthResult → Type 0
IsNamed a = a.node_id ≡ hex a.signing_pubkey

module _ {N : Permits} (Q : Dict PeerConnection → Db → List Event → Type 0) (S : Stable N Q)
    (H : Host) where
  granted_or_raise-Keeps :
      (o : Option AuthResult) → Named o → Keeps (At Q) IsNamed (granted_or_raise o)
  unfolding granted_or_raise
  granted_or_raise-Keeps none h = Keeps-raise value_error
  granted_or_raise-Keeps (some a) h = Keeps-pure a h

  verified-Named :
      (r : RawPacket) (nonce : Bytes) (expected : Option String) (o : Option AuthResult)
      → verify_response H.codec H.primitives r nonce expected ≡ ok o
      → Named o
  verified-Named r nonce expected none h = tt
  verified-Named r nonce expected (some a) h =
      (verify_response_sound H.codec H.primitives r nonce expected h).identity

  verify-Keeps :
      (ws : Socket) (expected : Option String) (nonce : Bytes) (second : Bytes)
      → Keeps (At Q) IsAuthentic (check_answer H ws expected nonce second)
  unfolding check_answer
  verify-Keeps ws expected nonce second =
      Keeps-bind (lift (unpack H.codec second)) _ (lift-Keeps Q S H _) λ response _.
        Keeps-bind (raise_if _ value_error) _ (raise_if-Keeps Q S H _ value_error) λ _ _.
          Keeps-bind (lift (verify_response H.codec H.primitives response nonce expected)) _
            (Keeps-lift _ (verified-Named response nonce expected))
            λ o named.
              Keeps-bind (granted_or_raise o) _ (granted_or_raise-Keeps o named)
                λ a is_named. Keeps-pure _ (record { identity = is_named })

  answer-Keeps :
      (ws : Socket) (expected : Option String) (nonce : Bytes) (their_challenge : RawPacket)
      → Keeps (At Q) IsAuthentic (answer H ws expected nonce their_challenge)
  unfolding answer
  answer-Keeps ws expected nonce their_challenge =
      Keeps-bind (raise_if _ value_error) _ (raise_if-Keeps Q S H _ value_error) λ _ _.
        Keeps-bind (lift (as_bin their_challenge.payload)) _ (lift-Keeps Q S H _) λ payload _.
          Keeps-bind (lift (decode_payload H.codec payload)) _ (lift-Keeps Q S H _) λ d _.
            Keeps-bind (lift (subscript d "nonce")) _ (lift-Keeps Q S H _) λ their_nonce _.
              Keeps-bind (new_stamp H) _ (new_stamp-Keeps Q S H) λ stamp _.
                Keeps-bind
                  (lift (
                    make_response H.codec H.primitives stamp (my_id H) their_challenge.from_addr
                      their_nonce H.identity.signing H.identity.encryption))
                  _ (lift-Keeps Q S H _)
                  λ response _.
                    Keeps-bind (ws_send H ws (pack H.codec response)) _ (ws_send-Keeps Q S H ws _)
                      λ _ _.
                        Keeps-bind (ws_recv H ws) _ (ws_recv-Keeps Q S H ws)
                          λ second _. verify-Keeps ws expected nonce second

  pub do_auth-Keeps :
      (ws : Socket) (expected : Option String) → Keeps (At Q) IsAuthentic (do_auth H ws expected)
  unfolding do_auth make_challenge
  do_auth-Keeps ws expected =
      Keeps-bind (draw_bytes H nonce_size) _ (draw_bytes-Keeps Q S H nonce_size) λ our_nonce _.
        Keeps-bind (new_stamp H) _ (new_stamp-Keeps Q S H) λ stamp _.
          Keeps-bind
            (ws_send H ws (
              pack H.codec (
                raw (make_challenge H.codec stamp (my_id H) (text_or_empty expected) our_nonce).0)))
            _ (ws_send-Keeps Q S H ws _)
            λ _ _. Keeps-bind (ws_recv H ws) _ (ws_recv-Keeps Q S H ws) λ first _.
              Keeps-bind (lift (unpack H.codec first)) _ (lift-Keeps Q S H _)
                λ their_challenge _. answer-Keeps ws expected our_nonce their_challenge

  -- the end of `connect` and of `connect_to_node`
  enter-Keeps :
      (ws : Socket) (expected : Option String)
      → Keeps (At Q) Any (do conn ← do_auth H ws expected; add conn; spawn conn; pure conn)
  enter-Keeps ws expected =
      Keeps-bind (do_auth H ws expected) _ (do_auth-Keeps ws expected) λ conn authentic.
        Keeps-bind (add conn) _ (add-Keeps Q S H conn authentic) λ _ _.
          Keeps-bind (spawn conn) _ (spawn-Keeps Q S H conn authentic) λ _ _. Keeps-pure conn tt

  pub connect-Keeps : (address : String) → Keeps (At Q) Any (connect H address)
  unfolding connect
  connect-Keeps address =
      Keeps-bind (raise_if (not (has_colon address)) value_error) _
        (raise_if-Keeps Q S H _ value_error)
        λ _ _.
          Keeps-bind (ws_connect H ("ws://" <> address)) _ (ws_connect-Keeps Q S H _)
            λ ws _. enter-Keeps ws none

  pub connect_to_node-Keeps :
      (id address : String) → Keeps (At Q) Any (connect_to_node H id address)
  unfolding connect_to_node
  connect_to_node-Keeps id address =
      Keeps-bind (ws_connect H ("ws://" <> address)) _ (ws_connect-Keeps Q S H _)
        λ ws _. enter-Keeps ws (some id)
