-- ===== src/Client/Delivery.antt =====
-- What node/client.py makes of a message from another cell, and the end of its connection.
use zki_nevod.Base.{
  String, ◌<>◌, ◌≡◌, refl, ◌∙◌, sym, subst, ap, true, Option, none, List, [], ◌∷◌, str_eq,
}
use zki_nevod.Base.Outcome.{Result, ok, err}
use zki_nevod.Base.Effects.{Exec, lift, continue, ◌>>=◌}
use zki_nevod.Bytes.{Bytes}
use zki_nevod.Value
use zki_nevod.Value.{Value, str, bin, bool, subscript, get_value, find_field, is_str, truthy}
use zki_nevod.Value.Codec
use zki_nevod.Value.Codec.{Codec, IsWire}
use zki_nevod.Crypto
use zki_nevod.Crypto.{Encrypted, encrypt, decrypt}
use zki_nevod.Crypto.Library
use zki_nevod.Crypto.Laws.{IsSigning, IsEncryption}
use zki_nevod.Crypto.Laws
use zki_nevod.Protocol
use zki_nevod.Protocol.{Packet, raw, pack, unpack, encode_payload, decode_payload, verify_packet}
use zki_nevod.Protocol.Wire.{typed-raw, unpack-pack_typed}
use zki_nevod.Host.{Host}
use zki_nevod.Transport.{signed}
use zki_nevod.Transport.Sending.{signed-verifies}
use zki_nevod.Node.{to_bytes}
use zki_nevod.Client.{
  Client, idle, begin, ClientState, bytes_entry, message_value, open_socket, authenticate, settle,
  stamp_now, write, listen, connect, cancel, forget, shut_socket, disconnect, plaintext_of,
  call_back, handle_msg, dispatch, receive, after, recv_loop,
}

message_value-IsWire : (e : Encrypted) → IsWire (message_value e)
unfolding message_value find_field
message_value-IsWire e = (refl, tt, (refl, tt, (refl, tt, tt)))

module _ (K : Client) where
  plaintext_of-encrypt :
      Value.Codec.IsLawful K.codec
      → Crypto.Library.IsLawful K.primitives
      → IsEncryption K.primitives K.identity.encryption
      → (ephemeral nonce text : Bytes) (p : Packet) {e : Encrypted}
      → encrypt K.primitives ephemeral nonce text K.identity.encryption.public ≡ ok e
      → p.payload ≡ encode_payload K.codec (message_value e)
      → plaintext_of K p ≡ ok text
  unfolding plaintext_of bytes_entry decode_payload encode_payload message_value subscript to_bytes
      find_field
  plaintext_of-encrypt CL L matched ephemeral nonce text p {e} encrypted carried = rw carried (
      rw (CL.unpackb-packb (message_value e) (message_value-IsWire e)) (
        Laws.decrypt-encrypt K.primitives L K.identity.encryption ephemeral nonce text matched
          encrypted))

  -- A message of the type MSG whose payload was encrypted to the key of the cell.
  dispatch-encrypted :
      Value.Codec.IsLawful K.codec
      → Crypto.Library.IsLawful K.primitives
      → IsEncryption K.primitives K.identity.encryption
      → (ephemeral nonce text : Bytes) (p : Packet) (s : ClientState) {e : Encrypted}
      → encrypt K.primitives ephemeral nonce text K.identity.encryption.public ≡ ok e
      → p.type ≡ Protocol.msg
      → p.payload ≡ encode_payload K.codec (message_value e)
      → dispatch K p s ≡ call_back K K.on_message p.from_addr text s
  unfolding dispatch handle_msg
  dispatch-encrypted CL L matched ephemeral nonce text p s encrypted type carried =
      rw (ap (λ t. str_eq t Protocol.msg) type)
        (rw (plaintext_of-encrypt CL L matched ephemeral nonce text p encrypted carried) refl)

-- A message that one client encrypted to the key of a cell, and that a node signed and passed on to the
-- client of this cell, reaches the callback of the client with the text that was encrypted, under the
-- sender that the packet names, if both clients and the node use one lawful codec and lawful primitives,
-- the key pairs match, the client knows the public key of the node, and msgpack can carry the time stamp
-- and the version.
pub receive-encrypted :
    (H : Host) (K : Client) (s : ClientState) (ephemeral nonce text : Bytes) (p : Packet)
    {e : Encrypted}
    → Value.Codec.IsLawful H.codec
    → Crypto.Library.IsLawful H.primitives
    → IsSigning H.primitives H.identity.signing
    → IsEncryption H.primitives K.identity.encryption
    → s.node_signing_pubkey ≡ H.identity.signing.public
    → encrypt H.primitives ephemeral nonce text K.identity.encryption.public ≡ ok e
    → p.type ≡ Protocol.msg
    → p.payload ≡ encode_payload H.codec (message_value e)
    → IsWire p.ts
    → IsWire p.v
    → receive
        (record K { codec = H.codec; primitives = H.primitives })
        (pack H.codec (raw (signed H p)))
        s
      ≡ call_back
          (record K { codec = H.codec; primitives = H.primitives })
          K.on_message
          p.from_addr
          text
          s
unfolding receive
receive-encrypted H K s ephemeral nonce text p {e} CL L k matched same encrypted type carried ts v =
    let R : Client = record K { codec = H.codec; primitives = H.primitives } in
    let verifies : verify_packet H.codec H.primitives (raw (signed H p)) s.node_signing_pubkey
        ≡ ok true =
      subst (λ key. verify_packet H.codec H.primitives (raw (signed H p)) key ≡ ok true) (sym same)
        (signed-verifies H L k p) in
    rw (unpack-pack_typed H.codec CL (signed H p) (unfold signed in ts) (unfold signed in v)) (
      rw verifies (
        rw (typed-raw (signed H p)) (
          dispatch-encrypted R CL L matched ephemeral nonce text (signed H p) s encrypted
            (unfold signed in type) (unfold signed in carried)
          ∙ (unfold signed in refl))))

-- no connection and no task, and nothing raised
abbrev pub HasEnded : Result (Unit {0}) × ClientState → Type 0
HasEnded (r, t) = (r ≡ ok tt) × (t.ws ≡ none) × (t.task ≡ idle)

after-HasEnded :
    (K : Client) (r : Result (Unit {0})) (rest : Exec ClientState (Unit {0})) (s : ClientState)
    → ((t : ClientState) → HasEnded (rest t))
    → HasEnded (after K r rest s)
unfolding after forget
after-HasEnded K (ok a) rest s ends = ends s
after-HasEnded K (err e) rest s ends = (refl, refl, refl)

-- The receive loop of a client, whatever arrives and whatever the callback raises, raises nothing, and
-- when it ends the client has no connection and no task.
pub recv_loop-HasEnded :
    (K : Client) (messages : List Bytes) (s : ClientState) → HasEnded (recv_loop K messages s)
unfolding recv_loop forget
recv_loop-HasEnded K [] s = (refl, refl, refl)
recv_loop-HasEnded K (message ∷ messages) s =
    after-HasEnded K (receive K message s).0 (recv_loop K messages) (receive K message s).1
      (recv_loop-HasEnded K messages)

-- A coroutine that returns has `last` as its last step.
abbrev EndsIn : Exec ClientState (Unit {0}) → Exec ClientState (Unit {0}) → Type 0
EndsIn last m = (s : ClientState) → (m s).0 ≡ ok tt → (t : ClientState) × (m s ≡ last t)

continue-EndsIn :
    {A : Type 0} (last : Exec ClientState (Unit {0})) (f : A → Exec ClientState (Unit {0}))
    (x : Result A × ClientState)
    → ((a : A) → EndsIn last (f a))
    → (continue x.0 f x.1).0 ≡ ok tt
    → (t : ClientState) × (continue x.0 f x.1 ≡ last t)
continue-EndsIn last f (ok a, t) rest h = rest a t h
continue-EndsIn last f (err e, t) rest h = absurd (cc h)

bind-EndsIn :
    {A : Type 0} (last : Exec ClientState (Unit {0})) (m : Exec ClientState A)
    (f : A → Exec ClientState (Unit {0}))
    → ((a : A) → EndsIn last (f a))
    → EndsIn last (m >>= f)
bind-EndsIn last m f rest s h = continue-EndsIn last f (m s) rest h

module _ (K : Client) (address : String) (expected : Option String) (s : ClientState) where
  connect-EndsIn : EndsIn (listen K) (connect K address expected)
  unfolding connect
  connect-EndsIn = bind-EndsIn (listen K) (open_socket K ("ws://" <> address)) _ λ ws.
      bind-EndsIn (listen K) (authenticate K ws expected) _ λ keys.
        bind-EndsIn (listen K) (settle K ws keys.0) _ λ _.
          bind-EndsIn (listen K) (stamp_now K) _ λ stamp.
            bind-EndsIn (listen K) (lift _) _
              λ reg. bind-EndsIn (listen K) (write K ws (pack K.codec reg)) _ λ _. λ t h. (t, refl)

  disconnect-listen :
      (x : Result (Unit {0}) × ClientState) (t : ClientState)
      → x ≡ listen K t
      → disconnect K (begin K x.1.task x.1).1 ≡ (ok tt, record x.1 { ws = none; task = idle })
  unfolding disconnect cancel forget shut_socket listen begin
  disconnect-listen x t h =
      subst
        (λ y.
          disconnect K (begin K y.1.task y.1).1 ≡ (ok tt, record y.1 { ws = none; task = idle }))
        (sym h) refl

  -- After a connect that returned, once the receive loop has begun, a disconnect forgets the websocket
  -- and the loop, and does nothing else: in particular it does not close the websocket.
  pub disconnect-connect :
      (connect K address expected s).0 ≡ ok tt
      → disconnect K
          (begin K (connect K address expected s).1.task (connect K address expected s).1).1
        ≡ (ok tt, record (connect K address expected s).1 { ws = none; task = idle })
  disconnect-connect h =
      let (t, same) = connect-EndsIn s h in disconnect-listen (connect K address expected s) t same
