-- ===== src/Examples/Cells.antt =====
-- The theorems on the client of a cell at concrete clients.
use zki_nevod.Base.{◌≡◌, refl, arith, if◌then◌else◌, ltb, true, none, some, [], ◌∷◌}
use zki_nevod.Base.Outcome.{ok}
use zki_nevod.Bytes.{hex, hex_digit}
use zki_nevod.Value.{
  Value, str, bin, obj, field, empty, find_field, or_value, truthy, as_bin, is_str, subscript,
}
use zki_nevod.Value.Laws.{or_value_bin}
use zki_nevod.Auth.{granted, is_expected, make_challenge, make_response, verify_response}
use zki_nevod.Auth.Honest.{verify_response-make_response}
use zki_nevod.Protocol.Wire.{unpack-pack_raw, unpack-pack_typed}
use zki_nevod.Protocol.Signing.{sign_packet-raw}
use zki_nevod.Value.Sample.{sample as codec, sample-IsLawful as codec-IsLawful}
use zki_nevod.Crypto.{Encrypted, encrypt, kdf, sign}
use zki_nevod.Crypto.Sample.{sample as primitives, sample-IsLawful as primitives-IsLawful}
use zki_nevod.Protocol
use zki_nevod.Protocol.{Packet, RawPacket, raw, typed, pack, unpack, encode_payload, decode_payload}
use zki_nevod.Protocol.Constructors.{make_auth_response}
use zki_nevod.Identity.{cell_id}
use zki_nevod.Host.{World}
use zki_nevod.Transport.{signed}
use zki_nevod.Node.{handle_cell_register, accept_cell}
use zki_nevod.Client.{
  Client, running, idle, begin, ClientState, message_value, registration_value, my_cell_id, receive,
  call_back, connect, disconnect, open_socket, authenticate, draw, stamp_now, write, read, require,
  keys_or_raise, settle, listen, registration_packet,
}
use zki_nevod.Client.Delivery.{receive-encrypted, disconnect-connect}
use zki_nevod.Client.Registration.{dispatch-IsRecorded}
use zki_nevod.Node.Accepted.{IsRecorded}
use zki_nevod.Transport.{my_id}
use zki_nevod.Node
use zki_nevod.Examples.Data.{
  signing_one, encryption_two, host, world, anna, message, peer, db_of, state_of,
  signing_one-IsSigning, encryption_two-IsEncryption,
}

abbrev pub client : Client
client = record {
  codec = codec;
  primitives = primitives;
  world = world;
  identity = anna;
  on_message = some (λ n from text. ok tt);
  is_open = λ n ws. true;
}

abbrev pub connected : ClientState
connected = record {
  ws = some 4;
  node_id = "01";
  node_signing_pubkey = 1 ∷ [];
  task = running;
  contact = 0;
  trace = [];
}

abbrev secret : Encrypted
secret = record { ephemeral_pubkey = 3 ∷ []; nonce = 4 ∷ []; ciphertext = 5 ∷ [] }

secret-encrypts : encrypt primitives (3 ∷ []) (4 ∷ []) (5 ∷ []) (2 ∷ []) ≡ ok secret
unfolding encrypt primitives kdf
secret-encrypts = refl

abbrev carrier : Packet
carrier = record message { payload = encode_payload codec (message_value secret) }

receive-encrypted_example :
    receive client (pack codec (raw (signed host carrier))) connected
    ≡ call_back client client.on_message "02" (5 ∷ []) connected
receive-encrypted_example =
    receive-encrypted host client connected (3 ∷ []) (4 ∷ []) (5 ∷ []) carrier codec-IsLawful
      primitives-IsLawful signing_one-IsSigning encryption_two-IsEncryption refl secret-encrypts
      refl refl (omega arith) (omega arith)

abbrev registration : Packet
registration = record message {
  type = Protocol.cell_register;
  payload = encode_payload codec (registration_value client);
}

anna-peer : "01" ≡ my_cell_id client
unfolding my_cell_id cell_id hex hex_digit
anna-peer = refl

dispatch-IsRecorded_example :
    IsRecorded
      (my_id host)
      (my_cell_id client)
      (1 ∷ [])
      (2 ∷ [])
      (Node.dispatch host registration peer (state_of (db_of "01"))).1.db
dispatch-IsRecorded_example =
    dispatch-IsRecorded host client codec-IsLawful registration peer (state_of (db_of "01")) refl
      refl anna-peer refl

-- the challenge of a node, and its response to the nonce that `answering` draws
abbrev question : Value
question = obj (field "nonce" (bin (8 ∷ [])) empty)

abbrev challenge : Packet
challenge = record message {
  type = Protocol.auth_challenge;
  payload = encode_payload codec question;
}

abbrev response : RawPacket
response =
    make_auth_response codec (record { id = "r"; ts = 2 }) "01" (str "01") (bin (7 ∷ []))
      (sign primitives (7 ∷ []) signing_one) (1 ∷ []) (2 ∷ [])

-- a world in which this node answers
abbrev answering : World
answering = record world {
  connect = λ n uri. ok 4;
  recv = λ n ws. if ltb n 5 then ok (pack codec (raw challenge)) else ok (pack codec response);
}

abbrev caller : Client
caller = record client { world = answering }

abbrev unconnected : ClientState
unconnected = record connected { ws = none; node_id = ""; node_signing_pubkey = []; task = idle }

reads_question : decode_payload codec challenge.payload ≡ ok question
unfolding decode_payload encode_payload find_field
reads_question = codec-IsLawful.unpackb-packb question (refl, tt, tt)

reads_response : unpack codec (pack codec response) ≡ ok response
unfolding make_auth_response or_value truthy
reads_response =
    unpack-pack_raw codec codec-IsLawful response
      (record {
        type = tt;
        payload = tt;
        id = tt;
        from_addr = tt;
        to_addr = tt;
        sig = tt;
        ts = omega arith;
        v = omega arith;
      })
      (record { payload = or_value_bin _; sig = refl })

accepts :
    verify_response codec primitives response (7 ∷ []) none
    ≡ ok (some (granted (1 ∷ []) (bin (2 ∷ []))))
unfolding make_response is_expected as_bin
accepts =
    verify_response-make_response codec primitives codec-IsLawful primitives-IsLawful
      (record { id = "r"; ts = 2 }) "01" (str "01") (7 ∷ []) (7 ∷ []) signing_one encryption_two
      none signing_one-IsSigning refl

response-type : is_str response.type Protocol.auth_response ≡ true
unfolding make_auth_response is_str
response-type = refl

caller-connects : (connect caller "localhost:7001" none unconnected).0 ≡ ok tt
unfolding connect open_socket authenticate draw stamp_now write read require keys_or_raise settle
    listen make_challenge raw is_str as_bin subscript find_field make_response
caller-connects =
    rw (unpack-pack_typed codec codec-IsLawful challenge (omega arith) (omega arith)) (
      rw reads_question (
        rw reads_response (
          rw response-type (
            rw accepts (
              rw
                (sign_packet-raw codec primitives
                  (registration_packet caller (record { id = "id"; ts = 1008 })
                    (hex (granted (1 ∷ []) (bin (2 ∷ []))).signing_pubkey))
                  signing_one)
                refl)))))

disconnect-connect_example :
    disconnect caller
      (begin caller
        (connect caller "localhost:7001" none unconnected).1.task
        (connect caller "localhost:7001" none unconnected).1).1
    ≡ (
      ok tt,
      record (connect caller "localhost:7001" none unconnected).1 { ws = none; task = idle },
    )
disconnect-connect_example =
    disconnect-connect caller "localhost:7001" none unconnected caller-connects
