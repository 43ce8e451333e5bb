-- ===== src/Examples/Network.antt =====
-- The theorems on several parties at concrete ones.
use zki_nevod.Base.{◌≡◌, refl, arith, true, none, some, [], ◌∷◌, ◌<>◌, if◌then◌else◌, ◌==◌, select}
use zki_nevod.Base.Outcome.{ok}
use zki_nevod.Base.Dict
use zki_nevod.Bytes.{Bytes, hex, hex_digit}
use zki_nevod.Value.{str}
use zki_nevod.Value.Sample.{sample-IsLawful as codec-IsLawful}
use zki_nevod.Crypto.{Encrypted, encrypt, kdf}
use zki_nevod.Crypto.Sample.{sample as primitives, sample-IsLawful as primitives-IsLawful}
use zki_nevod.Protocol.{raw, pack}
use zki_nevod.Identity.{node_id, cell_id}
use zki_nevod.Storage
use zki_nevod.Storage.{BufferedMessage, Db}
use zki_nevod.Storage.Table.{find}
use zki_nevod.Host.{World, PeerConnection, sent, State, Host, note, next}
use zki_nevod.Transport
use zki_nevod.Transport.{connect_to_node}
use zki_nevod.Transport.Honest.{Peer, challenge, response, peer_on, connect_to_node-honest}
use zki_nevod.Router.{serialize_packet, parse_addr, address_of, split_at, cons_part}
use zki_nevod.Router.FlushAll.{deliveries}
use zki_nevod.Node
use zki_nevod.Node.{Registration, accept_cell}
use zki_nevod.Node.Acceptance.{accept_cell-deliveries}
use zki_nevod.Client
use zki_nevod.Client.{Client, ClientState, wrote, my_cell_id, send, call_back}
use zki_nevod.Network.{joined}
use zki_nevod.Network.Delivery.{IsSending, IsRelaying, AreMatched, send-arrives}
use zki_nevod.Examples.Data.{
  host, world, message, peer, db_of, state_of, signing_one-IsSigning, encryption_two-IsEncryption,
}
use zki_nevod.Examples.Cells.{client, connected}

-- a stored message for cell "c", which registers
abbrev stored : BufferedMessage
stored = record {
  message_id = "m1";
  to_cell = "c";
  to_node = "01";
  payload = serialize_packet host.codec message;
  created_at = 9;
  expires_at = 9999;
}

abbrev waiting : State
waiting = record (state_of (record (db_of "02") { message_buffer = stored ∷ [] })) {
  conns = ("c", peer) ∷ [];
}

abbrev registration : Registration
registration = record { cell_id = str "c"; signing_pub = 9 ∷ []; enc_pub = []; is_home = true }

fetched : Storage.get_buffered 1002 "c" waiting.db ≡ stored ∷ []
unfolding Storage.get_buffered select
fetched = refl

accept_cell-deliveries_example :
    ((accept_cell host "c" registration waiting).0 ≡ ok tt)
    × ((accept_cell host "c" registration waiting).1.trace
        ≡ deliveries host "c" peer (message ∷ []))
    × (Storage.get_buffered 1002 "c" (accept_cell host "c" registration waiting).1.db ≡ [])
unfolding Storage.get_buffered select parse_addr address_of split_at cons_part Dict.get
accept_cell-deliveries_example =
    accept_cell-deliveries host "c" peer registration waiting (message ∷ []) codec-IsLawful
      (record { to_node = "01"; stored = refl; addressed = refl; stamped = omega arith }, tt) refl
      refl (λ n m. refl)

-- a peer that answers a dial
abbrev bert : Peer
bert = record {
  identity = host.identity;
  asked = record { id = "a"; ts = 1 };
  answered = record { id = "b"; ts = 2 };
  nonce = 8 ∷ [];
}

abbrev answered : World
answered = record world {
  connect = λ n uri. ok 4;
  recv = λ n ws.
      if n == 4
      then ok (pack host.codec (raw (challenge host bert)))
      else ok (pack host.codec (response host bert (7 ∷ [])));
}

abbrev dialling : Host
dialling = record host { world = answered }

connect_to_node-honest_example :
    ((connect_to_node dialling (node_id bert.identity) "localhost:7002" (state_of (db_of "01"))).0
      ≡ ok (peer_on dialling bert 4))
    × (Dict.get
          (node_id bert.identity)
          (connect_to_node dialling
            (node_id bert.identity)
            "localhost:7002"
            (state_of (db_of "01"))).1.conns
        ≡ some (peer_on dialling bert 4))
connect_to_node-honest_example =
    connect_to_node-honest dialling bert
      (record {
        coded = codec-IsLawful;
        lawful = primitives-IsLawful;
        matched = signing_one-IsSigning;
        asked_wire = omega arith;
        answered_wire = omega arith;
      })
      "localhost:7002" 4 (state_of (db_of "01")) refl
      (record { takes = λ k m. refl; first = refl; second = refl })

-- a second cell, and the node where both are connected
abbrev pub boris : Client
boris = record client {
  identity = record {
    signing = record { private = 3 ∷ []; public = 3 ∷ [] };
    encryption = record { private = 2 ∷ []; public = 2 ∷ [] };
    name = "boris";
  };
}

abbrev pub to_boris : PeerConnection
to_boris = record peer { ws = 6; peer_node_id = "03"; peer_signing_pubkey = 3 ∷ [] }

abbrev meeting : State
meeting =
    record (state_of (record (db_of "01") {
      presence_table =
          record { cell_id = "03"; home_node_id = "01"; visiting_node_id = none; updated_at = 5 }
          ∷ [];
    })) { conns = ("01", peer) ∷ ("03", to_boris) ∷ [] }

abbrev pub secret : Encrypted
secret = record { ephemeral_pubkey = 7 ∷ []; nonce = 7 ∷ []; ciphertext = 5 ∷ [] }

pub sending : IsSending host client boris connected (5 ∷ []) secret 4
unfolding encrypt primitives kdf
sending = record { connected = refl; is_open = refl; encrypted = refl; takes = λ n m. refl }

relaying : IsRelaying host client boris connected (5 ∷ []) secret peer to_boris meeting
unfolding my_cell_id cell_id hex hex_digit Dict.get Storage.get_presence find node_id
relaying = record {
  at = 5;
  sender_key = refl;
  connected = refl;
  announced = refl;
  takes = λ m. refl;
}

pub matched : AreMatched host client boris connected (5 ∷ []) secret
unfolding my_cell_id cell_id hex hex_digit primitives
matched = record {
  coded = codec-IsLawful;
  lawful = primitives-IsLawful;
  sender = signing_one-IsSigning;
  node = signing_one-IsSigning;
  recipient = encryption_two-IsEncryption;
  cell_key = (omega arith, tt);
  named = refl;
  stamped = omega arith;
}

send-arrives_example :
    (message : Bytes) × (relayed : Bytes) × ((send
        (joined host client)
        (my_cell_id boris)
        "01"
        (2 ∷ [])
        (5 ∷ [])
        connected).1.trace
      ≡ wrote 4 message ∷ [])
    × (Transport.receive host (Node.dispatch host) peer message meeting
        ≡ (ok tt, note (sent 6 relayed) (next meeting)))
    × (Client.receive (joined host boris) relayed connected
        ≡ call_back
            (joined host boris)
            boris.on_message
            (my_cell_id client <> ("@" <> "01"))
            (5 ∷ [])
            connected)
send-arrives_example =
    send-arrives host client boris connected (5 ∷ []) secret 4 "01" peer to_boris meeting connected
      sending relaying matched refl
