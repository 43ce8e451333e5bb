-- ===== src/Examples/Forwarding.antt =====
-- A message between cells at two concrete nodes.
use zki_nevod.Base.{◌≡◌, ◌<>◌, refl, none, [], ◌∷◌}
use zki_nevod.Base.Outcome.{ok}
use zki_nevod.Base.Dict
use zki_nevod.Bytes.{Bytes, hex, hex_digit}
use zki_nevod.Crypto.Sample.{sample as primitives}
use zki_nevod.Crypto.Laws.{IsSigning}
use zki_nevod.Identity.{NodeIdentity, node_id, cell_id}
use zki_nevod.Storage
use zki_nevod.Storage.Table.{find}
use zki_nevod.Host.{PeerConnection, sent, State, note, next}
use zki_nevod.Transport
use zki_nevod.Router.Forwarding.{IsForwarding}
use zki_nevod.Node
use zki_nevod.Client
use zki_nevod.Client.{ClientState, wrote, my_cell_id, send, call_back}
use zki_nevod.Network.{joined}
use zki_nevod.Network.Forwarding.{IsArriving, forward-arrives}
use zki_nevod.Examples.Data.{host, world, alice, peer, db_of, state_of}
use zki_nevod.Examples.Cells.{client, connected}
use zki_nevod.Examples.Network.{boris, secret, to_boris, sending, matched}

-- the node where boris is
abbrev bella : NodeIdentity
bella = record alice { signing = record { private = 4 ∷ []; public = 4 ∷ [] } }

bella-IsSigning : IsSigning primitives bella.signing
unfolding primitives
bella-IsSigning = record { matches = refl }

abbrev to_bella : PeerConnection
to_bella = record peer { ws = 5; peer_node_id = "04"; peer_signing_pubkey = 4 ∷ [] }

-- the first node, which knows the node of boris as his home, and the second
abbrev here : State
here =
    record (state_of (record (db_of "01") {
      presence_table =
          record { cell_id = "03"; home_node_id = "04"; visiting_node_id = none; updated_at = 5 }
          ∷ [];
    })) { conns = ("01", peer) ∷ ("04", to_bella) ∷ [] }

abbrev there : State
there = record here { conns = ("01", peer) ∷ ("03", to_boris) ∷ [] }

abbrev at_bella : ClientState
at_bella = record connected { node_id = "04"; node_signing_pubkey = 4 ∷ [] }

forwarding : IsForwarding host (my_cell_id boris) "04" to_bella here
unfolding my_cell_id cell_id hex hex_digit Dict.get Storage.get_presence find node_id
forwarding = record {
  presence = record {
    cell_id = "03";
    home_node_id = "04";
    visiting_node_id = none;
    updated_at = 5;
  };
  announced = refl;
  leads = refl;
  away = refl;
  connected = refl;
  takes = λ m. refl;
}

named : node_id bella ≡ "04"
unfolding node_id hex hex_digit
named = refl

arriving :
    IsArriving host world bella client boris connected (5 ∷ []) secret "04" peer to_boris there
unfolding my_cell_id cell_id hex hex_digit Dict.get Storage.get_presence find node_id
arriving = record {
  at = 5;
  sender_key = refl;
  connected = refl;
  announced = refl;
  takes = λ m. refl;
}

forward-arrives_example :
    (first : Bytes) × (between : Bytes) × (last : Bytes) × ((send
        (joined host client)
        (my_cell_id boris)
        "04"
        (2 ∷ [])
        (5 ∷ [])
        connected).1.trace
      ≡ wrote 4 first ∷ [])
    × (Transport.receive host (Node.dispatch host) peer first here
        ≡ (ok tt, note (sent 5 between) (next here)))
    × (Transport.receive
          (record host { identity = bella })
          (Node.dispatch (record host { identity = bella }))
          peer
          between
          there
        ≡ (ok tt, note (sent 6 last) (next there)))
    × (Client.receive (joined host boris) last at_bella
        ≡ call_back
            (joined host boris)
            boris.on_message
            (my_cell_id client <> ("@" <> "01"))
            (5 ∷ [])
            at_bella)
unfolding node_id hex hex_digit
forward-arrives_example =
    forward-arrives host world bella client boris connected (5 ∷ []) secret "04" 4 peer to_bella
      peer to_boris here there at_bella sending matched refl forwarding arriving bella-IsSigning
      refl
