-- ===== src/Client/Registration.antt =====
-- The registration that node/client.py sends, as node/node.py handles it.
use zki_nevod.Base.{◌≡◌, refl, true, bytes_eq_refl, eq_refl}
use zki_nevod.Base.Outcome.{ok}
use zki_nevod.Value
use zki_nevod.Value.{Value, str, bin, bool, subscript, get_value, find_field, is_str, truthy}
use zki_nevod.Value.Codec
use zki_nevod.Value.Codec.{IsWire}
use zki_nevod.Protocol.{Packet, encode_payload, decode_payload}
use zki_nevod.Host.{PeerConnection, State, Host}
use zki_nevod.Node.{
  Registration, to_bytes, registration_of, accept_cell, check_registration, handle_cell_register,
}
use zki_nevod.Protocol
use zki_nevod.Node
use zki_nevod.Node.Accepted.{IsRecorded, accept_cell-IsRecorded}
use zki_nevod.Transport.{my_id}
use zki_nevod.Client.{Client, my_cell_id, registration_value}

-- what a client asks for
abbrev pub registration_by : Client → Registration
registration_by K = record {
  cell_id = str (my_cell_id K);
  signing_pub = K.identity.signing.public;
  enc_pub = K.identity.encryption.public;
  is_home = true;
}

module _ (H : Host) (K : Client) (lawful : Value.Codec.IsLawful H.codec) where
  registration_value-IsWire : IsWire (registration_value K)
  unfolding registration_value find_field
  registration_value-IsWire = (refl, tt, (refl, tt, (refl, tt, (refl, tt, tt))))

  registration_of-registration_value :
      (p : Packet)
      → p.payload ≡ encode_payload H.codec (registration_value K)
      → registration_of H p ≡ ok (registration_by K)
  unfolding registration_of decode_payload encode_payload registration_value subscript get_value
      to_bytes find_field truthy
  registration_of-registration_value p carried =
      rw carried (rw (lawful.unpackb-packb (registration_value K) registration_value-IsWire) refl)

  handle_cell_register-registration :
      (p : Packet) (conn : PeerConnection) (s : State)
      → p.payload ≡ encode_payload H.codec (registration_value K)
      → conn.peer_node_id ≡ my_cell_id K
      → conn.peer_signing_pubkey ≡ K.identity.signing.public
      → handle_cell_register H p conn s ≡ accept_cell H (my_cell_id K) (registration_by K) s
  unfolding handle_cell_register check_registration is_str
  handle_cell_register-registration p conn s carried named keyed =
      rw
        (
          registration_of-registration_value p carried,
          named,
          keyed,
          bytes_eq_refl K.identity.signing.public,
          eq_refl (my_cell_id K),
        )
        refl

  dispatch-cell_register :
      (p : Packet) (conn : PeerConnection) (s : State)
      → p.type ≡ Protocol.cell_register
      → Node.dispatch H p conn s ≡ handle_cell_register H p conn s
  unfolding Node.dispatch
  dispatch-cell_register p conn s type = rw type refl

  -- With a lawful codec, once a node has dispatched the registration of a client on a connection whose peer
  -- has the identity and the key of the cell, its tables have a row of the cell with both public keys of
  -- the client's identity, and a presence of the cell whose home is this node and which visits no other,
  -- whatever was stored for the cell and however the delivery of it ends.
  pub dispatch-IsRecorded :
      (p : Packet) (conn : PeerConnection) (s : State)
      → p.type ≡ Protocol.cell_register
      → p.payload ≡ encode_payload H.codec (registration_value K)
      → conn.peer_node_id ≡ my_cell_id K
      → conn.peer_signing_pubkey ≡ K.identity.signing.public
      → IsRecorded
          (my_id H)
          (my_cell_id K)
          K.identity.signing.public
          K.identity.encryption.public
          (Node.dispatch H p conn s).1.db
  dispatch-IsRecorded p conn s type carried named keyed =
      rw
        (
          dispatch-cell_register p conn s type,
          handle_cell_register-registration p conn s carried named keyed,
        )
        (accept_cell-IsRecorded H (my_cell_id K) conn (registration_by K) s)
