-- ===== src/Invariant/Node.antt =====
-- A stable invariant and the handlers and operations of node/node.py.
use zki_nevod.Base.{
  ℕ, String, ◌≡◌, sym, Bool, true, false, not, Option, none, some, List, str_eq, bytes_eq,
  bytes_eq_sound, subst, arith,
}
use zki_nevod.Base.Outcome.{value_error}
use zki_nevod.Base.Effects.{lift}
use zki_nevod.Base.Keeps.{Keeps, Any, Keeps-pure, Keeps-raise, Keeps-if, Keeps-bind, Keeps-attempt}
use zki_nevod.Base.Dict.{Dict}
use zki_nevod.Bytes.{Bytes}
use zki_nevod.Value.{is_str, as_str}
use zki_nevod.Crypto.{encrypt}
use zki_nevod.Protocol
use zki_nevod.Protocol.{Packet, raw}
use zki_nevod.Storage
use zki_nevod.Storage.{Db, CellEntry, new_node_entry}
use zki_nevod.Storage.Keys.{
  apply, upsert_node_at, remove_node_of, register_cell_at, update_presence_at,
}
use zki_nevod.Host.{
  PeerConnection, Event, Host, read_clock, new_stamp, draw_bytes, change_db, query,
}
use zki_nevod.Invariant.{Permits, Stable, At}
use zki_nevod.Invariant.Contact.{
  lift-Keeps, remove-Keeps, new_stamp-Keeps, draw_bytes-Keeps, read_clock-Keeps, query-Keeps,
  write-Keeps,
}
use zki_nevod.Invariant.Handshake.{connect-Keeps}
use zki_nevod.Invariant.Transport.{send_via-Keeps}
use zki_nevod.Invariant.Router.{route-Keeps, flush_buffer-Keeps}
use zki_nevod.Invariant.Gossip.{
  new_node_entry-IsSettled, handle_gossip-Keeps, handle_ping-Keeps, handle_pong-Keeps,
}
use zki_nevod.Transport.{my_id, connect}
use zki_nevod.Router.{split_at}
use zki_nevod.Node.{
  Registration, known_or_raise, cell_of_address, payload_entry, handle_node_remove,
  handle_node_leaving, handle_presence_query, registration_of, accept_cell, check_registration,
  handle_cell_register, dispatch, join, register_self, send_message, register_cell_locally,
}

not-eq-false : {b : Bool} → not b ≡ false → b ≡ true
not-eq-false {b} h = ground arith

module _ {N : Permits} (Q : Dict PeerConnection → Db → List Event → Type 0) (S : Stable N Q)
    (H : Host) (here : N.me ≡ my_id H) where
  handle_node_remove-Keeps : (pkt : Packet) → Keeps (At Q) Any (handle_node_remove H pkt)
  unfolding handle_node_remove apply
  handle_node_remove-Keeps pkt = Keeps-attempt (payload_entry H pkt "node_id") tt _ tt λ v _.
      Keeps-bind (lift (as_str v)) _ (lift-Keeps Q S H _)
        (λ node_id _. write-Keeps Q S H (remove_node_of node_id) tt)

  handle_node_leaving-Keeps : (pkt : Packet) → Keeps (At Q) Any (handle_node_leaving H pkt)
  unfolding handle_node_leaving apply
  handle_node_leaving-Keeps pkt =
      Keeps-bind (change_db (Storage.remove_node pkt.from_addr)) _
        (write-Keeps Q S H (remove_node_of pkt.from_addr) tt)
        (λ _ _. remove-Keeps Q S H pkt.from_addr)

  handle_presence_query-Keeps :
      (pkt : Packet) (conn : PeerConnection) → Keeps (At Q) Any (handle_presence_query H pkt conn)
  unfolding handle_presence_query
  handle_presence_query-Keeps pkt conn =
      Keeps-attempt (payload_entry H pkt "cell_id") tt _ tt λ v _.
        Keeps-bind (lift (as_str v)) _ (lift-Keeps Q S H _) λ cell_id _.
          Keeps-bind (query (Storage.get_presence cell_id)) _ (query-Keeps Q S H _) λ presence _.
            Keeps-bind (new_stamp H) _ (new_stamp-Keeps Q S H)
              (λ stamp _. send_via-Keeps Q S H conn _)

  accept_cell-Keeps :
      (cell_id : String) (r : Registration)
      → N.names cell_id r.signing_pub
      → Keeps (At Q) Any (accept_cell H cell_id r)
  unfolding accept_cell apply
  accept_cell-Keeps cell_id r named = Keeps-bind (read_clock H) _ (read_clock-Keeps Q S H) λ now _.
      Keeps-bind (change_db (Storage.register_cell now cell_id r.signing_pub r.enc_pub r.is_home)) _
        (write-Keeps Q S H (register_cell_at now cell_id r.signing_pub r.enc_pub r.is_home) named)
        λ _ _. Keeps-bind (read_clock H) _ (read_clock-Keeps Q S H) λ now' _.
          Keeps-bind (change_db (Storage.update_presence now' cell_id (my_id H) none)) _
            (write-Keeps Q S H (update_presence_at now' cell_id (my_id H) none) (sym here))
            (λ _ _. flush_buffer-Keeps Q S H here cell_id)

  check_registration-Keeps :
      (r : Registration) (conn : PeerConnection)
      → N.names conn.peer_node_id conn.peer_signing_pubkey
      → Keeps (At Q) Any (check_registration H r conn)
  unfolding check_registration
  check_registration-Keeps r conn named =
      Keeps-if (not (bytes_eq r.signing_pub conn.peer_signing_pubkey)) _ _ (λ _. Keeps-pure tt tt)
        λ same.
          Keeps-if (not (is_str r.cell_id conn.peer_node_id)) _ _ (λ _. Keeps-pure tt tt)
            λ _. accept_cell-Keeps conn.peer_node_id r (
              subst (N.names conn.peer_node_id) (sym (bytes_eq_sound _ _ (not-eq-false same)))
                named)

  handle_cell_register-Keeps :
      (pkt : Packet) (conn : PeerConnection)
      → N.names conn.peer_node_id conn.peer_signing_pubkey
      → Keeps (At Q) Any (handle_cell_register H pkt conn)
  unfolding handle_cell_register
  handle_cell_register-Keeps pkt conn a =
      Keeps-attempt (registration_of H pkt) tt _ tt (λ r _. check_registration-Keeps r conn a)

  pub dispatch-Keeps :
      (pkt : Packet) (conn : PeerConnection)
      → N.names conn.peer_node_id conn.peer_signing_pubkey
      → Keeps (At Q) Any (dispatch H pkt conn)
  unfolding dispatch
  dispatch-Keeps pkt conn a =
      Keeps-if (str_eq pkt.type Protocol.ping) _ _ (λ _. handle_ping-Keeps Q S H pkt conn)
        λ _.
          Keeps-if (str_eq pkt.type Protocol.pong) _ _ (λ _. handle_pong-Keeps Q S H pkt)
            λ _.
              Keeps-if (str_eq pkt.type Protocol.gossip) _ _ (λ _. handle_gossip-Keeps Q S H pkt)
                λ _.
                  Keeps-if (str_eq pkt.type Protocol.msg) _ _ (λ _. route-Keeps Q S H here pkt)
                    λ _.
                      Keeps-if (str_eq pkt.type Protocol.node_remove) _ _
                        (λ _. handle_node_remove-Keeps pkt)
                        λ _.
                          Keeps-if (str_eq pkt.type Protocol.node_leaving) _ _
                            (λ _. handle_node_leaving-Keeps pkt)
                            λ _.
                              Keeps-if (str_eq pkt.type Protocol.presence_query) _ _
                                (λ _. handle_presence_query-Keeps pkt conn)
                                λ _.
                                  Keeps-if (str_eq pkt.type Protocol.presence_response) _ _
                                    (λ _. Keeps-pure tt tt)
                                    λ _.
                                      Keeps-if (str_eq pkt.type Protocol.cell_register) _ _
                                        (λ _. handle_cell_register-Keeps pkt conn a)
                                        (λ _. Keeps-pure tt tt)

  upsert-Keeps :
      (now seen added : ℕ) (id address type access : String)
      → Keeps
          (At Q)
          Any
          (change_db (Storage.upsert_node now (new_node_entry id address type access seen added)))
  unfolding apply
  upsert-Keeps now seen added id address type access =
      write-Keeps Q S H (upsert_node_at now (new_node_entry id address type access seen added))
        (new_node_entry-IsSettled id address type access seen added)

  pub join-Keeps : (address : String) → Keeps (At Q) Any (join H address)
  unfolding join
  join-Keeps address = Keeps-bind (connect H address) _ (connect-Keeps Q S H address) λ conn _.
      Keeps-bind (read_clock H) _ (read_clock-Keeps Q S H) λ seen _.
        Keeps-bind (read_clock H) _ (read_clock-Keeps Q S H) λ added _.
          Keeps-bind (read_clock H) _ (read_clock-Keeps Q S H)
            (λ now _. upsert-Keeps now seen added conn.peer_node_id address "permanent" "open")

  pub register_self-Keeps :
      (address access : String) → Keeps (At Q) Any (register_self H address access)
  unfolding register_self
  register_self-Keeps address access =
      Keeps-bind (read_clock H) _ (read_clock-Keeps Q S H) λ seen _.
        Keeps-bind (read_clock H) _ (read_clock-Keeps Q S H) λ added _.
          Keeps-bind (read_clock H) _ (read_clock-Keeps Q S H)
            (λ now _. upsert-Keeps now seen added (my_id H) address "permanent" access)

  known_or_raise-Keeps : (found : Option CellEntry) → Keeps (At Q) Any (known_or_raise found)
  unfolding known_or_raise
  known_or_raise-Keeps none = Keeps-raise value_error
  known_or_raise-Keeps (some cell) = Keeps-pure cell tt

  pub send_message-Keeps :
      (to : String) (plaintext : Bytes) (from : Option String)
      → Keeps (At Q) Any (send_message H to plaintext from)
  unfolding send_message
  send_message-Keeps to plaintext from =
      Keeps-bind (lift (cell_of_address (split_at to))) _ (lift-Keeps Q S H _) λ cell_id _.
        Keeps-bind (query (Storage.get_cell cell_id)) _ (query-Keeps Q S H _) λ found _.
          Keeps-bind (known_or_raise found) _ (known_or_raise-Keeps found) λ cell _.
            Keeps-bind (draw_bytes H 32) _ (draw_bytes-Keeps Q S H 32) λ ephemeral _.
              Keeps-bind (draw_bytes H 12) _ (draw_bytes-Keeps Q S H 12) λ nonce _.
                Keeps-bind (lift (encrypt H.primitives ephemeral nonce plaintext cell.enc_pubkey)) _
                  (lift-Keeps Q S H _)
                  λ e _.
                    Keeps-bind (new_stamp H) _ (new_stamp-Keeps Q S H)
                      (λ stamp _. route-Keeps Q S H here _)

  pub register_cell_locally-Keeps :
      (id : String) (signing enc : Bytes)
      → N.names id signing
      → Keeps (At Q) Any (register_cell_locally H id signing enc)
  unfolding register_cell_locally apply
  register_cell_locally-Keeps id signing enc named =
      Keeps-bind (read_clock H) _ (read_clock-Keeps Q S H) λ now _.
        Keeps-bind (change_db (Storage.register_cell now id signing enc true)) _
          (write-Keeps Q S H (register_cell_at now id signing enc true) named)
          λ _ _.
            Keeps-bind (read_clock H) _ (read_clock-Keeps Q S H)
              (λ now' _. write-Keeps Q S H (update_presence_at now' id (my_id H) none) (sym here))
