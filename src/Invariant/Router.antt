-- ===== src/Invariant/Router.antt =====
-- A stable invariant and node/router.py.
use zki_nevod.Base.{
  ℕ, String, ◌≡◌, refl, sym, ◌∙◌, ◌⊎◌, inl, inr, eq_iff, false≢true, true, not, Option, none, some,
  List, [], ◌∷◌, str_eq, is_empty,
}
use zki_nevod.Base.Outcome.{Result, ok, err}
use zki_nevod.Base.Effects.{pure, lift}
use zki_nevod.Base.Keeps.{
  Keeps, Any, Keeps-pure, Keeps-Any, Keeps-if, Keeps-catch, Keeps-bind, Keeps-after,
}
use zki_nevod.Base.Dict.{Dict}
use zki_nevod.Protocol.{RawPacket, Packet, raw, typed}
use zki_nevod.Storage
use zki_nevod.Storage.{Db, NodeEntry, CellEntry, PresenceEntry, BufferedMessage}
use zki_nevod.Storage.Keys.{apply, buffer_message_at, delete_buffered_of}
use zki_nevod.Host.{
  PeerConnection, Event, handed, Host, read_clock, call_handler, call_on_message, query,
}
use zki_nevod.Invariant.{Permits, Stable, At, IsAtHome}
use zki_nevod.Invariant.Contact.{lift-Keeps, read_clock-Keeps, query-Keeps, write-Keeps}
use zki_nevod.Invariant.Handshake.{connect_to_node-Keeps}
use zki_nevod.Invariant.Transport.{send_to-Keeps, send_via-Keeps}
use zki_nevod.Transport.{my_id, send_via, send_to, connect_to_node}
use zki_nevod.Router.{
  parse_addr, serialize_packet, deserialize_packet, deliver_to, deliver_local, send_over, dial,
  send_to_node, unannounced, try_visiting, buffer, route_announced, route_to, route, flush_one,
  flush_all, flush_buffer,
}

module _ {N : Permits} (Q : Dict PeerConnection → Db → List Event → Type 0) (S : Stable N Q)
    (H : Host) (here : N.me ≡ my_id H) where
  call_handler-Keeps :
      (f : Option (ℕ → Packet → Result (Unit {0}))) (pkt : Packet)
      → Keeps (At Q) Any (call_handler H f pkt)
  unfolding call_handler
  call_handler-Keeps none pkt = Keeps-Any _ (λ s h. h)
  call_handler-Keeps (some f) pkt =
      Keeps-Any _ (λ s h. S.notes (handed pkt) s.conns s.db s.trace tt h)

  call_on_message-Keeps : (pkt : Packet) → Keeps (At Q) Any (call_on_message H pkt)
  unfolding call_on_message
  call_on_message-Keeps pkt = call_handler-Keeps H.world.on_message pkt

  deliver_to-Keeps :
      (cell : Option String) (pkt : Packet) → Keeps (At Q) Any (deliver_to H cell pkt)
  unfolding deliver_to
  deliver_to-Keeps none pkt = call_on_message-Keeps pkt
  deliver_to-Keeps (some cell_id) pkt =
      Keeps-if (is_empty cell_id) _ _ (λ _. call_on_message-Keeps pkt)
        λ _.
          Keeps-bind (send_to H cell_id pkt) _ (send_to-Keeps Q S H cell_id pkt) λ (sent, pkt') _.
            Keeps-if sent _ _ (λ _. Keeps-pure tt tt) (λ _. call_on_message-Keeps pkt')

  deliver_local-Keeps : (pkt : Packet) → Keeps (At Q) Any (deliver_local H pkt)
  unfolding deliver_local
  deliver_local-Keeps pkt = deliver_to-Keeps (parse_addr pkt.to_addr).0 pkt

  send_over-Keeps :
      (pkt : Packet) (r : Result PeerConnection) → Keeps (At Q) Any (send_over H pkt r)
  unfolding send_over
  send_over-Keeps pkt (err e) = Keeps-pure _ tt
  send_over-Keeps pkt (ok conn) =
      Keeps-catch _ _
        (Keeps-bind (send_via H conn (raw pkt)) _ (send_via-Keeps Q S H conn (raw pkt))
          (λ _ _. Keeps-pure _ tt))
        (Keeps-pure _ tt)

  dial-Keeps :
      (node_id : String) (found : Option NodeEntry) (pkt : Packet)
      → Keeps (At Q) Any (dial H node_id found pkt)
  unfolding dial
  dial-Keeps node_id none pkt = Keeps-pure _ tt
  dial-Keeps node_id (some entry) pkt =
      Keeps-if (not (str_eq entry.status "online")) _ _ (λ _. Keeps-pure _ tt)
        λ _.
          Keeps-after (connect_to_node H node_id entry.address) (send_over H pkt)
            (connect_to_node-Keeps Q S H node_id entry.address) (λ r _. send_over-Keeps pkt r)

  send_to_node-Keeps :
      (node_id : String) (pkt : Packet) → Keeps (At Q) Any (send_to_node H node_id pkt)
  unfolding send_to_node
  send_to_node-Keeps node_id pkt =
      Keeps-if (str_eq node_id (my_id H)) _ _
        (λ _. Keeps-bind (deliver_local H pkt) _ (deliver_local-Keeps pkt) (λ _ _. Keeps-pure _ tt))
        λ _.
          Keeps-bind (send_to H node_id pkt) _ (send_to-Keeps Q S H node_id pkt) λ (sent, pkt') _.
            Keeps-if sent _ _ (λ _. Keeps-pure _ tt)
              λ _.
                Keeps-bind (query (Storage.get_node node_id)) _ (query-Keeps Q S H _)
                  (λ entry _. dial-Keeps node_id entry pkt')

  deliver_known-Keeps :
      (cell : Option CellEntry) (pkt : Packet)
      → Keeps (At Q) Any (elim cell [ none ↦ pure tt | some _ ↦ deliver_local H pkt ])
  deliver_known-Keeps none pkt = Keeps-pure tt tt
  deliver_known-Keeps (some c) pkt = deliver_local-Keeps pkt

  unannounced-Keeps :
      (cell_id : String) (pkt : Packet) → Keeps (At Q) Any (unannounced H cell_id pkt)
  unfolding unannounced
  unannounced-Keeps cell_id pkt =
      Keeps-bind (query (Storage.get_cell cell_id)) _ (query-Keeps Q S H _)
        (λ cell _. deliver_known-Keeps cell pkt)

  try_visiting-Keeps :
      (visiting : Option String) (pkt : Packet) → Keeps (At Q) Any (try_visiting H visiting pkt)
  unfolding try_visiting
  try_visiting-Keeps none pkt = Keeps-pure _ tt
  try_visiting-Keeps (some node_id) pkt =
      Keeps-if (is_empty node_id) _ _ (λ _. Keeps-pure _ tt) (λ _. send_to_node-Keeps node_id pkt)

  -- This node as the home is always reached.
  home-Keeps :
      (node_id : String) (pkt : Packet)
      → node_id ≡ N.me
      → Keeps (At Q) (λ x. x.0 ≡ true) (send_to_node H node_id pkt)
  unfolding send_to_node
  home-Keeps node_id pkt same =
      Keeps-if (str_eq node_id (my_id H)) _ _
        (λ _.
          Keeps-bind (deliver_local H pkt) _ (deliver_local-Keeps pkt) (λ _ _. Keeps-pure _ refl))
        (λ other. absurd (false≢true (sym other ∙ (eq_iff node_id (my_id H)).1 (same ∙ here))))

  buffer-Keeps :
      (cell_id home : String) (pkt : Packet)
      → N.buffers
      → Keeps (At Q) Any (buffer H cell_id home pkt)
  unfolding buffer apply
  buffer-Keeps cell_id home pkt allowed =
      Keeps-bind (read_clock H) _ (read_clock-Keeps Q S H) λ now _.
        write-Keeps Q S H (buffer_message_at now pkt.id cell_id home (serialize_packet H.codec pkt))
          allowed

  -- a presence that was looked up
  abbrev Fits : Option PresenceEntry → Type 0
  Fits none = Unit
  Fits (some p) = N.buffers ⊎ IsAtHome N.me p

  route_announced-Keeps :
      (cell_id : String) (p : PresenceEntry) (pkt : Packet)
      → Fits (some p)
      → Keeps (At Q) Any (route_announced H cell_id p pkt)
  unfolding route_announced
  route_announced-Keeps cell_id p pkt (inl allowed) =
      Keeps-bind (try_visiting H p.visiting_node_id pkt) _ (try_visiting-Keeps _ pkt)
        λ (visited, pkt') _.
          Keeps-if visited _ _ (λ _. Keeps-pure tt tt)
            λ _.
              Keeps-bind (send_to_node H p.home_node_id pkt') _ (send_to_node-Keeps _ pkt')
                λ (at_home, pkt'') _.
                  Keeps-if at_home _ _ (λ _. Keeps-pure tt tt)
                    (λ _. buffer-Keeps cell_id p.home_node_id pkt'' allowed)
  route_announced-Keeps cell_id p pkt (inr (home, visiting)) =
      Keeps-bind (try_visiting H p.visiting_node_id pkt) _ (try_visiting-Keeps _ pkt)
        λ (visited, pkt') _.
          Keeps-if visited _ _ (λ _. Keeps-pure tt tt)
            λ _.
              Keeps-bind (send_to_node H p.home_node_id pkt') _ (home-Keeps _ pkt' home)
                λ (at_home, pkt'') reached.
                  Keeps-if at_home _ _ (λ _. Keeps-pure tt tt)
                    (λ lost. absurd (false≢true (sym lost ∙ reached)))

  route_found-Keeps :
      (cell_id : String) (presence : Option PresenceEntry) (pkt : Packet)
      → Fits presence
      → Keeps (At Q) Any (elim presence [
        | none ↦ unannounced H cell_id pkt
        | some p ↦ route_announced H cell_id p pkt
      ])
  route_found-Keeps cell_id none pkt fits = unannounced-Keeps cell_id pkt
  route_found-Keeps cell_id (some p) pkt fits = route_announced-Keeps cell_id p pkt fits

  presence-Fits :
      (found : Option PresenceEntry)
      → ((p : PresenceEntry) → found ≡ some p → N.buffers ⊎ IsAtHome N.me p)
      → Fits found
  presence-Fits none h = tt
  presence-Fits (some p) h = h p refl

  presence-Keeps : (cell_id : String) → Keeps (At Q) Fits (query (Storage.get_presence cell_id))
  unfolding query
  presence-Keeps cell_id = record {
    at = λ s h. (
      h,
      presence-Fits (Storage.get_presence cell_id s.db) λ p found. elim S.homes [
        | inl allowed ↦ inl allowed
        | inr home ↦ inr (home s.conns s.db s.trace cell_id p h found)
      ],
    );
  }

  route_to-Keeps :
      (to : Option String × String) (pkt : Packet) → Keeps (At Q) Any (route_to H to pkt)
  unfolding route_to
  route_to-Keeps (none, node_id) pkt =
      Keeps-bind (send_to_node H node_id pkt) _ (send_to_node-Keeps node_id pkt)
        (λ _ _. Keeps-pure tt tt)
  route_to-Keeps (some cell_id, node_id) pkt =
      Keeps-bind (query (Storage.get_presence cell_id)) _ (presence-Keeps cell_id)
        (λ presence fits. route_found-Keeps cell_id presence pkt fits)

  pub route-Keeps : (pkt : Packet) → Keeps (At Q) Any (route H pkt)
  unfolding route
  route-Keeps pkt = route_to-Keeps (parse_addr pkt.to_addr) pkt

  flush_one-Keeps :
      (msg : BufferedMessage) (found : Option RawPacket) → Keeps (At Q) Any (flush_one H msg found)
  unfolding flush_one apply
  flush_one-Keeps msg none = Keeps-pure tt tt
  flush_one-Keeps msg (some pkt) = Keeps-bind (lift (typed pkt)) _ (lift-Keeps Q S H _) λ p _.
      Keeps-bind (route H p) _ (route-Keeps p)
        λ _ _. write-Keeps Q S H (delete_buffered_of msg.message_id) tt

  flush_all-Keeps : (messages : List BufferedMessage) → Keeps (At Q) Any (flush_all H messages)
  unfolding flush_all
  flush_all-Keeps [] = Keeps-pure tt tt
  flush_all-Keeps (msg ∷ messages) =
      Keeps-bind (flush_one H msg (deserialize_packet H.codec msg.payload)) _
        (flush_one-Keeps msg _) (λ _ _. flush_all-Keeps messages)

  pub flush_buffer-Keeps : (cell_id : String) → Keeps (At Q) Any (flush_buffer H cell_id)
  unfolding flush_buffer
  flush_buffer-Keeps cell_id = Keeps-bind (read_clock H) _ (read_clock-Keeps Q S H) λ now _.
      Keeps-bind (query (Storage.get_buffered now cell_id)) _ (query-Keeps Q S H _)
        (λ messages _. flush_all-Keeps messages)
