-- ===== src/Invariant/Gossip.antt =====
-- A stable invariant and the gossip engine of node/gossip.py.
use zki_nevod.Base.{
  ℕ, zero, suc, String, Bool, true, false, not, ◌||◌, Option, none, some, List, [], ◌∷◌,
  if◌then◌else◌, str_eq, arith,
}
use zki_nevod.Base.Outcome.{Result, ok, err}
use zki_nevod.Base.Effects.{pure, lift, catch}
use zki_nevod.Base.Keeps.{
  Keeps, Any, Keeps-pure, Keeps-Any, Keeps-if, Keeps-catch, Keeps-bind, Keeps-after, Keeps-attempt,
}
use zki_nevod.Base.Dict.{Dict}
use zki_nevod.Value.{Value, str, Items, end, item, truthy, get_value, as_str}
use zki_nevod.Protocol.{Packet, raw}
use zki_nevod.Protocol.Constructors.{make_ping}
use zki_nevod.Storage
use zki_nevod.Storage.{Db, NodeEntry, new_node_entry, missed_pings_offline}
use zki_nevod.Storage.Keys.{
  apply, upsert_node_at, update_node_ping_at, cleanup_nodes_at, cleanup_messages_at,
}
use zki_nevod.Storage.Health.{IsSettled}
use zki_nevod.Host.{
  PeerConnection, Event, Host, read_clock, new_stamp, draw_sample, change_db, query,
}
use zki_nevod.Invariant.{Permits, Stable, At}
use zki_nevod.Invariant.Contact.{
  lift-Keeps, new_stamp-Keeps, read_clock-Keeps, query-Keeps, write-Keeps,
}
use zki_nevod.Invariant.Handshake.{connect_to_node-Keeps}
use zki_nevod.Invariant.Transport.{send_via-Keeps}
use zki_nevod.Transport.{get, my_id, send_via}
use zki_nevod.Gossip.{
  iterate, update_ping, ping_over, connection_for, ping_node, exchange_over, exchange, ping_all,
  exchange_all, round, loop, discover, merge_entry, merge_entries, remote_nodes, handle_gossip,
  handle_ping, handle_pong,
}

-- An entry that the node itself writes is online and has missed no ping.
pub new_node_entry-IsSettled :
    (id address type access : String) (seen added : ℕ)
    → IsSettled
        (new_node_entry id address type access seen added).missed_pings
        (new_node_entry id address type access seen added).status
unfolding new_node_entry
new_node_entry-IsSettled id address type access seen added = λ enough. absurd (omega arith)

module _ {N : Permits} (Q : Dict PeerConnection → Db → List Event → Type 0) (S : Stable N Q)
    (H : Host) where
  update_ping-Keeps : (id : String) (success : Bool) → Keeps (At Q) Any (update_ping H id success)
  unfolding update_ping apply
  update_ping-Keeps id success =
      Keeps-bind (read_clock H) _ (read_clock-Keeps Q S H)
        λ now _. write-Keeps Q S H (update_node_ping_at now id success) tt

  ping_over-Keeps :
      (entry : NodeEntry) (r : Result PeerConnection) → Keeps (At Q) Any (ping_over H entry r)
  unfolding ping_over
  ping_over-Keeps entry (err e) = update_ping-Keeps entry.node_id false
  ping_over-Keeps entry (ok conn) = Keeps-bind (new_stamp H) _ (new_stamp-Keeps Q S H) λ stamp _.
      Keeps-catch _ _
        (Keeps-bind (send_via H conn (raw (make_ping H.codec stamp (my_id H) entry.node_id))) _
          (send_via-Keeps Q S H conn _) (λ _ _. update_ping-Keeps entry.node_id true))
        (update_ping-Keeps entry.node_id false)

  connection_for-Keeps :
      (entry : NodeEntry) (found : Option PeerConnection)
      → Keeps (At Q) Any (connection_for H entry found)
  unfolding connection_for
  connection_for-Keeps entry (some conn) = Keeps-pure conn tt
  connection_for-Keeps entry none = connect_to_node-Keeps Q S H entry.node_id entry.address

  get-Keeps : (id : String) → Keeps (At Q) Any (get id)
  unfolding get
  get-Keeps id = Keeps-Any _ (λ s h. h)

  ping_node-Keeps : (entry : NodeEntry) → Keeps (At Q) Any (ping_node H entry)
  unfolding ping_node
  ping_node-Keeps entry = Keeps-bind (get entry.node_id) _ (get-Keeps entry.node_id) λ found _.
      Keeps-after (connection_for H entry found) (ping_over H entry)
        (connection_for-Keeps entry found) (λ r _. ping_over-Keeps entry r)

  exchange_over-Keeps : (found : Option PeerConnection) → Keeps (At Q) Any (exchange_over H found)
  unfolding exchange_over
  exchange_over-Keeps none = Keeps-pure tt tt
  exchange_over-Keeps (some conn) =
      Keeps-bind (query Storage.get_all_nodes) _ (query-Keeps Q S H _) λ nodes _.
        Keeps-bind (new_stamp H) _ (new_stamp-Keeps Q S H)
          λ stamp _. Keeps-catch _ _ (send_via-Keeps Q S H conn _) (Keeps-pure tt tt)

  exchange-Keeps : (peer : NodeEntry) → Keeps (At Q) Any (exchange H peer)
  unfolding exchange
  exchange-Keeps peer =
      Keeps-bind (get peer.node_id) _ (get-Keeps peer.node_id) (λ conn _. exchange_over-Keeps conn)

  ping_all-Keeps : (nodes : List NodeEntry) → Keeps (At Q) Any (ping_all H nodes)
  unfolding ping_all
  ping_all-Keeps [] = Keeps-pure tt tt
  ping_all-Keeps (entry ∷ nodes) =
      Keeps-bind (if str_eq entry.node_id (my_id H) then pure tt else ping_node H entry) _
        (Keeps-if (str_eq entry.node_id (my_id H)) _ _ (λ _. Keeps-pure tt tt)
          (λ _. ping_node-Keeps entry))
        (λ _ _. ping_all-Keeps nodes)

  exchange_all-Keeps : (peers : List NodeEntry) → Keeps (At Q) Any (exchange_all H peers)
  unfolding exchange_all
  exchange_all-Keeps [] = Keeps-pure tt tt
  exchange_all-Keeps (peer ∷ peers) =
      Keeps-bind (exchange H peer) _ (exchange-Keeps peer) (λ _ _. exchange_all-Keeps peers)

  draw_sample-Keeps : (k : ℕ) (nodes : List NodeEntry) → Keeps (At Q) Any (draw_sample H k nodes)
  unfolding draw_sample
  draw_sample-Keeps k nodes = Keeps-Any _ (λ s h. h)

  pub round-Keeps : Keeps (At Q) Any (round H)
  unfolding round apply
  round-Keeps = Keeps-bind (query Storage.get_all_nodes) _ (query-Keeps Q S H _) λ nodes _.
      Keeps-bind (ping_all H nodes) _ (ping_all-Keeps nodes) λ _ _.
        Keeps-bind (read_clock H) _ (read_clock-Keeps Q S H) λ now _.
          Keeps-bind (change_db (Storage.cleanup_expired_nodes now)) _
            (write-Keeps Q S H (cleanup_nodes_at now) tt)
            λ _ _. Keeps-bind (read_clock H) _ (read_clock-Keeps Q S H) λ now' _.
              Keeps-bind (change_db (Storage.cleanup_expired_messages now')) _
                (write-Keeps Q S H (cleanup_messages_at now') tt)
                λ _ _.
                  Keeps-bind (draw_sample H _ _) _ (draw_sample-Keeps _ _)
                    (λ peers _. exchange_all-Keeps peers)

  pub loop-Keeps : (n : ℕ) → Keeps (At Q) Any (loop H n)
  unfolding loop
  loop-Keeps zero = Keeps-pure tt tt
  loop-Keeps (suc n) =
      Keeps-bind (catch (round H) (pure tt)) _
        (Keeps-catch (round H) (pure tt) round-Keeps (Keeps-pure tt tt)) (λ _ _. loop-Keeps n)

  discover-Keeps :
      (n : Value) (id address : String) (known : Option NodeEntry)
      → Keeps (At Q) Any (discover H n id address known)
  unfolding discover apply
  discover-Keeps n id address (some e) = Keeps-pure tt tt
  discover-Keeps n id address none =
      Keeps-bind (lift (get_value n "type" (str "permanent"))) _ (lift-Keeps Q S H _) λ type _.
        Keeps-bind (lift (as_str type)) _ (lift-Keeps Q S H _) λ type_text _.
          Keeps-bind (lift (get_value n "access" (str "closed"))) _ (lift-Keeps Q S H _) λ access _.
            Keeps-bind (lift (as_str access)) _ (lift-Keeps Q S H _) λ access_text _.
              Keeps-bind (read_clock H) _ (read_clock-Keeps Q S H) λ seen _.
                Keeps-bind (read_clock H) _ (read_clock-Keeps Q S H) λ added _.
                  Keeps-bind (read_clock H) _ (read_clock-Keeps Q S H) λ now _.
                    write-Keeps Q S H
                      (upsert_node_at now
                        (new_node_entry id address type_text access_text seen added))
                      (new_node_entry-IsSettled id address type_text access_text seen added)

  merge_entry-Keeps : (n : Value) → Keeps (At Q) Any (merge_entry H n)
  unfolding merge_entry
  merge_entry-Keeps n =
      Keeps-bind (lift (get_value n "node_id" (str ""))) _ (lift-Keeps Q S H _) λ node_id _.
        Keeps-bind (lift (get_value n "address" (str ""))) _ (lift-Keeps Q S H _) λ address _.
          Keeps-if (not (truthy node_id) || not (truthy address)) _ _ (λ _. Keeps-pure tt tt)
            λ _. Keeps-bind (lift (as_str node_id)) _ (lift-Keeps Q S H _) λ id _.
              Keeps-bind (query (Storage.get_node id)) _ (query-Keeps Q S H _) λ existing _.
                Keeps-bind (lift (as_str address)) _ (lift-Keeps Q S H _)
                  (λ addr _. discover-Keeps n id addr existing)

  merge_entries-Keeps : (ns : Items) → Keeps (At Q) Any (merge_entries H ns)
  unfolding merge_entries
  merge_entries-Keeps end = Keeps-pure tt tt
  merge_entries-Keeps (item n ns) =
      Keeps-bind (merge_entry H n) _ (merge_entry-Keeps n) (λ _ _. merge_entries-Keeps ns)

  pub handle_gossip-Keeps : (pkt : Packet) → Keeps (At Q) Any (handle_gossip H pkt)
  unfolding handle_gossip
  handle_gossip-Keeps pkt = Keeps-attempt (remote_nodes H pkt) tt _ tt λ nodes _.
      Keeps-bind (lift (iterate nodes)) _ (lift-Keeps Q S H _) (λ ns _. merge_entries-Keeps ns)

  pub handle_ping-Keeps :
      (pkt : Packet) (conn : PeerConnection) → Keeps (At Q) Any (handle_ping H pkt conn)
  unfolding handle_ping
  handle_ping-Keeps pkt conn =
      Keeps-bind (new_stamp H) _ (new_stamp-Keeps Q S H) (λ stamp _. send_via-Keeps Q S H conn _)

  pub handle_pong-Keeps : (pkt : Packet) → Keeps (At Q) Any (handle_pong H pkt)
  unfolding handle_pong
  handle_pong-Keeps pkt = update_ping-Keeps pkt.from_addr true
