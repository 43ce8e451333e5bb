-- ===== src/Invariant/Transport.antt =====
-- A stable invariant, sending and receiving (node/transport.py).
use zki_nevod.Base.{String, Option, none, some, List, [], ◌∷◌}
use zki_nevod.Base.Outcome
use zki_nevod.Base.Outcome.{Error, Result, ok, err, value_error}
use zki_nevod.Base.Effects.{Exec, lift}
use zki_nevod.Base.Keeps.{
  Keeps, Any, Holds, Keeps-pure, Keeps-Any, Keeps-if, Keeps-catch, Keeps-bind, Keeps-after,
}
use zki_nevod.Base.Dict
use zki_nevod.Base.Dict.{Dict}
use zki_nevod.Bytes.{Bytes}
use zki_nevod.Protocol.{RawPacket, Packet, raw, typed, pack, unpack, sign_packet, verify_packet}
use zki_nevod.Storage.{Db}
use zki_nevod.Host.{Socket, PeerConnection, Event, State, Host, ws_close, Event, closed}
use zki_nevod.Invariant.{Permits, IsAuthentic, Stable, At}
use zki_nevod.Transport.{
  add, remove, get, send, do_auth, send_via, drop_closed, send_if, send_to, receive, recv_loop,
  serve, handle_incoming, finish_send, after_receive, leave,
}
use zki_nevod.Invariant.Contact.{ws_send-Keeps, lift-Keeps, add-Keeps, remove-Keeps}
use zki_nevod.Invariant.Handshake.{do_auth-Keeps}

module _ {N : Permits} (Q : Dict PeerConnection → Db → List Event → Type 0) (S : Stable N Q)
    (H : Host) where
  pub send_via-Keeps :
      (conn : PeerConnection) (packet : RawPacket) → Keeps (At Q) Any (send_via H conn packet)
  unfolding send_via send
  send_via-Keeps conn packet =
      Keeps-bind (lift (sign_packet H.codec H.primitives packet H.identity.signing)) _
        (lift-Keeps Q S H _) λ signed _. ws_send-Keeps Q S H conn.ws (pack H.codec signed)

  drop_closed-Keeps : (id : String) (r : Result (Unit {0})) → Keeps (At Q) Any (drop_closed H id r)
  unfolding drop_closed remove
  drop_closed-Keeps id (ok a) = Keeps-Any _ (λ s h. h)
  drop_closed-Keeps id (err Outcome.connection_closed) =
      Keeps-Any _ (λ s h. S.removes id s.conns s.db s.trace h)
  drop_closed-Keeps id (err e) = Keeps-Any _ (λ s h. h)

  finish_send-Keeps :
      (id : String) (packet : Packet) (r : Result (Unit {0}))
      → Keeps (At Q) Any (finish_send H id packet r)
  unfolding finish_send
  finish_send-Keeps id packet r =
      Keeps-bind (drop_closed H id r) _ (drop_closed-Keeps id r) λ sent _. Keeps-pure _ tt

  send_if-Keeps :
      (id : String) (found : Option PeerConnection) (packet : Packet)
      → Keeps (At Q) Any (send_if H id found packet)
  unfolding send_if
  send_if-Keeps id none packet = Keeps-Any _ (λ s h. h)
  send_if-Keeps id (some conn) packet =
      Keeps-after (send_via H conn (raw packet)) (finish_send H id packet)
        (send_via-Keeps conn (raw packet)) (λ r _. finish_send-Keeps id packet r)

  pub send_to-Keeps : (id : String) (packet : Packet) → Keeps (At Q) Any (send_to H id packet)
  unfolding send_to get
  send_to-Keeps id packet =
      Keeps-Any _ (λ s h. ((send_if-Keeps id (Dict.get id s.conns) packet).at s h).0)

  module _ (on_packet : Packet → PeerConnection → Exec State (Unit {0}))
      (handler : (p : Packet) (conn : PeerConnection)
        → IsAuthentic conn
        → Keeps (At Q) Any (on_packet p conn)) where
    pub receive-Keeps :
        (conn : PeerConnection) (message : Bytes)
        → IsAuthentic conn
        → Keeps (At Q) Any (receive H on_packet conn message)
    unfolding receive
    receive-Keeps conn message a =
        Keeps-bind (lift (unpack H.codec message)) _ (lift-Keeps Q S H _) λ pkt _.
          Keeps-bind (lift (verify_packet H.codec H.primitives pkt conn.peer_signing_pubkey)) _
            (lift-Keeps Q S H _)
            λ valid _.
              Keeps-if valid _ _
                (λ _.
                  Keeps-catch _ _
                    (Keeps-bind (lift (typed pkt)) _ (lift-Keeps Q S H _) (λ p _. handler p conn a))
                    (Keeps-pure tt tt))
                (λ _. Keeps-pure tt tt)

    after_receive-Keeps :
        (conn : PeerConnection) (r : Result (Unit {0})) (rest : Exec State (Unit {0}))
        → Keeps (At Q) Any rest
        → Keeps (At Q) Any (after_receive H conn r rest)
    unfolding after_receive remove
    after_receive-Keeps conn (ok a) rest k = Keeps-Any _ (λ s h. (k.at s h).0)
    after_receive-Keeps conn (err Outcome.connection_closed) rest k =
        Keeps-Any _ (λ s h. S.removes conn.peer_node_id s.conns s.db s.trace h)
    after_receive-Keeps conn (err e) rest k =
        Keeps-Any _ (λ s h. S.removes conn.peer_node_id s.conns s.db s.trace h)

    pub recv_loop-Keeps :
        (conn : PeerConnection) (messages : List Bytes)
        → IsAuthentic conn
        → Keeps (At Q) Any (recv_loop H on_packet conn messages)
    unfolding recv_loop
    recv_loop-Keeps conn [] a =
        Keeps-Any _ (λ s h. ((remove-Keeps Q S H conn.peer_node_id).at s h).0)
    recv_loop-Keeps conn (message ∷ messages) a =
        Keeps-after (receive H on_packet conn message)
          (λ r. after_receive H conn r (recv_loop H on_packet conn messages))
          (receive-Keeps conn message a)
          (λ r _. after_receive-Keeps conn r _ (recv_loop-Keeps conn messages a))

    serve-Keeps :
        (ws : Socket) (messages : List Bytes) (r : Result PeerConnection)
        → Holds IsAuthentic r
        → Keeps (At Q) Any (serve H on_packet ws messages r)
    unfolding serve leave ws_close remove
    serve-Keeps ws messages (err e) h =
        Keeps-Any _ (λ s k. S.notes (closed ws) s.conns s.db s.trace tt k)
    serve-Keeps ws messages (ok conn) authentic = Keeps-Any _ (λ s h.
        let (k, _) = (add-Keeps Q S H conn authentic).at s h in
        let (m, _) = (recv_loop-Keeps conn messages authentic).at (add conn s).1 k in
        let t = (recv_loop H on_packet conn messages (add conn s).1).1 in
        S.removes conn.peer_node_id t.conns t.db t.trace m)

    pub handle_incoming-Keeps :
        (ws : Socket) (messages : List Bytes)
        → Keeps (At Q) Any (handle_incoming H on_packet ws messages)
    unfolding handle_incoming
    handle_incoming-Keeps ws messages =
        Keeps-after (do_auth H ws none) (serve H on_packet ws messages)
          (do_auth-Keeps Q S H ws none) (λ r authentic. serve-Keeps ws messages r authentic)
