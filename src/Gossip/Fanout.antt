-- ===== src/Gossip/Fanout.antt =====
-- How much a round of node/gossip.py sends besides its pings.
use zki_nevod.Base.{ℕ, ◌+◌, ◌≤◌, Option, none, some, List, [], ◌∷◌, length, length-append, arith}
use zki_nevod.Base.Outcome.{Result, ok, err}
use zki_nevod.Base.Effects.{Exec, pure, handle, catch, continue, ◌>>=◌}
use zki_nevod.Base.Dict
use zki_nevod.Bytes.{Bytes}
use zki_nevod.Protocol.{RawPacket, raw, pack, sign_packet}
use zki_nevod.Protocol.Constructors.{make_gossip}
use zki_nevod.Storage
use zki_nevod.Storage.{NodeEntry}
use zki_nevod.Host.{
  Socket, PeerConnection, Event, sent, State, Host, note_ok, next, new_stamp, draw_sample, query,
  read_clock, change_db, ws_send,
}
use zki_nevod.Transport.{get, my_id, send, send_via}
use zki_nevod.Gossip.{
  gossip_fanout, min_of, items_of, exchange_over, exchange, exchange_all, ping_all, round,
}

-- the number of events
abbrev events : State → ℕ
events s = length s.trace

note_ok-events :
    (r : Result (Unit {0})) (e : Event) (s : State) → events (note_ok r e s) ≤ events s + 1
note_ok-events (ok a) e s = omega (arith, length-append s.trace (e ∷ []))
note_ok-events (err x) e s = omega arith

handle-events :
    (r : Result (Unit {0})) (s : State) (n : ℕ) → events s ≤ n → events (handle r (pure tt) s).1 ≤ n
handle-events (ok a) s n h = h
handle-events (err e) s n h = h

module _ (H : Host) where
  ws_send-events :
      (ws : Socket) (message : Bytes) (s : State) → events (ws_send H ws message s).1 ≤ events s + 1
  unfolding ws_send
  ws_send-events ws message s =
      note_ok-events (H.world.send s.contact ws message) (sent ws message) (next s)

  continue-events :
      (conn : PeerConnection) (r : Result RawPacket) (s : State)
      → events (continue r (send H conn) s).1 ≤ events s + 1
  unfolding send
  continue-events conn (ok p) s = ws_send-events conn.ws (pack H.codec p) s
  continue-events conn (err e) s = omega arith

  send_via-events :
      (conn : PeerConnection) (p : RawPacket) (s : State)
      → events (send_via H conn p s).1 ≤ events s + 1
  unfolding send_via
  send_via-events conn p s =
      continue-events conn (sign_packet H.codec H.primitives p H.identity.signing) s

  caught-events :
      (m : Exec State (Unit {0})) (s : State) (n : ℕ)
      → events (m s).1 ≤ n
      → events (catch m (pure tt) s).1 ≤ n
  caught-events m s n h = handle-events (m s).0 (m s).1 n h

  exchange_over-events :
      (c : Option PeerConnection) (s : State) → events (exchange_over H c s).1 ≤ events s + 1
  unfolding exchange_over query new_stamp
  exchange_over-events none s = omega arith
  exchange_over-events (some conn) s =
      let p = raw (
        make_gossip H.codec (record { id = H.world.uuid4 s.contact; ts = H.world.time s.contact })
          (my_id H) (items_of (Storage.get_all_nodes s.db))) in
      caught-events (send_via H conn p) (next s) (events s + 1) (send_via-events conn p (next s))

  exchange-events : (peer : NodeEntry) (s : State) → events (exchange H peer s).1 ≤ events s + 1
  unfolding exchange get
  exchange-events peer s = exchange_over-events (Dict.get peer.node_id s.conns) s

  after_exchange :
      (r : Result (Unit {0})) (f : Exec State (Unit {0})) (s : State) (n k : ℕ)
      → events s ≤ n
      → events (f s).1 ≤ events s + k
      → events (continue r (λ _. f) s).1 ≤ n + k
  after_exchange (ok a) f s n k h hf = omega arith
  after_exchange (err e) f s n k h hf = omega arith

  exchange_all-events :
      (peers : List NodeEntry) (s : State)
      → events (exchange_all H peers s).1 ≤ events s + length peers
  unfolding exchange_all
  exchange_all-events [] s = omega arith
  exchange_all-events (peer ∷ peers) s =
      let t = (exchange H peer s).1 in
      omega (
        arith,
        after_exchange (exchange H peer s).0 (exchange_all H peers) t (events s + 1) (length peers)
            (exchange-events peer s) (exchange_all-events peers t),
      )

min_of-le : (a b : ℕ) → min_of a b ≤ a
unfolding min_of
min_of-le a b = ground arith

module _ (H : Host)
    (sampled : (n k : ℕ) (nodes : List NodeEntry) → length (H.world.sample n k nodes) ≤ k) where
  sample-events :
      (online : List NodeEntry) (s : State)
      → events
          ((do
            peers ← draw_sample H (min_of gossip_fanout (length online)) online
            exchange_all H peers)
            s).1
        ≤ events s + gossip_fanout
  unfolding draw_sample
  sample-events online s =
      let k = min_of gossip_fanout (length online) in
      omega (
        arith,
        exchange_all-events H (H.world.sample s.contact k online) (next s),
        sampled s.contact k online,
        min_of-le gossip_fanout (length online),
      )

  -- what follows the pings of a round
  after_pings :
      (r : Result (Unit {0})) (rest : Exec State (Unit {0})) (t : State)
      → ((u : State) → events (rest u).1 ≤ events u + gossip_fanout)
      → events (continue r (λ _. rest) t).1 ≤ events t + gossip_fanout
  after_pings (ok a) rest t h = h t
  after_pings (err e) rest t h = omega arith

  -- A gossip round leaves at most three events more in the trace than its pings alone, whatever the
  -- node knows, whatever the world answers and however the pings end, if `random.sample` returns no
  -- more items than it is asked for.
  pub round-fanout :
      (s : State)
      → length (round H s).1.trace
        ≤ length (ping_all H (Storage.get_all_nodes s.db) s).1.trace + gossip_fanout
  unfolding round query read_clock change_db
  round-fanout s =
      let pings = ping_all H (Storage.get_all_nodes s.db) s in
      after_pings pings.0 _ pings.1 (λ u. sample-events _ _)
