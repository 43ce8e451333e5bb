-- ===== src/Router/Delivery.antt =====
-- `route` and `flush_buffer` of node/router.py and a message for a cell whose home is this node.
use zki_nevod.Base.{
  ℕ, String, ◌≡◌, refl, ◌∙◌, Bool, true, false, Option, none, some, if◌then◌else◌, eq_refl,
  is_empty,
}
use zki_nevod.Base.Outcome
use zki_nevod.Base.Outcome.{Error, Result, ok, err}
use zki_nevod.Base.Effects.{Exec, pure, continue, ◌>>=◌, ◌>>◌}
use zki_nevod.Base.Dict
use zki_nevod.Protocol.{Packet, raw, pack}
use zki_nevod.Protocol.Wire.{typed-raw}
use zki_nevod.Storage
use zki_nevod.Storage.{PresenceEntry, BufferedMessage}
use zki_nevod.Host.{
  PeerConnection, sent, State, Host, note, next, query, change_db, call_on_message, call_handler,
}
use zki_nevod.Transport.{my_id, signed, send_to}
use zki_nevod.Transport.Sending.{sent_to, send_to-connected, send_to-unconnected}
use zki_nevod.Router.{
  parse_addr, deliver_to, deliver_local, send_to_node, try_visiting, route_announced, route_to,
  route, flush_one,
}

-- The recipient is a cell whose home is this node, and which visits no other.
pub record IsHomeCell (H : Host) (cell : String) (pkt : Packet) (s : State) : Type 0 where
  pub to_node : String
  pub at : ℕ
  pub addressed : parse_addr pkt.to_addr ≡ (some cell, to_node)
  pub named : is_empty cell ≡ false
  pub announced :
      Storage.get_presence cell s.db
      ≡ some (record {
        cell_id = cell;
        home_node_id = my_id H;
        visiting_node_id = none;
        updated_at = at;
      })

-- `send_to_node` reports success for a local delivery, whatever became of it.
after_local :
    (pkt : Packet) (f : Packet → Exec State (Unit {0})) (x : Result (Unit {0}) × State)
    → (do
      (done, p) ← (do (λ _. x); pure {A = Bool × Packet} (true, pkt))
      if done then pure tt else f p)
        x.1
      ≡ continue {A = Unit {0}} x.0 (λ _. pure tt) x.1
after_local pkt f (ok a, t) = refl
after_local pkt f (err e, t) = refl

continue-db : (x : Result (Unit {0}) × State) → (continue x.0 (λ _. pure tt) x.1).1.db ≡ x.1.db
continue-db (ok a, t) = refl
continue-db (err e, t) = refl

module _ (H : Host) where
  call_handler-db :
      (f : Option (ℕ → Packet → Result (Unit {0}))) (p : Packet) (s : State)
      → (call_handler H f p s).1.db ≡ s.db
  unfolding call_handler
  call_handler-db none p s = refl
  call_handler-db (some f) p s = refl

  call_on_message-db : (p : Packet) (s : State) → (call_on_message H p s).1.db ≡ s.db
  unfolding call_on_message
  call_on_message-db p s = call_handler-db H.world.on_message p s

  -- the end of a local delivery, by what the send to the cell came to
  local_end : Result (Bool × Packet) × State → Result (Unit {0}) × State
  local_end (r, t) = continue r (λ (done, pkt'). if done then pure tt else call_on_message H pkt') t

  local_end-db :
      (conn : PeerConnection) (id : String) (p : Packet) (s : State) (r : Result (Unit {0}))
      → (local_end (sent_to H conn id p s r)).1.db ≡ s.db
  unfolding local_end
  local_end-db conn id p s (ok a) = refl
  local_end-db conn id p s (err Outcome.connection_closed) = call_on_message-db (signed H p) _
  local_end-db conn id p s (err e) = refl

module _ (H : Host) (cell : String) (pkt : Packet) (s : State)
    (home : IsHomeCell H cell pkt s) where
  route_home : route H pkt s ≡ (do deliver_local H pkt; pure tt) s
  unfolding route route_to route_announced try_visiting send_to_node query
  route_home =
      rw (home.addressed, home.announced, eq_refl (my_id H))
        (after_local pkt _ (deliver_local H pkt s))

  deliver_home : deliver_local H pkt s ≡ local_end H (send_to H cell pkt s)
  unfolding deliver_local deliver_to local_end
  deliver_home = rw (home.addressed, home.named) refl

  local_end-found :
      (found : Option PeerConnection)
      → Dict.get cell s.conns ≡ found
      → (local_end H (send_to H cell pkt s)).1.db ≡ s.db
  local_end-found none absent =
      rw (send_to-unconnected H cell pkt s absent) (unfold local_end in call_on_message-db H pkt s)
  local_end-found (some conn) found =
      rw (send_to-connected H cell conn pkt s found) (local_end-db H conn cell pkt s _)

  -- A message for a cell of a name that is not empty, whose home is this node, and which visits
  -- no other, is never buffered: whether the cell is connected or not, and whatever the
  -- connection and the callback do, the database is as before.
  pub route-home_db : (route H pkt s).1.db ≡ s.db
  route-home_db = rw route_home (rw deliver_home (continue-db _ ∙ local_end-found _ refl))

  -- If a cell of a name that is not empty, whose home is this node, and which visits no other,
  -- is not connected, and there is no callback, then routing a message for it changes nothing,
  -- and raises nothing.
  pub route-home_absent :
      Dict.get cell s.conns ≡ none → H.world.on_message ≡ none → route H pkt s ≡ (ok tt, s)
  unfolding local_end call_on_message call_handler
  route-home_absent absent silent =
      rw route_home (rw deliver_home (rw (send_to-unconnected H cell pkt s absent, silent) refl))

  -- If the cell that a stored message is for has a name that is not empty, this node as its
  -- home, and visits no other, is not connected, and there is no callback, then the flush of
  -- the message deletes it and does nothing else.
  pub flush_one-home_absent :
      (msg : BufferedMessage)
      → Dict.get cell s.conns ≡ none
      → H.world.on_message ≡ none
      → flush_one H msg (some (raw pkt)) s
        ≡ (ok tt, record s { db = Storage.delete_buffered msg.message_id s.db })
  unfolding flush_one change_db
  flush_one-home_absent msg absent silent = rw (typed-raw pkt, route-home_absent absent silent) refl

  -- A message for a cell of a name that is not empty, whose home is this node, and which visits
  -- no other and is connected, is sent on the connection of the cell, signed by this node, if
  -- the websocket takes it, and nothing else happens.
  pub route-home_connected :
      {conn : PeerConnection}
      → Dict.get cell s.conns ≡ some conn
      → H.world.send s.contact conn.ws (pack H.codec (raw (signed H pkt))) ≡ ok tt
      → route H pkt s ≡ (ok tt, note (sent conn.ws (pack H.codec (raw (signed H pkt)))) (next s))
  unfolding local_end
  route-home_connected {conn} found took =
      rw route_home (rw deliver_home (rw (send_to-connected H cell conn pkt s found, took) refl))
