-- ===== src/Invariant/Contact.antt =====
-- A stable invariant, the contacts with the world and the changes of the registry.
use zki_nevod.Base.{ℕ, String, Bool, List}
use zki_nevod.Base.Outcome.{Error, Result, ok, err}
use zki_nevod.Base.Effects.{lift}
use zki_nevod.Base.Keeps.{Keeps, Any, Keeps-pure, Keeps-raise, Keeps-lift, Keeps-Any, Keeps-if}
use zki_nevod.Base.Dict.{Dict}
use zki_nevod.Bytes.{Bytes}
use zki_nevod.Storage.{Db}
use zki_nevod.Host.{
  read_clock, change_db, query, Socket, PeerConnection, Event, State, Host, new_stamp, draw_bytes,
  ws_connect, ws_send, ws_recv, note_ok, sent, spawned,
}
use zki_nevod.Storage.Keys.{Write, apply}
use zki_nevod.Invariant.{IsAllowed, Permits, IsAuthentic, Stable, At}
use zki_nevod.Transport.{add, remove, spawn, raise_if}

module _ {N : Permits} (Q : Dict PeerConnection → Db → List Event → Type 0) (S : Stable N Q)
    (H : Host) where
  pub new_stamp-Keeps : Keeps (At Q) Any (new_stamp H)
  unfolding new_stamp
  new_stamp-Keeps = record { at = λ s h. (h, tt) }

  pub draw_bytes-Keeps : (n : ℕ) → Keeps (At Q) Any (draw_bytes H n)
  unfolding draw_bytes
  draw_bytes-Keeps n = record { at = λ s h. (h, tt) }

  pub ws_connect-Keeps : (uri : String) → Keeps (At Q) Any (ws_connect H uri)
  unfolding ws_connect
  ws_connect-Keeps uri = Keeps-Any _ (λ s h. h)

  pub note_ok-Keeps :
      (r : Result (Unit {0})) (ws : Socket) (message : Bytes) (s : State)
      → At Q s
      → At Q (note_ok r (sent ws message) s)
  note_ok-Keeps (ok a) ws message s h = S.notes (sent ws message) s.conns s.db s.trace tt h
  note_ok-Keeps (err e) ws message s h = h

  pub ws_send-Keeps : (ws : Socket) (message : Bytes) → Keeps (At Q) Any (ws_send H ws message)
  unfolding ws_send
  ws_send-Keeps ws message =
      Keeps-Any _ (λ s h. note_ok-Keeps (H.world.send s.contact ws message) ws message _ h)

  pub ws_recv-Keeps : (ws : Socket) → Keeps (At Q) Any (ws_recv H ws)
  unfolding ws_recv
  ws_recv-Keeps ws = Keeps-Any _ (λ s h. h)

  pub lift-Keeps : {A : Type 0} (r : Result A) → Keeps (At Q) Any (lift r)
  lift-Keeps r = Keeps-lift r (λ a e. tt)

  pub add-Keeps : (conn : PeerConnection) → IsAuthentic conn → Keeps (At Q) Any (add conn)
  unfolding add
  add-Keeps conn a = record { at = λ s h. (S.adds conn s.conns s.db s.trace a h, tt) }

  pub remove-Keeps : (id : String) → Keeps (At Q) Any (remove id)
  unfolding remove
  remove-Keeps id = record { at = λ s h. (S.removes id s.conns s.db s.trace h, tt) }

  pub spawn-Keeps : (conn : PeerConnection) → IsAuthentic conn → Keeps (At Q) Any (spawn conn)
  unfolding spawn
  spawn-Keeps conn a = Keeps-Any _ (λ s h. S.notes (spawned conn) s.conns s.db s.trace a h)

  pub raise_if-Keeps : (b : Bool) (e : Error) → Keeps (At Q) Any (raise_if b e)
  unfolding raise_if
  raise_if-Keeps b e = Keeps-if b _ _ (λ p. Keeps-raise e) (λ p. Keeps-pure tt tt)

  pub read_clock-Keeps : Keeps (At Q) Any (read_clock H)
  unfolding read_clock
  read_clock-Keeps = Keeps-Any _ (λ s h. h)

  pub query-Keeps : {A : Type 0} (f : Db → A) → Keeps (At Q) Any (query f)
  unfolding query
  query-Keeps f = Keeps-Any _ (λ s h. h)

  pub write-Keeps : (w : Write) → IsAllowed N w → Keeps (At Q) Any (change_db (apply w))
  unfolding change_db
  write-Keeps w a = Keeps-Any _ (λ s h. S.writes w s.conns s.db s.trace a h)
