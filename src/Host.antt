-- ===== src/Host.antt =====
-- What a running node has and what it changes. `World` is everything outside the program: the clock,
-- random draws, the websockets library and the callback of the embedding application. Each contact
-- with it has a number, and the answers may differ from one number to the next, so a theorem for every
-- `World` holds for every behaviour of the network.
use zki_nevod.Base.{ℕ, ◌+◌, String, Option, none, some, List, [], ◌∷◌, ◌++◌}
use zki_nevod.Base.Outcome.{Result, ok, err}
use zki_nevod.Base.Effects.{Exec}
use zki_nevod.Base.Dict.{Dict}
use zki_nevod.Bytes.{Bytes}
use zki_nevod.Value.{Value}
use zki_nevod.Value.Codec.{Codec}
use zki_nevod.Crypto.Library.{Primitives}
use zki_nevod.Protocol.{Packet}
use zki_nevod.Protocol.Constructors.{Stamp}
use zki_nevod.Identity.{NodeIdentity}
use zki_nevod.Storage.{Db, NodeEntry}

-- A websocket is the number of the contact that opened it, or any other handle.
abbrev pub Socket : Type 0
Socket = ℕ

pub record World : Type 0 where
  -- `int(time.time())`
  pub time : ℕ → ℕ
  -- `str(uuid.uuid4())`
  pub uuid4 : ℕ → String
  -- `os.urandom(n)`
  pub urandom : ℕ → ℕ → Bytes
  -- `websockets.connect(uri)`
  pub connect : ℕ → String → Result Socket
  -- `ws.send(message)` and `ws.recv()`
  pub send : ℕ → Socket → Bytes → Result (Unit {0})
  pub recv : ℕ → Socket → Result Bytes
  -- `random.sample(nodes, k)`
  pub sample : ℕ → ℕ → List NodeEntry → List NodeEntry
  -- `node.on_message`, if there is one
  pub on_message : Option (ℕ → Packet → Result (Unit {0}))

-- class PeerConnection
pub record PeerConnection : Type 0 where
  pub ws : Socket
  pub peer_node_id : String
  pub peer_signing_pubkey : Bytes
  pub peer_enc_pubkey : Value
  pub local_node_id : String

-- What a node does to the world, in order.
pub data Event : Type 0 where
  sent : Socket → Bytes → Event
  handed : Packet → Event
  -- a task that runs `_recv_loop`
  spawned : PeerConnection → Event
  closed : Socket → Event

pub record State : Type 0 where
  pub db : Db
  -- `transport.connections`
  pub conns : Dict PeerConnection
  -- the number of the next contact with the world
  pub contact : ℕ
  pub trace : List Event

-- what a node never changes
pub record Host : Type 0 where
  pub codec : Codec
  pub primitives : Primitives
  pub world : World
  pub identity : NodeIdentity

abbrev pub next : State → State
next s = record s { contact = s.contact + 1 }

abbrev pub note : Event → State → State
note e s = record s { trace = s.trace ++ e ∷ [] }

-- an event that took place if the world did not raise
abbrev pub note_ok {ℓ} : {A : Type ℓ} → Result A → Event → State → State
note_ok (ok a) e s = note e s
note_ok (err x) e s = s

-- `ws.close()`
unfoldable pub ws_close : Socket → Exec State (Unit {0})
ws_close ws s = (ok tt, note (closed ws) s)

unfoldable pub change_db : (Db → Db) → Exec State (Unit {0})
change_db f s = (ok tt, record s { db = f s.db })

unfoldable pub query {ℓ} : {A : Type ℓ} → (Db → A) → State → Result A × State
query f s = (ok (f s.db), s)

module _ (H : Host) where
  unfoldable pub read_clock : Exec State ℕ
  read_clock s = (ok (H.world.time s.contact), next s)

  unfoldable pub new_stamp : Exec State Stamp
  new_stamp s = (ok (record { id = H.world.uuid4 s.contact; ts = H.world.time s.contact }), next s)

  unfoldable pub draw_bytes : ℕ → Exec State Bytes
  draw_bytes n s = (ok (H.world.urandom s.contact n), next s)

  unfoldable pub ws_connect : String → Exec State Socket
  ws_connect uri s = (H.world.connect s.contact uri, next s)

  unfoldable pub ws_send : Socket → Bytes → Exec State (Unit {0})
  ws_send ws message s =
      let r = H.world.send s.contact ws message in (r, note_ok r (sent ws message) (next s))

  unfoldable pub ws_recv : Socket → Exec State Bytes
  ws_recv ws s = (H.world.recv s.contact ws, next s)

  unfoldable pub call_handler :
      Option (ℕ → Packet → Result (Unit {0})) → Packet → Exec State (Unit {0})
  call_handler none pkt s = (ok tt, s)
  call_handler (some handler) pkt s = (handler s.contact pkt, note (handed pkt) (next s))

  -- `if self.node.on_message: await self.node.on_message(pkt)`
  unfoldable pub call_on_message : Packet → Exec State (Unit {0})
  unfolding call_handler
  call_on_message pkt = call_handler H.world.on_message pkt

  unfoldable pub draw_sample : ℕ → List NodeEntry → Exec State (List NodeEntry)
  draw_sample k nodes s = (ok (H.world.sample s.contact k nodes), next s)
