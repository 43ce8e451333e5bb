-- ===== src/Invariant/Step.antt =====
-- The runs of a node: each step is one operation that runs to its end, with any behaviour of the
-- outside world. A stable invariant holds of every state that a run can reach.
use zki_nevod.Base.{String, ◌≡◌, sym, subst, Option, List, [], ◌∷◌, ◌++◌, All}
use mathlib.Core.List.{Memᴰ}
use zki_nevod.Base.Keeps.{Keeps, Any}
use zki_nevod.Base.Dict.{Dict}
use zki_nevod.Bytes.{Bytes, hex}
use zki_nevod.Protocol.{Packet}
use zki_nevod.Storage.{Db}
use zki_nevod.Host.{Socket, PeerConnection, Event, spawned, State, Host}
use zki_nevod.Invariant.{Permits, IsAuthentic, IsAllowedEvent, Stable, At}
use zki_nevod.Invariant.Contact.{remove-Keeps}
use zki_nevod.Invariant.Transport.{handle_incoming-Keeps, receive-Keeps}
use zki_nevod.Invariant.Gossip.{round-Keeps}
use zki_nevod.Invariant.Node.{
  dispatch-Keeps, join-Keeps, register_self-Keeps, send_message-Keeps, register_cell_locally-Keeps,
}
use zki_nevod.Transport.{my_id, handle_incoming, receive, remove}
use zki_nevod.Gossip.{round}
use zki_nevod.Node.{dispatch, join, register_self, send_message, register_cell_locally}

-- One operation of a node, run to its end.
pub data Step (H : Host) (s : State) : State → Type 0 where
  -- a connection from outside, its handshake and its messages
  incoming :
      (ws : Socket) (messages : List Bytes)
      → Step H s (handle_incoming H (dispatch H) ws messages s).1
  -- a message on a connection for which a receive loop was started
  received :
      (conn : PeerConnection) (message : Bytes)
      → Memᴰ (spawned conn) s.trace
      → Step H s (receive H (dispatch H) conn message s).1
  -- the end of such a loop
  ended :
      (conn : PeerConnection)
      → Memᴰ (spawned conn) s.trace
      → Step H s (remove conn.peer_node_id s).1
  joined : (address : String) → Step H s (join H address s).1
  created : (address access : String) → Step H s (register_self H address access s).1
  gossiped : Step H s (round H s).1
  sent_message :
      (to : String) (plaintext : Bytes) (from : Option String)
      → Step H s (send_message H to plaintext from s).1
  -- a cell of this node, registered under the name of its key
  registered_locally :
      (id : String) (signing enc : Bytes)
      → id ≡ hex signing
      → Step H s (register_cell_locally H id signing enc s).1

-- No, one or more steps.
pub data Run (H : Host) (s : State) : State → Type 0 where
  start : Run H s s
  then : {t u : State} → Run H s t → Step H t u → Run H s u

All-Mem {ℓ κ} : {A : Type ℓ} (P : A → Type κ) {a : A} (xs : List A) → All P xs → Memᴰ a xs → P a
All-Mem P [] h m = elim m [ ]
All-Mem P (x ∷ xs) (p, h) (Memᴰ.head e) = subst P (sym e) p
All-Mem P (x ∷ xs) (p, h) (Memᴰ.tail m) = All-Mem P xs h m

pub All-append {ℓ κ} :
    {A : Type ℓ} (P : A → Type κ) (xs : List A) (a : A) → All P xs → P a → All P (xs ++ a ∷ [])
All-append P [] a h p = (p, tt)
All-append P (x ∷ xs) a (q, h) p = (q, All-append P xs a h p)

module _ {N : Permits} (Q : Dict PeerConnection → Db → List Event → Type 0) (S : Stable N Q)
    (H : Host) (here : N.me ≡ my_id H)
    (names : (id : String) (key : Bytes) → id ≡ hex key → N.names id key)
    (loops : (s : State) → At Q s → All IsAllowedEvent s.trace) where
  handler-Keeps :
      (pkt : Packet) (conn : PeerConnection)
      → IsAuthentic conn
      → Keeps (At Q) Any (dispatch H pkt conn)
  handler-Keeps pkt conn a =
      dispatch-Keeps Q S H here pkt conn
        (names conn.peer_node_id conn.peer_signing_pubkey a.identity)

  Step-Keeps : (s : State) {t : State} → Step H s t → At Q s → At Q t
  Step-Keeps s (incoming ws messages) h =
      ((handle_incoming-Keeps Q S H (dispatch H) handler-Keeps ws messages).at s h).0
  Step-Keeps s (received conn message started) h =
      ((receive-Keeps Q S H (dispatch H) handler-Keeps conn message
          (All-Mem IsAllowedEvent s.trace (loops s h) started)).at
        s h).0
  Step-Keeps s (ended conn started) h = ((remove-Keeps Q S H conn.peer_node_id).at s h).0
  Step-Keeps s (joined address) h = ((join-Keeps Q S H here address).at s h).0
  Step-Keeps s (created address access) h =
      ((register_self-Keeps Q S H here address access).at s h).0
  Step-Keeps s gossiped h = ((round-Keeps Q S H).at s h).0
  Step-Keeps s (sent_message to plaintext from) h =
      ((send_message-Keeps Q S H here to plaintext from).at s h).0
  Step-Keeps s (registered_locally id signing enc named) h =
      ((register_cell_locally-Keeps Q S H here id signing enc (names id signing named)).at s h).0

  pub Run-Keeps : {s t : State} → Run H s t → At Q s → At Q t
  Run-Keeps start h = h
  Run-Keeps (then {t} run step) h = Step-Keeps t step (Run-Keeps run h)
