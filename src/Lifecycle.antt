-- ===== src/Lifecycle.antt =====
-- The life of a node: `create`, `create_genesis`, `start` and `stop` of node/node.py with those of
-- node/transport.py, node/gossip.py and node/storage.py. `int` reads ASCII digits alone here, where Python
-- takes the decimal digits of all scripts.
pub mod Laws
use Prim.Native.Char.{Char, code}
use zki_nevod.Base.{
  ℕ, ◌+◌, ◌*◌, ◌-◌, String, Bool, true, false, ◌&&◌, Option, none, some, List, [], ◌∷◌,
  if◌then◌else◌, ◌==◌, leb, map,
}
use zki_nevod.Base.Outcome
use zki_nevod.Base.Outcome.{Error, Result, ok, err, value_error, file_not_found}
use zki_nevod.Base.Effects.{Exec, pure, lift, continue, ◌>>=◌, ◌>>◌}
use zki_nevod.Base.Dict
use zki_nevod.Base.Dict.{Dict}
use zki_nevod.Bytes.{Bytes}
use zki_nevod.Strings.{strip}
use zki_nevod.Crypto.Library.{Primitives}
use zki_nevod.Storage.{Db, empty_db}
use zki_nevod.Identity.{NodeIdentity, generate_node, save_node, load_node}
use zki_nevod.Host.{PeerConnection, State, Host, ws_close}
use zki_nevod.Transport.{all, remove}
use zki_nevod.Node.{register_self}

unfoldable pub cons_last : Char → String → Option (String × String) → Option (String × String)
cons_last c s none = if code c == b':' then some (String.[], s) else none
cons_last c s (some (h, p)) = some (String.◌∷◌ c h, p)

-- `address.rsplit(":", 1)`, or nothing where there is no ":"
unfoldable pub split_last : String → Option (String × String)
split_last String.[] = none
split_last (String.◌∷◌ c s) = cons_last c s (split_last s)

-- the digits of `int(s)`, with an underscore between two of them: whether a digit came last, and the number so far
unfoldable pub digits_from : Bool → ℕ → String → Option ℕ
digits_from last n String.[] = if last then some n else none
digits_from last n (String.◌∷◌ c s) =
    let more = digits_from true (n * 10 + (code c - b'0')) s in
    let skip = digits_from false n s in
    if leb b'0' (code c) && leb (code c) b'9'
    then more
    else if code c == b'_' && last
    then skip
    else none

-- a number with its sign, `true` for the minus
unfoldable pub signed_as : Bool → Option ℕ → Result (Bool × ℕ)
signed_as minus none = err value_error
signed_as minus (some n) = ok (minus, n)

unfoldable pub read_sign : String → Result (Bool × ℕ)
read_sign String.[] = err value_error
read_sign (String.◌∷◌ c s) =
    if code c == b'-'
    then signed_as true (digits_from false 0 s)
    else if code c == b'+'
    then signed_as false (digits_from false 0 s)
    else signed_as false (digits_from false 0 (String.◌∷◌ c s))

-- `int(s)`
unfoldable pub parse_int : String → Result (Bool × ℕ)
parse_int s = read_sign (strip s)

unfoldable pub with_port : Option (String × String) → Result (String × (Bool × ℕ))
with_port none = err value_error
with_port (some (host, port)) = Outcome.◌>>=◌ (parse_int port) (λ n. ok (host, n))

-- `_split_address`
unfoldable pub split_address : String → Result (String × (Bool × ℕ))
split_address address = with_port (split_last address)

-- A node as it runs: `_server`, the gossip task and `_db` may be `None`. `accepted` are the authenticated
-- connections from outside whose `_handle_incoming` runs, in the order in which the closing of the server
-- ends them.
pub record Process : Type 0 where
  pub state : State
  pub server : Option (String × (Bool × ℕ))
  pub accepted : List PeerConnection
  pub gossiping : Bool
  pub is_open : Bool

unfoldable pub in_state : {A : Type 0} → Exec State A → Exec Process A
in_state m s = let (r, t) = m s.state in (r, record s { state = t })

-- GossipEngine.start and stop
unfoldable pub start_gossip : Exec Process (Unit {0})
start_gossip s = (ok tt, record s { gossiping = true })

unfoldable pub stop_gossip : Exec Process (Unit {0})
stop_gossip s = (ok tt, record s { gossiping = false })

-- Storage.close
unfoldable pub close_storage : Exec Process (Unit {0})
close_storage s = (ok tt, record s { is_open = false })

unfoldable pub close_all : List PeerConnection → Exec State (Unit {0})
close_all [] = pure tt
close_all (c ∷ conns) = do ws_close c.ws; close_all conns

-- the `finally` of `_handle_incoming` for each connection that ends
unfoldable pub end_handlers : List PeerConnection → Exec State (Unit {0})
end_handlers [] = pure tt
end_handlers (c ∷ conns) = do remove c.peer_node_id; end_handlers conns

-- `close` and `wait_closed` of a server, which the websockets library does: it closes what it accepted and
-- waits until the handlers have ended. `_server` keeps its value.
unfoldable pub close_listening : Option (String × (Bool × ℕ)) → Exec Process (Unit {0})
close_listening none s = (ok tt, s)
close_listening (some endpoint) s =
    let (r, t) = end_handlers s.accepted s.state in (r, record s { state = t; accepted = [] })

unfoldable pub close_server : Exec Process (Unit {0})
close_server s = close_listening s.server s

-- Transport.stop
unfoldable pub stop_transport : Exec Process (Unit {0})
stop_transport = do close_server; in_state (do conns ← all; close_all conns)

-- `Storage.open`: the tables are created where they are not there
unfoldable pub open_db : Option Db → Db
open_db none = empty_db
open_db (some db) = db

-- a node object on an open database
unfoldable pub new_process : Db → Process
new_process db = record {
  state = record { db = db; conns = []; contact = 0; trace = [] };
  server = none;
  accepted = [];
  gossiping = false;
  is_open = true;
}

unfoldable pub set_server : String × (Bool × ℕ) → Result (Unit {0}) → Exec Process (Unit {0})
set_server endpoint (err e) s = (err e, s)
set_server endpoint (ok a) s = (ok tt, record s { server = some endpoint })

-- with `websockets.serve`, which may raise
module _ (serve : String × (Bool × ℕ) → Result (Unit {0})) where
  -- Transport.start
  unfoldable pub start_transport : String × (Bool × ℕ) → Exec Process (Unit {0})
  start_transport endpoint = set_server endpoint (serve endpoint)

  unfoldable pub start : NodeIdentity → Exec Process (Unit {0})
  start identity = do
    endpoint ← lift (split_address identity.address)
    start_transport endpoint
    start_gossip

unfoldable pub stop : Exec Process (Unit {0})
stop = do stop_gossip; stop_transport; close_storage

unfoldable pub identity_of : Primitives → Option (Dict String) → Result NodeIdentity
identity_of P none = err file_not_found
identity_of P (some d) = load_node P d

-- Node.create, on the files at the two paths
unfoldable pub create :
    Primitives → Option (Dict String) → Option Db → Result (NodeIdentity × Process)
create P file database =
    Outcome.◌>>=◌ (identity_of P file) (λ identity. ok (identity, new_process (open_db database)))

-- Node.create_genesis with the two keys that are drawn: the node, the identity file and the process
pub record Genesis : Type 0 where
  pub host : Host
  pub file : Dict String
  pub result : Result (Unit {0})
  pub process : Process

unfoldable pub genesis_of : Host → String → String → Option Db → Genesis
genesis_of H address access database =
    let (r, p) = in_state (register_self H address access) (new_process (open_db database)) in
    record { host = H; file = save_node H.identity; result = r; process = p }

unfoldable pub create_genesis : Host → Bytes → Bytes → String → String → Option Db → Genesis
create_genesis H signing_priv enc_priv address access database =
    genesis_of
      (record H {
        identity = generate_node H.primitives signing_priv enc_priv address "permanent" access;
      })
      address access database
