-- ===== src/Shell.antt =====
-- nevod.py: the interactive chat of `nevod cell connect`. A line that `sys.stdin.readline` returns, an
-- interrupt of it or an exception that it raises comes with what the receive task of the client gets while
-- the prompt waits. What
-- `on_message` prints is the `delivered` event of the client. Messages of exceptions are not modelled:
-- what is printed holds the exception.
pub mod Contacts
pub mod Session
pub mod Lines
pub mod Chat
pub mod Sends
use zki_nevod.Base.{
  ℕ, zero, suc, ◌+◌, String, ◌<>◌, Bool, true, false, ◌||◌, Option, none, some, List, [], ◌∷◌, ◌++◌,
  if◌then◌else◌, str_eq, is_empty, length, ◌==◌,
}
use zki_nevod.Base.Outcome
use zki_nevod.Base.Outcome.{Error, Result, ok, err, value_error}
use zki_nevod.Base.Effects.{Exec, pure, raise, lift, continue, ◌>>=◌, ◌>>◌}
use zki_nevod.Base.Dict
use zki_nevod.Base.Dict.{Dict}
use zki_nevod.Bytes.{Bytes, hex, from_hex, encode}
use zki_nevod.Strings.{strip, split, drop_prefix, split_once, take}
use zki_nevod.Identity.{CellIdentity, cell_id, load_cell}
use zki_nevod.Host.{Socket}
use zki_nevod.Router.{split_at}
use zki_nevod.Client
use zki_nevod.Client.{Client, ClientState, Task, idle, scheduled, running, begin, forget}

-- a value of `contacts`
pub record Contact : Type 0 where
  pub cell_id : String
  pub node_id : String
  pub enc_pub : Bytes

-- what the shell prints
pub data Output : Type 0 where
  echo : String → Output
  -- to the standard error
  complain : String → Output
  -- "> " without a new line
  prompt : Output
  bad_enc_pub : Error → Output
  send_error : Error → Output
  connect_failed : Error → Output

pub record ShellState : Type 0 where
  pub client : ClientState
  pub contacts : Dict Contact
  pub output : List Output

-- `continue` or `break`
pub data Flow : Type 0 where
  go_on leave : Flow

-- what the receive task gets
pub data Arrival : Type 0 where
  message : Bytes → Arrival
  closing : Arrival

-- What `readline` does; the empty text is the end of the input. `EOFError`, `KeyboardInterrupt` and a
-- cancellation are `interrupted`, any other exception, as for bytes that do not decode, is `failed`.
pub data Input : Type 0 where
  typed : String → Input
  interrupted : Input
  failed : Error → Input

pub record Turn : Type 0 where
  pub arrivals : List Arrival
  pub input : Input

unfoldable pub print : Output → Exec ShellState (Unit {0})
print o s = (ok tt, record s { output = s.output ++ o ∷ [] })

unfoldable pub on_client : {A : Type 0} → Exec ClientState A → Exec ShellState A
on_client m s = let (r, t) = m s.client in (r, record s { client = t })

unfoldable pub split_addr_at : String → String → Option (String × String) → String × String
split_addr_at addr_str default_node_id none = (addr_str, default_node_id)
split_addr_at addr_str default_node_id (some parts) = parts

-- `_split_addr`
unfoldable pub split_addr : String → String → String × String
split_addr addr_str default_node_id = split_addr_at addr_str default_node_id (split_at addr_str)

-- the body of the `try` that reads a key
unfoldable pub enc_pub_of : String → Result Bytes
enc_pub_of enc_hex =
    Outcome.◌>>=◌ (from_hex enc_hex)
      λ enc_pub. if length enc_pub == 32 then ok enc_pub else err value_error

-- `line in ("/quit", "/exit", "quit", "exit")`
unfoldable pub is_quit : String → Bool
is_quit line =
    str_eq line "/quit" || str_eq line "/exit" || str_eq line "quit" || str_eq line "exit"

unfoldable pub contact_line : String → Contact → String
contact_line alias c =
    "  " <> (alias <> (": " <> (take 16 c.cell_id <> ("...@" <> (take 16 c.node_id <> "...")))))

unfoldable pub print_contacts : Dict Contact → Exec ShellState (Unit {0})
print_contacts [] = pure tt
print_contacts ((alias, c) ∷ rest) = do print (echo (contact_line alias c)); print_contacts rest

unfoldable pub list_contacts : Dict Contact → Exec ShellState (Unit {0})
list_contacts [] = print (echo "  (no contacts)")
list_contacts (c ∷ rest) = print_contacts (c ∷ rest)

unfoldable pub put_contact : String → Contact → Exec ShellState (Unit {0})
put_contact alias c s = (ok tt, record s { contacts = Dict.put alias c s.contacts })

unfoldable pub save_contact : String → String × String → Result Bytes → Exec ShellState (Unit {0})
save_contact alias addr (err e) = print (bad_enc_pub e)
save_contact alias (to_cell_id, to_node_id) (ok enc_pub) = do
  put_contact alias (record { cell_id = to_cell_id; node_id = to_node_id; enc_pub = enc_pub })
  print (echo ("  saved: " <> alias))

-- `/add` with the words behind it
unfoldable pub add_contact : List String → Exec ShellState (Unit {0})
add_contact (alias ∷ addr_str ∷ enc_hex ∷ []) s =
    save_contact alias (split_addr addr_str s.client.node_id) (enc_pub_of enc_hex) s
add_contact parts s = print (echo "  usage: /add <alias> <cell_id>[@<node_id>] <enc_pub_hex>") s

-- whom a line with ": " in it is for
pub data Recipient : Type 0 where
  reached : Contact → Recipient
  bad_key : Error → Recipient
  unknown : Recipient

unfoldable pub with_key : String × String → Result Bytes → Recipient
with_key addr (err e) = bad_key e
with_key (to_cell_id, to_node_id) (ok enc_pub) =
    reached (record { cell_id = to_cell_id; node_id = to_node_id; enc_pub = enc_pub })

-- `<addr> <enc_pub>`
unfoldable pub direct : String → Option (String × String) → Recipient
direct default_node_id none = unknown
direct default_node_id (some (addr_str, enc_hex)) =
    with_key (split_addr addr_str default_node_id) (enc_pub_of (strip enc_hex))

unfoldable pub known_or : Option Contact → Recipient → Recipient
known_or none r = r
known_or (some c) r = reached c

unfoldable pub recipient_of : String → ShellState → Recipient
recipient_of head s =
    known_or (Dict.get head s.contacts) (direct s.client.node_id (split_once " " head))

-- the end of the `try` that sends
unfoldable pub report : Result (Unit {0}) → Exec ShellState (Unit {0})
report (ok a) = print (echo "  [sent]")
report (err e) = print (send_error e)

module _ (K : Client) where
  -- `cell.connected`
  unfoldable pub is_connected : Option Socket → Exec ClientState Bool
  is_connected none s = (ok false, s)
  is_connected (some ws) s = (ok (K.is_open s.contact ws), record s { contact = s.contact + 1 })

  unfoldable pub send_to : String → String → Recipient → Exec ShellState (Unit {0})
  send_to head text unknown s =
      print (echo ("  unknown alias '" <> (head <> "' — use /add or provide enc_pub"))) s
  send_to head text (bad_key e) s = print (bad_enc_pub e) s
  send_to head text (reached c) s =
      let (r, t) = on_client (Client.send K c.cell_id c.node_id c.enc_pub (encode text)) s in
      report r t

  -- a line that is no command
  unfoldable pub say : Option (String × String) → Exec ShellState (Unit {0})
  say none s = print (echo "  ?  type /quit to exit or see usage above") s
  say (some (head, text)) s = send_to (strip head) text (recipient_of (strip head) s) s

  unfoldable pub add_or_say : String → Option String → Exec ShellState (Unit {0})
  add_or_say line (some rest) = add_contact (split rest)
  add_or_say line none = say (split_once ": " line)

  -- a line that is neither empty nor an order to leave
  unfoldable pub command : String → Exec ShellState (Unit {0})
  command line s =
      (if str_eq line "/contacts"
          then list_contacts s.contacts
          else add_or_say line (drop_prefix "/add " line))
        s

  -- a line without the white space around it
  unfoldable pub read_stripped : String → Exec ShellState Flow
  read_stripped line =
      if is_empty line
      then pure go_on
      else if is_quit line
      then pure leave
      else do command line; pure go_on

  unfoldable pub read_line : String → Exec ShellState Flow
  read_line line = if is_empty line then pure leave else read_stripped (strip line)

  unfoldable pub read_input : Input → Exec ShellState Flow
  read_input interrupted = pure leave
  read_input (failed e) = raise e
  read_input (typed line) = read_line line

  -- The receive task takes what arrives if it runs.
  unfoldable pub on_task : Task → Arrival → Exec ClientState (Unit {0})
  on_task idle a s = pure tt s
  on_task t closing s = forget K s
  on_task t (message b) s = let (r, u) = Client.receive K b s in Client.after K r (pure tt) u

  unfoldable pub arrive : Arrival → Exec ClientState (Unit {0})
  arrive a s = (do begin K s.task; λ t. on_task t.task a t) s

  unfoldable pub arrive_all : List Arrival → Exec ClientState (Unit {0})
  arrive_all [] = pure tt
  arrive_all (a ∷ arrivals) = do arrive a; arrive_all arrivals

  unfoldable pub follow : Flow → Exec ShellState (Unit {0}) → Exec ShellState (Unit {0})
  follow leave rest = pure tt
  follow go_on rest = rest

  unfoldable pub take_turn : Turn → Exec ShellState Flow
  take_turn turn = do print prompt; on_client (arrive_all turn.arrivals); read_input turn.input

  -- the `while` loop; the turns end with the input
  unfoldable pub repl : List Turn → Exec ShellState (Unit {0})
  repl [] s = pure tt s
  repl (turn ∷ turns) s =
      (do
        connected ← on_client (is_connected s.client.ws)
        if connected then (do flow ← take_turn turn; follow flow (repl turns)) else pure tt)
        s

  -- `try: m` with a `finally: f`
  unfoldable pub finally :
      Exec ShellState (Unit {0}) → Exec ShellState (Unit {0}) → Exec ShellState (Unit {0})
  finally m f s = let (r, t) = m s in let (q, u) = f t in (Outcome.◌>>◌ q r, u)

  unfoldable pub chat : List Turn → Exec ShellState (Unit {0})
  chat turns =
      finally (repl turns) do print (echo "\ndisconnecting..."); on_client (Client.disconnect K)

  unfoldable pub banner : String → List Output
  banner node_addr =
      echo ("connected : " <> node_addr)
      ∷ echo ("cell_id   : " <> cell_id K.identity)
      ∷ echo ("enc_pub   : " <> hex K.identity.encryption.public)
      ∷ echo ""
      ∷ echo "  /add <alias> <cell_id>[@<node>] <enc_pub>"
      ∷ echo "  /contacts"
      ∷ echo "  <alias>: <msg>   OR   <cell_id>[@<node>] <enc_pub>: <msg>"
      ∷ echo "  /quit"
      ∷ echo ""
      ∷ []

  unfoldable pub new_client : ClientState
  new_client = record {
    ws = none;
    node_id = "";
    node_signing_pubkey = [];
    task = idle;
    contact = 0;
    trace = [];
  }

  -- the exit status, what was printed and what became of the client
  unfoldable pub after_connect :
      String → List Turn → Result (Unit {0}) × ClientState → Result ℕ × ShellState
  after_connect node_addr turns (err e, t) =
      (ok 1, record { client = t; contacts = []; output = connect_failed e ∷ [] })
  after_connect node_addr turns (ok a, t) =
      (do chat turns; pure 0) (record { client = t; contacts = []; output = banner node_addr })

  unfoldable pub converse : String → List Turn → Result ℕ × ShellState
  converse node_addr turns =
      after_connect node_addr turns (Client.connect K node_addr none new_client)

-- `_cell_connect` with the identity file, if there is one
unfoldable pub cell_connect :
    Client → String → Option (Dict String) → String → List Turn → Result ℕ × List Output
cell_connect K identity_path none node_addr turns =
    (ok 1, complain ("not found: " <> identity_path) ∷ [])
cell_connect K identity_path (some d) node_addr turns = elim (load_cell K.primitives d) [
  | err e ↦ (err e, [])
  | ok idt ↦ let (r, t) = converse (record K { identity = idt }) node_addr turns in (r, t.output)
]
