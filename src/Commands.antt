-- ===== src/Commands.antt =====
-- nevod.py: the commands of the command line, on the identity files and the databases by their paths.
-- The keys that are drawn are arguments, and so is what happens to a running node until a signal comes.
-- Defaults of the options are click's work and not modelled.
pub mod Laws
use zki_nevod.Base.{ℕ, String, ◌<>◌, Bool, Option, none, some, List, [], ◌∷◌, ◌++◌}
use zki_nevod.Base.Outcome.{Error, Result, ok, err}
use zki_nevod.Base.Effects.{Exec, pure, raise, lift, continue, ◌>>=◌, ◌>>◌}
use zki_nevod.Base.Dict
use zki_nevod.Base.Dict.{Dict}
use zki_nevod.Bytes.{Bytes, hex}
use zki_nevod.Strings.{take}
use zki_nevod.Crypto.Library.{Primitives}
use zki_nevod.Storage.{Db}
use zki_nevod.Identity.{
  NodeIdentity, CellIdentity, node_id, cell_id, generate_node, generate_cell, save_node, save_cell,
  load_node, load_cell,
}
use zki_nevod.Host.{State, Host}
use zki_nevod.Node.{join}
use zki_nevod.Shell.{Output, echo, complain}
use zki_nevod.Lifecycle
use zki_nevod.Lifecycle.{Process, Genesis, in_state, stop}

pub record Machine : Type 0 where
  -- the JSON files, and the database files
  pub files : Dict (Dict String)
  pub databases : Dict Db
  pub output : List Output

unfoldable pub print : List Output → Exec Machine (Unit {0})
print lines s = (ok tt, record s { output = s.output ++ lines })

unfoldable pub write_file : String → Dict String → Exec Machine (Unit {0})
write_file path d s = (ok tt, record s { files = Dict.put path d s.files })

-- what was committed to a database
unfoldable pub write_db : String → Process → Exec Machine (Unit {0})
write_db path p s = (ok tt, record s { databases = Dict.put path p.state.db s.databases })

unfoldable pub init_lines : NodeIdentity → String → String → String → String → List Output
init_lines i address node_type access out =
    echo ("node_id : " <> node_id i)
    ∷ echo ("address : " <> address)
    ∷ echo ("type    : " <> (node_type <> (" / " <> access)))
    ∷ echo ("saved   : " <> out)
    ∷ []

unfoldable pub info_lines : NodeIdentity → List Output
info_lines i =
    echo ("node_id : " <> node_id i)
    ∷ echo ("address : " <> i.address)
    ∷ echo ("type    : " <> (i.node_type <> (" / " <> i.access)))
    ∷ echo ("enc_pub : " <> hex i.encryption.public)
    ∷ []

-- the exit status `0`, or `sys.exit(1)` where there is no file
unfoldable pub show_node : Primitives → String → Option (Dict String) → Exec Machine ℕ
show_node P identity none = do print (complain ("not found: " <> identity) ∷ []); pure 1
show_node P identity (some d) = do i ← lift (load_node P d); print (info_lines i); pure 0

unfoldable pub info : Primitives → String → Exec Machine ℕ
info P identity s = show_node P identity (Dict.get identity s.files) s

unfoldable pub init :
    Primitives → Bytes → Bytes → String → String → String → String → Exec Machine ℕ
init P signing_priv enc_priv address out node_type access = do
  let i = generate_node P signing_priv enc_priv address node_type access
  write_file out (save_node i)
  print (init_lines i address node_type access out)
  pure 0

-- `f"{name}.cell.json"` where `--out` is not given
unfoldable pub cell_file : String → Option String → String
cell_file name none = name <> ".cell.json"
cell_file name (some out) = out

unfoldable pub cell_init_lines : CellIdentity → String → String → List Output
cell_init_lines i name out =
    echo ("name    : " <> name)
    ∷ echo ("cell_id : " <> cell_id i)
    ∷ echo ("enc_pub : " <> hex i.encryption.public)
    ∷ echo ("saved   : " <> out)
    ∷ []

unfoldable pub cell_info_lines : CellIdentity → List Output
cell_info_lines i =
    echo ("name    : " <> i.name)
    ∷ echo ("cell_id : " <> cell_id i)
    ∷ echo ("enc_pub : " <> hex i.encryption.public)
    ∷ []

unfoldable pub show_cell : Primitives → String → Option (Dict String) → Exec Machine ℕ
show_cell P identity none = do print (complain ("not found: " <> identity) ∷ []); pure 1
show_cell P identity (some d) = do i ← lift (load_cell P d); print (cell_info_lines i); pure 0

unfoldable pub cell_info : Primitives → String → Exec Machine ℕ
cell_info P identity s = show_cell P identity (Dict.get identity s.files) s

unfoldable pub cell_init : Primitives → Bytes → Bytes → String → Option String → Exec Machine ℕ
cell_init P signing_priv enc_priv name out = do
  let i = generate_cell P signing_priv enc_priv name
  write_file (cell_file name out) (save_cell i)
  print (cell_init_lines i name (cell_file name out))
  pure 0

unfoldable pub genesis_lines : NodeIdentity → String → String → String → List Output
genesis_lines i address identity_path db_path =
    echo ("genesis node: " <> node_id i)
    ∷ echo ("address     : " <> address)
    ∷ echo ("identity    → " <> identity_path)
    ∷ echo ("database    → " <> db_path)
    ∷ []

unfoldable pub start_lines : NodeIdentity → List Output
start_lines i =
    echo ("node : " <> (take 16 (node_id i) <> "...")) ∷ echo "running — Ctrl+C to stop" ∷ []

unfoldable pub join_lines : NodeIdentity → String → List Output
join_lines i bootstrap_addr =
    echo ("node : " <> (take 16 (node_id i) <> "..."))
    ∷ echo ("joined via " <> bootstrap_addr)
    ∷ echo "running — Ctrl+C to stop"
    ∷ []

-- a step of the node, whose writes are on the disk also where it raises
unfoldable pub on_node : String → Exec Process (Unit {0}) → Process → Exec Machine Process
on_node db_path m p s = let (r, q) = m p in (do write_db db_path q; lift r; pure q) s

-- A node on its files; its identity is that of the file.
unfoldable pub created : Host → String → String → Machine → Result (NodeIdentity × Process)
created H identity_path db_path s =
    Lifecycle.create H.primitives (Dict.get identity_path s.files) (Dict.get db_path s.databases)

module _ (serve : String × (Bool × ℕ) → Result (Unit {0})) (meanwhile : Process → Process) where
  -- `_run_until_signal`
  unfoldable pub run_until_signal : String → Process → Exec Machine (Unit {0})
  run_until_signal db_path p = do
    print (echo "\nstopping..." ∷ [])
    on_node db_path stop (meanwhile p)
    pure tt

  unfoldable pub run_genesis : String → Genesis → String → String → Exec Machine (Unit {0})
  run_genesis address g identity_path db_path = do
    lift g.result
    print (genesis_lines g.host.identity address identity_path db_path)
    p ← on_node db_path (Lifecycle.start serve g.host.identity) g.process
    print (echo "node running — Ctrl+C to stop" ∷ [])
    run_until_signal db_path p

  unfoldable pub after_create : String → Genesis → String → String → Exec Machine (Unit {0})
  after_create address g identity_path db_path = do
    write_file identity_path g.file
    write_db db_path g.process
    run_genesis address g identity_path db_path

  unfoldable pub genesis :
      Host → Bytes → Bytes → String → String → String → String → Exec Machine (Unit {0})
  genesis H signing_priv enc_priv address identity_path db_path access s =
      after_create address
        (Lifecycle.create_genesis H signing_priv enc_priv address access
          (Dict.get db_path s.databases))
        identity_path db_path s

  unfoldable pub start : Host → String → String → Exec Machine (Unit {0})
  start H identity_path db_path s =
      (do
        (identity, p) ← lift (created H identity_path db_path s)
        q ← on_node db_path (Lifecycle.start serve identity) p
        print (start_lines identity)
        run_until_signal db_path q)
        s

  unfoldable pub join_network : Host → String → String → String → Exec Machine (Unit {0})
  join_network H bootstrap_addr identity_path db_path s =
      (do
        (identity, p) ← lift (created H identity_path db_path s)
        q ← on_node db_path (Lifecycle.start serve identity) p
        joined ←
            on_node db_path (in_state (join (record H { identity = identity }) bootstrap_addr)) q
        print (join_lines identity bootstrap_addr)
        run_until_signal db_path joined)
        s
