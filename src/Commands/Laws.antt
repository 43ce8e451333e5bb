-- ===== src/Commands/Laws.antt =====
-- What one command of nevod.py makes of the files that another one wrote.
use zki_nevod.Base.{ℕ, String, ◌≡◌, refl, ap, ◌∙◌, Bool, Option, some, List, ◌++◌, eq_refl}
use zki_nevod.Base.Outcome.{Result, ok}
use zki_nevod.Base.Effects.{Exec, pure, lift, ◌>>◌}
use zki_nevod.Base.Keeps.{Keeps, Any, Keeps-Any, Keeps-pure, Keeps-lift, Keeps-bind}
use zki_nevod.Base.Dict
use zki_nevod.Base.Dict.{Dict, get-put}
use zki_nevod.Bytes.{Bytes}
use zki_nevod.Crypto.Library.{Primitives}
use zki_nevod.Identity.{generate_node, generate_cell, save_node, save_cell}
use zki_nevod.Identity.Files.{AreKeys, load_node-save_node, load_cell-save_cell}
use zki_nevod.Host.{Host}
use zki_nevod.Shell.{Output}
use zki_nevod.Lifecycle
use zki_nevod.Lifecycle.{Process, Genesis, new_process, open_db}
use zki_nevod.Commands.{
  Machine, print, write_file, write_db, init_lines, info_lines, show_node, info, init, cell_file,
  cell_init_lines, cell_info_lines, show_cell, cell_info, cell_init, on_node, run_until_signal,
  run_genesis, after_create, genesis, created,
}

get-put_same : {V : Type 0} (k : String) (v : V) (d : Dict V) → Dict.get k (Dict.put k v d) ≡ some v
get-put_same k v d = get-put k k v d ∙ rw (eq_refl k) refl

module _ (P : Primitives) (signing_priv enc_priv : Bytes) where
  -- After `nevod init`, `nevod info` on the file that was written shows the identity that was drawn, with
  -- the address, type and access that were given, and exits with 0, if the keys are byte strings that the
  -- library takes.
  pub info-init :
      (address out node_type access : String) (s : Machine)
      → AreKeys P
          (generate_node P signing_priv enc_priv address node_type access).signing
          (generate_node P signing_priv enc_priv address node_type access).encryption
      → (do init P signing_priv enc_priv address out node_type access; info P out) s ≡ (
        ok 0,
        record s {
          files =
              Dict.put out
                (save_node (generate_node P signing_priv enc_priv address node_type access))
                s.files;
          output =
              (s.output
                ++ init_lines
                    (generate_node P signing_priv enc_priv address node_type access)
                    address
                    node_type
                    access
                    out)
              ++ info_lines (generate_node P signing_priv enc_priv address node_type access);
        },
      )
  unfolding init info show_node write_file print
  info-init address out node_type access s keys =
      let i = generate_node P signing_priv enc_priv address node_type access in
      rw (get-put_same out (save_node i) s.files, load_node-save_node P i keys) refl

  -- After `nevod cell init`, `nevod cell info` on the file that was written shows the identity that was
  -- drawn and exits with 0, if the keys are byte strings that the library takes.
  pub cell_info-cell_init :
      (name : String) (out : Option String) (s : Machine)
      → AreKeys P
          (generate_cell P signing_priv enc_priv name).signing
          (generate_cell P signing_priv enc_priv name).encryption
      → (do cell_init P signing_priv enc_priv name out; cell_info P (cell_file name out)) s ≡ (
        ok 0,
        record s {
          files =
              Dict.put
                (cell_file name out)
                (save_cell (generate_cell P signing_priv enc_priv name))
                s.files;
          output =
              (s.output
                ++ cell_init_lines
                    (generate_cell P signing_priv enc_priv name)
                    name
                    (cell_file name out))
              ++ cell_info_lines (generate_cell P signing_priv enc_priv name);
        },
      )
  unfolding cell_init cell_info show_cell write_file print
  cell_info-cell_init name out s keys =
      let i = generate_cell P signing_priv enc_priv name in
      rw (get-put_same (cell_file name out) (save_cell i) s.files, load_cell-save_cell P i keys)
        refl

module _ (path : String) (file : Dict String) where
  abbrev HasFile : Machine → Type 0
  HasFile s = Dict.get path s.files ≡ some file

  print-Keeps : (lines : List Output) → Keeps HasFile Any (print lines)
  unfolding print
  print-Keeps lines = Keeps-Any (print lines) (λ s h. h)

  finish-Keeps : (r : Result (Unit {0})) (q : Process) → Keeps HasFile Any (do lift r; pure q)
  finish-Keeps r q =
      Keeps-bind (lift r) _ (Keeps-lift {R = Any} r (λ a same. tt)) (λ _ _. Keeps-pure q tt)

  on_node-Keeps :
      (db_path : String) (m : Exec Process (Unit {0})) (p : Process)
      → Keeps HasFile Any (on_node db_path m p)
  unfolding on_node write_db
  on_node-Keeps db_path m p =
      Keeps-Any (on_node db_path m p)
        λ s h. ((finish-Keeps (m p).0 (m p).1).at (write_db db_path (m p).1 s).1 h).0

  module _ (serve : String × (Bool × ℕ) → Result (Unit {0})) (meanwhile : Process → Process) where
    run_until_signal-Keeps :
        (db_path : String) (p : Process)
        → Keeps HasFile Any (run_until_signal serve meanwhile db_path p)
    unfolding run_until_signal
    run_until_signal-Keeps db_path p =
        Keeps-bind _ _ (print-Keeps _)
          λ _ _. Keeps-bind _ _ (on_node-Keeps db_path _ _) (λ _ _. Keeps-pure tt tt)

    run_genesis-Keeps :
        (address db_path : String) (g : Genesis)
        → Keeps HasFile Any (run_genesis serve meanwhile address g path db_path)
    unfolding run_genesis
    run_genesis-Keeps address db_path g =
        Keeps-bind (lift g.result) _ (Keeps-lift {R = Any} g.result (λ a same. tt)) λ _ _.
          Keeps-bind _ _ (print-Keeps _) λ _ _.
            Keeps-bind _ _ (on_node-Keeps db_path _ _)
              λ p _. Keeps-bind _ _ (print-Keeps _) (λ _ _. run_until_signal-Keeps db_path p)

    after_create-HasFile :
        (address db_path : String) (g : Genesis) (s : Machine)
        → g.file ≡ file
        → HasFile (after_create serve meanwhile address g path db_path s).1
    unfolding after_create write_file write_db
    after_create-HasFile address db_path g s same =
        ((run_genesis-Keeps address db_path g).at _
          (get-put_same path g.file s.files ∙ ap some same)).0

-- The process that a command makes of a database file that may not be there.
module _ (serve : String × (Bool × ℕ) → Result (Unit {0})) (meanwhile : Process → Process)
    (H : Host) (signing_priv enc_priv : Bytes) where
  -- After `nevod genesis`, however the node came to its end, a start with the same identity file makes a
  -- node of the identity that was drawn, on what the database file then holds, if the keys are byte
  -- strings that the library takes.
  pub created-genesis :
      (address identity_path db_path access : String) (s : Machine)
      → AreKeys H.primitives
          (generate_node H.primitives signing_priv enc_priv address "permanent" access).signing
          (generate_node H.primitives signing_priv enc_priv address "permanent" access).encryption
      → created H identity_path db_path
          (genesis serve meanwhile H signing_priv enc_priv address identity_path db_path access s).1
        ≡ ok (
          generate_node H.primitives signing_priv enc_priv address "permanent" access,
          new_process (
              open_db (
                Dict.get db_path
                  (genesis serve meanwhile H signing_priv enc_priv address identity_path db_path
                    access s).1.databases)),
        )
  unfolding created genesis Lifecycle.create Lifecycle.identity_of Lifecycle.create_genesis
      Lifecycle.genesis_of
  created-genesis address identity_path db_path access s keys =
      let i = generate_node H.primitives signing_priv enc_priv address "permanent" access in
      rw
        (
          after_create-HasFile identity_path (save_node i) serve meanwhile address db_path
              (Lifecycle.create_genesis H signing_priv enc_priv address access
                (Dict.get db_path s.databases))
              s refl,
          load_node-save_node H.primitives i keys,
        )
        refl
