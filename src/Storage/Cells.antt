-- ===== src/Storage/Cells.antt =====
-- Cells and their presence in node/storage.py.
use zki_nevod.Base.{
  ℕ, String, ◌≡◌, refl, Bool, Option, none, some, str_eq, eq_iff, if◌then◌else◌, arith,
}
use zki_nevod.Bytes.{Bytes}
use zki_nevod.Storage.Table.Laws.{find-upsert, find-HasKey}
use zki_nevod.Storage.{
  CellEntry, Db, cell_key, presence_key, merge_cell, merge_presence, register_cell, get_cell,
  update_presence, get_presence,
}

-- What a registration makes of the cell that was known.
abbrev pub registered : ℕ → String → Bytes → Bytes → Bool → Option CellEntry → CellEntry
registered now id signing enc is_home none = record {
  cell_id = id;
  signing_pubkey = signing;
  enc_pubkey = enc;
  registered_at = now;
  is_home = is_home;
}
registered now id signing enc is_home (some old) = record old {
  signing_pubkey = signing;
  enc_pubkey = enc;
}

-- A registration sets both keys of a cell and keeps the date and the home flag of the first
-- registration, if there was one, and no other cell changes.
pub get_cell-register_cell :
    (now : ℕ) (id k : String) (signing enc : Bytes) (is_home : Bool) (db : Db)
    → get_cell k (register_cell now id signing enc is_home db) ≡ (
        if str_eq id k
        then some (registered now id signing enc is_home (get_cell k db))
        else get_cell k db)
unfolding get_cell register_cell
get_cell-register_cell now id k signing enc is_home db =
    rw (find-upsert cell_key merge_cell _ k db.cells (λ r. refl)) (ground arith)

-- A presence update replaces all of a cell's record, and touches no other.
pub get_presence-update_presence :
    (now : ℕ) (id k home : String) (visiting : Option String) (db : Db)
    → get_presence k (update_presence now id home visiting db) ≡ (
        if str_eq id k
        then some (record {
          cell_id = k;
          home_node_id = home;
          visiting_node_id = visiting;
          updated_at = now;
        })
        else get_presence k db)
unfolding get_presence update_presence
get_presence-update_presence now id k home visiting db =
    rw (find-upsert presence_key merge_presence _ k db.presence_table (λ r. refl))
      (ground (arith, eq_iff id k, find-HasKey presence_key k db.presence_table))
