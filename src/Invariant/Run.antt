-- ===== src/Invariant/Run.antt =====
-- What holds of every state that a run can reach, of the registry of connections and of the database.
use zki_nevod.Base.{String, ◌≡◌, refl, ◌∙◌, sym, true, false, none, some, List, inl, All}
use zki_nevod.Base.Dict
use zki_nevod.Base.Dict.{Dict, AllEntries, AllEntries-put, AllEntries-pop, AllEntries-get}
use zki_nevod.Bytes.{hex}
use zki_nevod.Storage.{
  Db, CellEntry, cell_key, register_cell, get_cell, merge_cell, upsert_node, update_node_ping,
  remove_node, cleanup_expired_nodes, update_presence, buffer_message, delete_buffered,
  cleanup_expired_messages,
}
use zki_nevod.Storage.Table.Rows.{All-upsert, All-find}
use zki_nevod.Storage.Keys.{Write, apply, IsKeyed, apply-IsKeyed}
use zki_nevod.Storage.Health.{RowIsSettled, apply-IsSettled, WritesSettled}
use zki_nevod.Storage.Keys.{
  update_node_ping_at, register_cell_at, update_presence_at, buffer_message_at,
}
use zki_nevod.Host.{PeerConnection, Event, State, Host}
use zki_nevod.Invariant.{Permits, IsAuthentic, IsAllowed, IsAllowedEvent, Stable, At}
use zki_nevod.Invariant.Step.{Run, Run-Keeps, All-append}
use zki_nevod.Transport.{my_id}

-- A registered connection stands under the identity that its peer proved.
abbrev pub IsRegistered : String → PeerConnection → Type 0
IsRegistered k conn = (k ≡ conn.peer_node_id) × IsAuthentic conn

-- The name of a cell is the hexadecimal text of its key.
abbrev pub IsCertified : CellEntry → Type 0
IsCertified c = c.cell_id ≡ hex c.signing_pubkey

pub record Sound (conns : Dict PeerConnection) (db : Db) (trace : List Event) : Type 0 where
  pub registry : AllEntries IsRegistered conns
  pub keyed : IsKeyed db
  pub cells : All IsCertified db.cells
  pub nodes : All RowIsSettled db.node_table
  pub loops : All IsAllowedEvent trace

-- A cell is named by the hexadecimal text of its key, and messages may be buffered.
abbrev named_cells : Host → Permits
named_cells H = record { names = λ id key. id ≡ hex key; me = my_id H; buffers = Unit }

apply-IsCertified :
    (H : Host) (w : Write) (db : Db)
    → IsAllowed (named_cells H) w
    → All IsCertified db.cells
    → All IsCertified (apply w db).cells
unfolding apply upsert_node update_node_ping remove_node cleanup_expired_nodes register_cell
    update_presence buffer_message delete_buffered cleanup_expired_messages
apply-IsCertified H (register_cell_at now id signing enc is_home) db named h =
    All-upsert IsCertified cell_key merge_cell _ db.cells named (λ old same. same ∙ named) h
apply-IsCertified H (update_presence_at now id home none) db a h = h
apply-IsCertified H (buffer_message_at now id cell node payload) db a h = h
apply-IsCertified H (update_node_ping_at now id true) db a h = h
apply-IsCertified H (update_node_ping_at now id false) db a h = h
apply-IsCertified H w db a h = h

allowed_settled : (H : Host) (w : Write) → IsAllowed (named_cells H) w → WritesSettled w
allowed_settled H (register_cell_at now id signing enc is_home) a = tt
allowed_settled H (update_presence_at now id home visiting) a = tt
allowed_settled H (buffer_message_at now id cell node payload) a = tt
allowed_settled H w a = a

Sound-Stable : (H : Host) → Stable (named_cells H) Sound
Sound-Stable H = record {
  adds = λ conn c d t a h. record {
    registry = AllEntries-put IsRegistered conn.peer_node_id conn c (refl, a) h.registry;
    keyed = h.keyed;
    cells = h.cells;
    nodes = h.nodes;
    loops = h.loops;
  };
  removes = λ id c d t h. record {
    registry = AllEntries-pop IsRegistered id c h.registry;
    keyed = h.keyed;
    cells = h.cells;
    nodes = h.nodes;
    loops = h.loops;
  };
  writes = λ w c d t a h. record {
    registry = h.registry;
    keyed = apply-IsKeyed w d h.keyed;
    cells = apply-IsCertified H w d a h.cells;
    nodes = apply-IsSettled w d (allowed_settled H w a) h.nodes;
    loops = h.loops;
  };
  notes = λ e c d t a h. record {
    registry = h.registry;
    keyed = h.keyed;
    cells = h.cells;
    nodes = h.nodes;
    loops = All-append IsAllowedEvent t e h.loops a;
  };
  homes = inl tt;
}

-- Every state that a run leads to from a sound one is sound, whatever the outside world answers:
-- connections stand under the proven identities of their peers, receive loops were started on such
-- connections only, no table has two rows of a key, the name of every cell is that of its key, and
-- every node that missed three pings or more is offline.
pub Run-Sound : (H : Host) {s t : State} → Run H s t → At Sound s → At Sound t
Run-Sound H run h =
    Run-Keeps Sound (Sound-Stable H) H refl (λ id key named. named) (λ s h. h.loops) run h

-- In every state that a run reaches from a sound one, a connection that the registry has for an
-- identity is one whose peer has this identity, and the identity is the hexadecimal text of the
-- public key of the connection.
pub get-Run :
    (H : Host) {s t : State} {k : String} {conn : PeerConnection}
    → Run H s t
    → At Sound s
    → Dict.get k t.conns ≡ some conn
    → (conn.peer_node_id ≡ k) × (k ≡ hex conn.peer_signing_pubkey)
get-Run H {t} {k} run h found =
    let (named, a) = AllEntries-get IsRegistered k t.conns (Run-Sound H run h).registry found in
    (sym named, named ∙ a.identity)

-- In every state that a run reaches from a sound one, a cell that is looked up has the name of the
-- key that is stored for it.
pub get_cell-Run :
    (H : Host) {s t : State} {k : String} {c : CellEntry}
    → Run H s t
    → At Sound s
    → get_cell k t.db ≡ some c
    → k ≡ hex c.signing_pubkey
unfolding get_cell
get_cell-Run H {t} {k} run h found =
    let (named, same) =
      All-find IsCertified cell_key k t.db.cells (Run-Sound H run h).cells found in
    sym same ∙ named
