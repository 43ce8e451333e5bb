-- ===== src/Invariant/Home.antt =====
-- The presence of cells and the message buffer in the states that a run can reach: node/node.py
-- writes the presence of a cell only as its own home, and node/router.py buffers a message only when
-- the home cannot be reached.
use zki_nevod.Base.{String, ◌≡◌, ap, refl, true, false, some, none, List, [], inr, All}
use zki_nevod.Base.Dict.{Dict}
use zki_nevod.Storage.{
  Db, presence_key, merge_presence, get_presence, upsert_node, update_node_ping, remove_node,
  cleanup_expired_nodes, register_cell, update_presence, buffer_message, delete_buffered,
  cleanup_expired_messages,
}
use zki_nevod.Storage.Table.{delete_where}
use zki_nevod.Storage.Table.Rows.{All-upsert, All-find}
use zki_nevod.Storage.Keys.{
  Write, apply, update_node_ping_at, update_presence_at, buffer_message_at, delete_buffered_of,
  cleanup_messages_at,
}
use zki_nevod.Host.{PeerConnection, Event, State, Host}
use zki_nevod.Invariant.{Permits, IsAllowed, IsAllowedEvent, IsAtHome, Stable, At}
use zki_nevod.Invariant.Step.{Run, Run-Keeps, All-append}
use zki_nevod.Transport.{my_id}

-- Any cell may be registered, and no message is buffered.
abbrev unbuffered : Host → Permits
unbuffered H = record { names = λ id key. Unit; me = my_id H; buffers = ⊥ }

-- Every presence row has the node `me` as its home and no other that is visited, and no message is
-- buffered.
abbrev pub IsHomeOnly : String → Db → Type 0
IsHomeOnly me db = All (IsAtHome me) db.presence_table × (db.message_buffer ≡ [])

pub record Settled (me : String) (conns : Dict PeerConnection) (db : Db) (trace : List Event)
    : Type 0 where
  pub home : IsHomeOnly me db
  pub loops : All IsAllowedEvent trace

apply-IsHomeOnly :
    (H : Host) (w : Write) (db : Db)
    → IsAllowed (unbuffered H) w
    → IsHomeOnly (my_id H) db
    → IsHomeOnly (my_id H) (apply w db)
unfolding apply upsert_node update_node_ping remove_node cleanup_expired_nodes register_cell
    update_presence buffer_message delete_buffered cleanup_expired_messages delete_where
apply-IsHomeOnly H (update_presence_at now id home none) db at (h, e) = (
  All-upsert (IsAtHome (my_id H)) presence_key merge_presence _ db.presence_table (at, refl)
      (λ old same. (at, refl)) h,
  e,
)
apply-IsHomeOnly H (update_presence_at now id home (some visiting)) db a h = absurd a
apply-IsHomeOnly H (buffer_message_at now id cell node payload) db a h = absurd a
apply-IsHomeOnly H (delete_buffered_of id) db a (h, e) = (h, ap (delete_where _) e)
apply-IsHomeOnly H (cleanup_messages_at now) db a (h, e) = (h, ap (delete_where _) e)
apply-IsHomeOnly H (update_node_ping_at now id true) db a h = h
apply-IsHomeOnly H (update_node_ping_at now id false) db a h = h
apply-IsHomeOnly H w db a h = h

Settled-Stable : (H : Host) → Stable (unbuffered H) (Settled (my_id H))
unfolding get_presence
Settled-Stable H = record {
  adds = λ conn c d t a h. record { home = h.home; loops = h.loops };
  removes = λ id c d t h. record { home = h.home; loops = h.loops };
  writes = λ w c d t a h. record { home = apply-IsHomeOnly H w d a h.home; loops = h.loops };
  notes = λ e c d t a h. record { home = h.home; loops = All-append IsAllowedEvent t e h.loops a };
  homes = inr (λ c d t k p h found.
      (All-find (IsAtHome (my_id H)) presence_key k d.presence_table h.home.0 found).0);
}

-- In every state that a run reaches from one in which every presence row has this node as the home
-- and visits no node, no message is buffered and the receive loops were started on authentic
-- connections, every presence row still has this node as the home and visits no node, and no
-- message is buffered.
pub Run-IsHomeOnly :
    (H : Host) {s t : State} → Run H s t → At (Settled (my_id H)) s → IsHomeOnly (my_id H) t.db
Run-IsHomeOnly H run h =
    (Run-Keeps (Settled (my_id H)) (Settled-Stable H) H refl (λ id key named. tt) (λ s h. h.loops)
      run h).home
