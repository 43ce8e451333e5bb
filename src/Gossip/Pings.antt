-- ===== src/Gossip/Pings.antt =====
-- The pings and exchanges of node/gossip.py on a node that reaches no other.
use mathlib.Core.Option
use zki_nevod.Base.{
  ℕ, suc, ◌+◌, String, ◌<>◌, ◌≡◌, ◌≢◌, refl, ◌∙◌, ap, sym, subst, false, Option, none, some, List,
  [], ◌∷◌, map, if◌then◌else◌, str_eq, eq_iff, str_eq_false, Bool-cases, inl, inr,
}
use zki_nevod.Base.Outcome.{Error, Result, ok, err}
use zki_nevod.Base.Dict
use zki_nevod.Storage.Table.{find}
use zki_nevod.Storage.Table.Keys.{NodupKeys}
use zki_nevod.Storage.{
  NodeEntry, NodeRow, Db, node_key, row_to_node, get_node, get_all_nodes, update_node_ping,
}
use zki_nevod.Storage.Nodes.{
  after_failures, map-after_failures_zero, map-after_failures-suc, get_node-update_node_ping,
}
use zki_nevod.Storage.Keys.{IsKeyed, apply, apply-IsKeyed, update_node_ping_at}
use zki_nevod.Host.{Event, State, Host, read_clock, change_db, ws_connect}
use zki_nevod.Transport.{get, my_id, connect_to_node}
use zki_nevod.Gossip.{
  update_ping, ping_over, connection_for, ping_node, exchange_over, exchange, ping_all,
  exchange_all,
}

-- the entries of a node in a list
abbrev pub count : String → List NodeEntry → ℕ
count id [] = 0
count id (e ∷ es) = let n = count id es in if str_eq e.node_id id then suc n else n

abbrev pub times_found {ℓ} : {A : Type ℓ} → Option A → ℕ
times_found none = 0
times_found (some a) = 1

count-find :
    (id : String) (t : List NodeRow)
    → NodupKeys node_key t
    → count id (map row_to_node t) ≡ times_found (find node_key id t)
unfolding find row_to_node
count-find id [] h = refl
count-find id (r ∷ t) (fresh, h) = elim (Bool-cases (str_eq r.node_id id)) [
  | inl same ↦ rw same (
      ap suc (
        count-find id t h
        ∙ ap times_found
            (subst (λ k. find node_key k t ≡ none) ((eq_iff r.node_id id).0 same) fresh)))
  | inr other ↦ rw other (count-find id t h)
]

times_found-map :
    {A B : Type 0} (f : A → B) (o : Option A) → times_found o ≡ times_found (Option.map f o)
times_found-map f none = refl
times_found-map f (some a) = refl

pub count-get_node :
    (id : String) (db : Db)
    → IsKeyed db
    → count id (get_all_nodes db) ≡ times_found (get_node id db)
unfolding get_all_nodes get_node
count-get_node id db h =
    count-find id db.node_table h.nodes
    ∙ times_found-map row_to_node (find node_key id db.node_table)

-- a node without connections
abbrev pub alone : Db → ℕ → List Event → State
alone db n events = record { db = db; conns = []; contact = n; trace = events }

module _ (H : Host) where
  -- What the pings of a list of nodes make of a database.
  pub record Pinged (nodes : List NodeEntry) (db : Db) (events : List Event)
      (x : Result (Unit {0}) × State) : Type 0 where
    pub after : Db
    pub clock : ℕ
    pub ends : x ≡ (ok tt, alone after clock events)
    pub keyed : IsKeyed db → IsKeyed after
    pub counted :
        (id : String)
        → id ≢ my_id H
        → get_node id after ≡ Option.map (after_failures (count id nodes)) (get_node id db)

  ping-IsKeyed :
      (now : ℕ) (id : String) (db : Db) → IsKeyed db → IsKeyed (update_node_ping now id false db)
  unfolding apply
  ping-IsKeyed now id db h = apply-IsKeyed (update_node_ping_at now id false) db h

  one_more :
      (now n : ℕ) (k id : String) (db after : Db)
      → get_node id after
        ≡ Option.map (after_failures n) (get_node id (update_node_ping now k false db))
      → get_node id after
        ≡ Option.map (after_failures (if str_eq k id then suc n else n)) (get_node id db)
  one_more now n k id db after h = elim (Bool-cases (str_eq k id)) [
    | inl same ↦ rw same (
        h
        ∙ ap (Option.map (after_failures n))
            (get_node-update_node_ping now k id false db ∙ rw same refl)
        ∙ map-after_failures-suc n now (get_node id db))
    | inr other ↦ rw other (
        h
        ∙ ap (Option.map (after_failures n))
            (get_node-update_node_ping now k id false db ∙ rw other refl))
  ]

module _ (H : Host)
    (unreachable : (n : ℕ) (uri : String) → (e : Error) × (H.world.connect n uri ≡ err e)) where
  ping_node-alone :
      (entry : NodeEntry) (db : Db) (n : ℕ) (events : List Event)
      → ping_node H entry (alone db n events) ≡ (
        ok tt,
        alone (update_node_ping (H.world.time (n + 1)) entry.node_id false db) (n + 1 + 1) events,
      )
  unfolding ping_node get connection_for connect_to_node ws_connect ping_over update_ping read_clock
      change_db Dict.get
  ping_node-alone entry db n events = rw ((unreachable n ("ws://" <> entry.address)).1) refl

  pub exchange_all-alone :
      (peers : List NodeEntry) (s : Db) (n : ℕ) (events : List Event)
      → exchange_all H peers (alone s n events) ≡ (ok tt, alone s n events)
  unfolding exchange_all exchange exchange_over get Dict.get
  exchange_all-alone [] db n events = refl
  exchange_all-alone (peer ∷ peers) db n events = exchange_all-alone peers db n events

  pub ping_all-Pinged :
      (nodes : List NodeEntry) (db : Db) (n : ℕ) (events : List Event)
      → Pinged H nodes db events (ping_all H nodes (alone db n events))
  unfolding ping_all
  ping_all-Pinged [] db n events = record {
    after = db;
    clock = n;
    ends = refl;
    keyed = λ h. h;
    counted = λ id other. map-after_failures_zero (get_node id db);
  }
  ping_all-Pinged (entry ∷ nodes) db n events = elim (Bool-cases (str_eq entry.node_id (my_id H))) [
    | inl mine ↦
        let rest = ping_all-Pinged nodes db n events in
        record {
          after = rest.after;
          clock = rest.clock;
          ends = rw mine rest.ends;
          keyed = rest.keyed;
          counted = λ id other.
              rw
                (str_eq_false entry.node_id id
                  λ same. other (sym same ∙ (eq_iff entry.node_id (my_id H)).0 mine))
                (rest.counted id other);
        }
    | inr other ↦
        let now = H.world.time (n + 1) in
        let rest =
          ping_all-Pinged nodes (update_node_ping now entry.node_id false db) (n + 1 + 1) events in
        record {
          after = rest.after;
          clock = rest.clock;
          ends = rw (other, ping_node-alone entry db n events) rest.ends;
          keyed = λ h. rest.keyed (ping-IsKeyed H now entry.node_id db h);
          counted = λ id different.
              one_more H now (count id nodes) entry.node_id id db rest.after
                (rest.counted id different);
        }
  ]
