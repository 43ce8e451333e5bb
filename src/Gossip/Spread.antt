-- ===== src/Gossip/Spread.antt =====
-- What `handle_gossip` of node/gossip.py learns from the table that `_exchange` of another node sends.
use mathlib.Core.Option
use zki_nevod.Base.{
  ℕ, ◌<◌, ◌^◌, String, ◌≡◌, refl, ◌∙◌, sym, ap, ◌||◌, Option, none, some, List, [], ◌∷◌,
  if◌then◌else◌, str_eq, eq_iff, is_empty, Bool-cases, inl, inr,
}
use zki_nevod.Base.Outcome.{ok}
use zki_nevod.Value.{arr, obj, field, empty, get_value, find_field, truthy, as_str}
use zki_nevod.Value.Codec.{IsLawful, AreWire}
use zki_nevod.Protocol
use zki_nevod.Protocol.{Packet, encode_payload, decode_payload}
use zki_nevod.Node
use zki_nevod.Storage.{
  NodeEntry, Db, get_node, upsert_node, node_row, row_to_node, to_dict, new_node_entry,
}
use zki_nevod.Storage.Nodes.{get_node-upsert_node}
use zki_nevod.Host.{PeerConnection, State, Host, read_clock, change_db, query}
use zki_nevod.Gossip.{
  iterate, remote_nodes, handle_gossip, items_of, discover, merge_entry, merge_entries,
}

-- what a node knows of another but for the times
pub record Profile : Type 0 where
  pub address : String
  pub type : String
  pub access : String
  pub status : String

abbrev profile_of : NodeEntry → Profile
profile_of e = record { address = e.address; type = e.type; access = e.access; status = e.status }

abbrev pub profile : String → Db → Option Profile
profile k db = Option.map profile_of (get_node k db)

abbrev pub or_else : Option Profile → Option Profile → Option Profile
or_else none q = q
or_else (some p) q = some p

-- What an entry tells of node k: an entry without an id or an address tells nothing, and a node that
-- is told of is taken as online.
abbrev told : String → NodeEntry → Option Profile
told k e =
    if is_empty e.node_id || is_empty e.address
    then none
    else if str_eq e.node_id k
    then some (record { address = e.address; type = e.type; access = e.access; status = "online" })
    else none

-- the first entry that tells of node k
abbrev pub heard : String → List NodeEntry → Option Profile
heard k [] = none
heard k (e ∷ es) = or_else (told k e) (heard k es)

or_else_assoc : (p q r : Option Profile) → or_else (or_else p q) r ≡ or_else p (or_else q r)
or_else_assoc none q r = refl
or_else_assoc (some p) q r = refl

or_else-none : (p : Option Profile) → or_else p none ≡ p
or_else-none none = refl
or_else-none (some p) = refl

module _ (H : Host) (k : String) where
  merge_entry-to_dict :
      (e : NodeEntry) (s : State)
      → merge_entry H (to_dict e) s ≡ (
          if is_empty e.node_id || is_empty e.address
          then (ok tt, s)
          else discover H (to_dict e) e.node_id e.address (get_node e.node_id s.db) s)
  unfolding merge_entry to_dict get_value find_field truthy as_str query
  merge_entry-to_dict e s = elim (Bool-cases (is_empty e.node_id)) [
    | inl nameless ↦ rw nameless refl
    | inr named ↦ elim (Bool-cases (is_empty e.address)) [
      | inl homeless ↦ rw (named, homeless) refl
      | inr at ↦ rw (named, at) refl
    ]
  ]

  -- the new entry of a node that was not known
  upsert-profile :
      (id address type access : String) (seen added now : ℕ) (db : Db)
      → get_node id db ≡ none
      → profile k (upsert_node now (new_node_entry id address type access seen added) db)
        ≡ or_else (profile k db) (
            if str_eq id k
            then some
                (record { address = address; type = type; access = access; status = "online" })
            else none)
  unfolding new_node_entry node_row row_to_node
  upsert-profile id address type access seen added now db absent =
      rw (get_node-upsert_node now (new_node_entry id address type access seen added) k db)
        elim (Bool-cases (str_eq id k)) [
          | inl same ↦ rw (same, ap (λ i. get_node i db) (sym ((eq_iff id k).0 same)) ∙ absent) refl
          | inr other ↦ rw other (sym (or_else-none (profile k db)))
        ]

  discover-profile :
      (e : NodeEntry) (s : State) (found : Option NodeEntry)
      → get_node e.node_id s.db ≡ found
      → ((discover H (to_dict e) e.node_id e.address found s).0 ≡ ok tt)
        × (profile k (discover H (to_dict e) e.node_id e.address found s).1.db
            ≡ or_else (profile k s.db) (
                if str_eq e.node_id k
                then some (record {
                  address = e.address;
                  type = e.type;
                  access = e.access;
                  status = "online";
                })
                else none))
  unfolding discover to_dict get_value find_field as_str read_clock change_db
  discover-profile e s none absent =
      (refl, upsert-profile e.node_id e.address e.type e.access _ _ _ s.db absent)
  discover-profile e s (some old) present = (
    refl,
    elim (Bool-cases (str_eq e.node_id k)) [
      | inl same ↦
          rw (same, ap (λ i. get_node i s.db) (sym ((eq_iff e.node_id k).0 same)) ∙ present) refl
      | inr other ↦ rw other (sym (or_else-none (profile k s.db)))
    ],
  )

  -- An entry is taken for what it tells of a node that was not known, without an exception.
  merge_entry-profile :
      (e : NodeEntry) (s : State)
      → ((merge_entry H (to_dict e) s).0 ≡ ok tt)
        × (profile k (merge_entry H (to_dict e) s).1.db ≡ or_else (profile k s.db) (told k e))
  merge_entry-profile e s =
      rw (merge_entry-to_dict e s) elim (Bool-cases (is_empty e.node_id || is_empty e.address)) [
        | inl blank ↦ rw blank (refl, sym (or_else-none (profile k s.db)))
        | inr full ↦ rw full (discover-profile e s _ refl)
      ]

  pub merge_entries-profile :
      (es : List NodeEntry) (s : State)
      → ((merge_entries H (items_of es) s).0 ≡ ok tt)
        × (profile k (merge_entries H (items_of es) s).1.db ≡ or_else (profile k s.db) (heard k es))
  unfolding merge_entries items_of
  merge_entries-profile [] s = (refl, sym (or_else-none (profile k s.db)))
  merge_entries-profile (e ∷ es) s =
      let (done, learned) = merge_entry-profile e s in
      let (rest_done, rest) = merge_entries-profile es (merge_entry H (to_dict e) s).1 in
      rw (done, rest, learned) (rest_done, or_else_assoc (profile k s.db) (told k e) (heard k es))

-- msgpack can carry the times of the entries.
abbrev pub AreCarried : List NodeEntry → Type 0
AreCarried [] = Unit
AreCarried (e ∷ es) = (e.last_seen < 2 ^ 64) × AreCarried es

items_of-AreWire : (es : List NodeEntry) → AreCarried es → AreWire (items_of es)
unfolding items_of to_dict find_field
items_of-AreWire [] h = tt
items_of-AreWire (e ∷ es) (t, h) = (
  (refl, tt, (refl, tt, (refl, tt, (refl, tt, (refl, tt, (refl, tt, (refl, t, (refl, tt, tt)))))))),
  items_of-AreWire es h,
)

module _ (H : Host) (CL : IsLawful H.codec) where
  remote_nodes-items_of :
      (pkt : Packet) (es : List NodeEntry)
      → AreCarried es
      → pkt.payload ≡ encode_payload H.codec (obj (field "nodes" (arr (items_of es)) empty))
      → remote_nodes H pkt ≡ ok (arr (items_of es))
  unfolding remote_nodes decode_payload encode_payload get_value find_field
  remote_nodes-items_of pkt es carried payload =
      rw
        (
          payload,
          CL.unpackb-packb (obj (field "nodes" (arr (items_of es)) empty))
              (refl, items_of-AreWire es carried, tt),
        )
        refl

  dispatch-handle_gossip :
      (pkt : Packet) (conn : PeerConnection) (s : State)
      → pkt.type ≡ Protocol.gossip
      → Node.dispatch H pkt conn s ≡ handle_gossip H pkt s
  unfolding Node.dispatch
  dispatch-handle_gossip pkt conn s type = rw type refl

  pub dispatch-gossip :
      (pkt : Packet) (conn : PeerConnection) (es : List NodeEntry) (s : State)
      → AreCarried es
      → pkt.type ≡ Protocol.gossip
      → pkt.payload ≡ encode_payload H.codec (obj (field "nodes" (arr (items_of es)) empty))
      → Node.dispatch H pkt conn s ≡ merge_entries H (items_of es) s
  unfolding handle_gossip iterate
  dispatch-gossip pkt conn es s carried type payload =
      rw (dispatch-handle_gossip pkt conn s type, remote_nodes-items_of pkt es carried payload) refl
