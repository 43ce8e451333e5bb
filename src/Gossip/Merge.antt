-- ===== src/Gossip/Merge.antt =====
-- The exchange of node tables (`handle_gossip` of node/gossip.py) and a node that is known.
use zki_nevod.Base.{ℕ, String, ◌≡◌, ◌≢◌, refl, ◌∙◌, ap, not, ◌||◌, Option, none, some, str_eq_false}
use zki_nevod.Base.Outcome.{Result}
use zki_nevod.Base.Effects.{lift}
use zki_nevod.Base.Keeps.{
  Keeps, Any, Keeps-pure, Keeps-lift, Keeps-Any, Keeps-if, Keeps-bind, Keeps-attempt,
}
use zki_nevod.Value.{Value, str, Items, end, item, truthy, get_value, as_str}
use zki_nevod.Protocol.{Packet}
use zki_nevod.Storage
use zki_nevod.Storage.{NodeEntry, new_node_entry}
use zki_nevod.Storage.Nodes.{get_node-upsert_node}
use zki_nevod.Host.{State, Host, read_clock, change_db, query}
use zki_nevod.Gossip.{iterate, discover, merge_entry, merge_entries, remote_nodes, handle_gossip}

module _ (H : Host) (k : String) (e : NodeEntry) where
  abbrev Known : State → Type 0
  Known s = Storage.get_node k s.db ≡ some e

  abbrev IsOtherOrKnown : String → Option NodeEntry → Type 0
  IsOtherOrKnown id none = id ≢ k
  IsOtherOrKnown id (some old) = Unit

  lift-Known : {A : Type 0} (r : Result A) → Keeps Known Any (lift r)
  lift-Known r = Keeps-lift r (λ a same. tt)

  clock-Known : Keeps Known Any (read_clock H)
  unfolding read_clock
  clock-Known = Keeps-Any _ (λ s h. h)

  upsert-Known :
      (now : ℕ) (new : NodeEntry)
      → new.node_id ≢ k
      → Keeps Known Any (change_db (Storage.upsert_node now new))
  unfolding change_db
  upsert-Known now new other =
      Keeps-Any _
        λ s h. get_node-upsert_node now new k s.db ∙ rw (str_eq_false new.node_id k other) h

  looked_up :
      (id : String) (s : State) (found : Option NodeEntry)
      → Known s
      → Storage.get_node id s.db ≡ found
      → IsOtherOrKnown id found
  looked_up id s none h found =
      λ same. absurd (cc (h, found, ap (λ i. Storage.get_node i s.db) same))
  looked_up id s (some old) h found = tt

  query-Known : (id : String) → Keeps Known (IsOtherOrKnown id) (query (Storage.get_node id))
  unfolding query
  query-Known id = record { at = λ s h. (h, looked_up id s _ h refl) }

  discover-Known :
      (n : Value) (id address : String) (found : Option NodeEntry)
      → IsOtherOrKnown id found
      → Keeps Known Any (discover H n id address found)
  unfolding discover
  discover-Known n id address (some old) other = Keeps-pure tt tt
  discover-Known n id address none other =
      Keeps-bind (lift (get_value n "type" (str "permanent"))) _ (lift-Known _) λ type _.
        Keeps-bind (lift (as_str type)) _ (lift-Known _) λ type_text _.
          Keeps-bind (lift (get_value n "access" (str "closed"))) _ (lift-Known _) λ access _.
            Keeps-bind (lift (as_str access)) _ (lift-Known _) λ access_text _.
              Keeps-bind (read_clock H) _ clock-Known λ seen _.
                Keeps-bind (read_clock H) _ clock-Known λ added _.
                  Keeps-bind (read_clock H) _ clock-Known λ now _.
                    upsert-Known now (new_node_entry id address type_text access_text seen added)
                      (unfold new_node_entry in other)

  merge_entry-Known : (n : Value) → Keeps Known Any (merge_entry H n)
  unfolding merge_entry
  merge_entry-Known n =
      Keeps-bind (lift (get_value n "node_id" (str ""))) _ (lift-Known _) λ node_id _.
        Keeps-bind (lift (get_value n "address" (str ""))) _ (lift-Known _) λ address _.
          Keeps-if (not (truthy node_id) || not (truthy address)) _ _ (λ _. Keeps-pure tt tt)
            λ _. Keeps-bind (lift (as_str node_id)) _ (lift-Known _) λ id _.
              Keeps-bind (query (Storage.get_node id)) _ (query-Known id) λ found other.
                Keeps-bind (lift (as_str address)) _ (lift-Known _)
                  (λ addr _. discover-Known n id addr found other)

  merge_entries-Known : (ns : Items) → Keeps Known Any (merge_entries H ns)
  unfolding merge_entries
  merge_entries-Known end = Keeps-pure tt tt
  merge_entries-Known (item n ns) =
      Keeps-bind (merge_entry H n) _ (merge_entry-Known n) (λ _ _. merge_entries-Known ns)

  handle_gossip-Known : (pkt : Packet) → Keeps Known Any (handle_gossip H pkt)
  unfolding handle_gossip
  handle_gossip-Known pkt =
      Keeps-attempt (remote_nodes H pkt) tt _ tt λ nodes _.
        Keeps-bind (lift (iterate nodes)) _ (lift-Known _) (λ ns _. merge_entries-Known ns)

-- A node that is known stays exactly as it is, whatever a gossip message says of it, and also if the
-- message breaks off with an exception.
pub get_node-handle_gossip :
    (H : Host) (pkt : Packet) (k : String) (s : State) {e : NodeEntry}
    → Storage.get_node k s.db ≡ some e
    → Storage.get_node k (handle_gossip H pkt s).1.db ≡ some e
get_node-handle_gossip H pkt k s {e} known = ((handle_gossip-Known H k e pkt).at s known).0
