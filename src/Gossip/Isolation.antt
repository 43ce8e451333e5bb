-- ===== src/Gossip/Isolation.antt =====
-- The rounds of node/gossip.py on a node that reaches no other.
use mathlib.Core.Option
use zki_nevod.Base.{ℕ, zero, suc, ◌+◌, ◌≤◌, String, ◌≡◌, ◌≢◌, refl, ◌∙◌, ap, some, List, arith}
use zki_nevod.Base.Outcome.{Error, ok, err}
use zki_nevod.Storage.{
  NodeEntry, Db, get_node, get_all_nodes, cleanup_expired_nodes, cleanup_expired_messages,
  ttl_node_offline_secs,
}
use zki_nevod.Storage.Nodes.{after_failures, after_failures-pinged, get_node-cleanup_expired_nodes}
use zki_nevod.Storage.Keys.{IsKeyed, apply, apply-IsKeyed, cleanup_nodes_at, cleanup_messages_at}
use zki_nevod.Host.{Event, Host, read_clock, draw_sample, change_db, query}
use zki_nevod.Transport.{my_id}
use zki_nevod.Gossip.{ping_all, round, loop}
use zki_nevod.Gossip.Pings.{
  times_found, count, count-get_node, alone, Pinged, exchange_all-alone, ping_all-Pinged,
}

module _ (H : Host)
    (unreachable : (n : ℕ) (uri : String) → (e : Error) × (H.world.connect n uri ≡ err e)) where
  cleaned : ℕ → ℕ → Db → Db
  cleaned now later db = cleanup_expired_messages later (cleanup_expired_nodes now db)

  cleaned-IsKeyed : (now later : ℕ) (db : Db) → IsKeyed db → IsKeyed (cleaned now later db)
  unfolding cleaned apply
  cleaned-IsKeyed now later db h =
      apply-IsKeyed (cleanup_messages_at later) (cleanup_expired_nodes now db)
        (apply-IsKeyed (cleanup_nodes_at now) db h)

  -- A clean-up within 72 hours spares a node.
  get_node-cleaned :
      (now later : ℕ) (id : String) (db : Db) (e : NodeEntry)
      → IsKeyed db
      → get_node id db ≡ some e
      → now ≤ e.last_seen + ttl_node_offline_secs
      → get_node id (cleaned now later db) ≡ some e
  unfolding cleaned cleanup_expired_messages get_node
  get_node-cleaned now later id db e h known recent =
      get_node-cleanup_expired_nodes now id db h.nodes ∙ rw known (ground arith)

  round-alone :
      (db : Db) (n : ℕ) (events : List Event)
      → (p : Pinged H
          (get_all_nodes db)
          db
          events
          (ping_all H (get_all_nodes db) (alone db n events)))
        × (round H (alone db n events) ≡ (
          ok tt,
          alone
              (cleaned (H.world.time p.clock) (H.world.time (p.clock + 1)) p.after)
              (p.clock + 1 + 1 + 1)
              events,
        ))
  unfolding round query read_clock change_db draw_sample cleaned
  round-alone db n events =
      let p = ping_all-Pinged H unreachable (get_all_nodes db) db n events in
      (p, rw (p.ends) (exchange_all-alone H unreachable _ _ _ events))

  module _ (id : String) (other : id ≢ my_id H) where
    once :
        (db : Db) (e : NodeEntry)
        → IsKeyed db
        → get_node id db ≡ some e
        → count id (get_all_nodes db) ≡ 1
    once db e h known = count-get_node id db h ∙ ap times_found known

    round-missed :
        (db after : Db) (e : NodeEntry)
        → IsKeyed db
        → get_node id db ≡ some e
        → get_node id after
          ≡ Option.map (after_failures (count id (get_all_nodes db))) (get_node id db)
        → get_node id after ≡ some (after_failures 1 e)
    round-missed db after e h known counted = counted ∙ rw (once db e h known, known) refl

    loop-after_failures :
        (rounds : ℕ) (db : Db) (n : ℕ) (events : List Event) (e : NodeEntry)
        → IsKeyed db
        → get_node id db ≡ some e
        → ((k : ℕ) → H.world.time k ≤ e.last_seen + ttl_node_offline_secs)
        → ((loop H rounds (alone db n events)).0 ≡ ok tt)
          × (get_node id (loop H rounds (alone db n events)).1.db ≡ some (after_failures rounds e))
    unfolding loop
    loop-after_failures zero db n events e h known recent = (refl, known)
    loop-after_failures (suc rounds) db n events e h known recent =
        let (p, passed) = round-alone db n events in
        let missed = round-missed db p.after e h known (p.counted id other) in
        let now = H.world.time p.clock in
        let later = H.world.time (p.clock + 1) in
        let rest =
          loop-after_failures rounds (cleaned now later p.after) (p.clock + 1 + 1 + 1) events
            (after_failures 1 e) (cleaned-IsKeyed now later p.after (p.keyed h))
            (get_node-cleaned now later id p.after (after_failures 1 e) (p.keyed h) missed
              (recent p.clock))
            recent in
        rw passed (rest.0, rest.1 ∙ ap some (after_failures-pinged rounds 0 e))

    offline_after :
        (rounds : ℕ) (e : NodeEntry)
        → ((after_failures rounds e).missed_pings ≡ e.missed_pings + rounds)
          × (3 ≤ rounds → (after_failures rounds e).status ≡ "offline")
    offline_after zero e = (omega arith, λ h. absurd (omega arith))
    offline_after (suc rounds) e = (refl, λ h. ground arith)

    -- If no node can be dialled and there is no connection, then after any number of gossip rounds, whose
    -- exceptions are none, every other node that was known is still known, its missed pings have grown by
    -- the number of the rounds, and after three rounds or more its status is offline, if the keys of the
    -- tables are unique and every clock reading is at most 72 hours after the last time it was seen.
    pub loop-alone :
        (rounds : ℕ) (db : Db) (n : ℕ) (events : List Event) (e : NodeEntry)
        → IsKeyed db
        → get_node id db ≡ some e
        → ((k : ℕ) → H.world.time k ≤ e.last_seen + ttl_node_offline_secs)
        → ((loop H rounds (alone db n events)).0 ≡ ok tt)
          × ((e' : NodeEntry) × (get_node id (loop H rounds (alone db n events)).1.db ≡ some e')
              × (e'.missed_pings ≡ e.missed_pings + rounds)
              × (3 ≤ rounds → e'.status ≡ "offline"))
    loop-alone rounds db n events e h known recent =
        let (done, found) = loop-after_failures rounds db n events e h known recent in
        (
          done,
          (after_failures rounds e, found, (offline_after rounds e).0, (offline_after rounds e).1),
        )
