-- ===== src/Gossip/Exchange.antt =====
-- The exchange of the node table between two nodes: `_exchange` of node/gossip.py at the one,
-- `_recv_loop` of node/transport.py and `handle_gossip` at the other.
use zki_nevod.Base.{◌+◌, arith, String, ◌≡◌, refl, some, [], ◌∷◌, ◌++◌}
use zki_nevod.Base.Outcome.{ok}
use zki_nevod.Base.Dict
use zki_nevod.Bytes.{Bytes}
use zki_nevod.Value.{int, arr, obj, field, empty}
use zki_nevod.Value.Codec
use zki_nevod.Value.Codec.{IsWire}
use zki_nevod.Crypto.Library
use zki_nevod.Crypto.Laws.{IsSigning}
use zki_nevod.Protocol
use zki_nevod.Protocol.{Packet, raw, pack, encode_payload}
use zki_nevod.Protocol.Constructors.{new_packet, make_gossip}
use zki_nevod.Identity.{NodeIdentity}
use zki_nevod.Storage.{NodeEntry, get_all_nodes}
use zki_nevod.Host.{World, PeerConnection, sent, State, Host, next, new_stamp, query, ws_send}
use zki_nevod.Transport
use zki_nevod.Transport.{get, my_id, signed}
use zki_nevod.Transport.Sending.{send_via-raw, receive-sent}
use zki_nevod.Node
use zki_nevod.Gossip.{items_of, exchange_over, exchange}
use zki_nevod.Gossip.Spread.{
  profile, or_else, heard, AreCarried, merge_entries-profile, dispatch-gossip,
}

module _ (H : Host) (peer : NodeEntry) (to : PeerConnection) (s : State) where
  -- the node table, as it is sent
  abbrev table : Packet
  table =
      make_gossip H.codec (record { id = H.world.uuid4 s.contact; ts = H.world.time s.contact })
        (my_id H) (items_of (get_all_nodes s.db))

  -- The peer is connected, its websocket takes what it is given, and msgpack can carry the times.
  pub record IsExchanging : Type 0 where
    pub connected : Dict.get peer.node_id s.conns ≡ some to
    pub takes : (message : Bytes) → H.world.send (s.contact + 1) to.ws message ≡ ok tt
    pub carried : AreCarried (get_all_nodes s.db)
    pub stamped : IsWire (int (H.world.time s.contact))

  exchange-sent :
      IsExchanging
      → (exchange H peer s).1.trace
        ≡ s.trace ++ sent to.ws (pack H.codec (raw (signed H table))) ∷ []
  unfolding exchange exchange_over get query new_stamp ws_send
  exchange-sent h =
      rw
        (
          h.connected,
          send_via-raw H to table (next s),
          h.takes (pack H.codec (raw (signed H table))),
        )
        refl

  table-fields :
      IsExchanging
      → ((signed H table).type ≡ Protocol.gossip)
        × ((signed H table).payload
            ≡ encode_payload H.codec
                (obj (field "nodes" (arr (items_of (get_all_nodes s.db))) empty)))
        × IsWire table.ts
        × IsWire table.v
  unfolding signed make_gossip new_packet
  table-fields h = (refl, refl, h.stamped, omega arith)

  -- A node that exchanges its table with a connected peer sends one message, from which the peer
  -- learns: it keeps what it knew of each node, and a node that it did not know it knows now by the
  -- address, type and access of the first entry for it in the sender's table that has an id and an
  -- address, and takes it as online; if the websocket takes the message, the peer knows the sender's
  -- key, the keys match, codec and primitives are lawful, and msgpack can carry the times.
  pub exchange-spreads :
      (W : World) (me : NodeIdentity) (from : PeerConnection) (n : State) (k : String)
      → IsExchanging
      → Codec.IsLawful H.codec
      → Library.IsLawful H.primitives
      → IsSigning H.primitives H.identity.signing
      → from.peer_signing_pubkey ≡ H.identity.signing.public
      → (message : Bytes) × ((exchange H peer s).1.trace ≡ s.trace ++ sent to.ws message ∷ [])
        × (profile k
              (Transport.receive
                (record H { world = W; identity = me })
                (Node.dispatch (record H { world = W; identity = me }))
                from
                message
                n).1.db
            ≡ or_else (profile k n.db) (heard k (get_all_nodes s.db)))
  exchange-spreads W me from n k h CL L matched known =
      let second = record H { world = W; identity = me } in
      let (gossip, payload, ts, v) = table-fields h in
      let nodes = get_all_nodes s.db in
      (
        pack H.codec (raw (signed H table)),
        exchange-sent h,
        rw
            (
              receive-sent H W me (Node.dispatch second) from table n CL L matched ts v known,
              dispatch-gossip second CL (signed H table) from nodes n h.carried gossip payload,
              (merge_entries-profile second k nodes n).0,
            )
            (merge_entries-profile second k nodes n).1,
      )
