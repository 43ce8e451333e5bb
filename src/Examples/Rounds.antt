-- ===== src/Examples/Rounds.antt =====
-- The theorems on gossip rounds at concrete nodes.
use zki_nevod.Base.{
  ◌+◌, ℕ, zero, suc, ◌≤◌, ◌≡◌, refl, false≢true, eq_iff, arith, List, [], ◌∷◌, some, length,
}
use zki_nevod.Base.Outcome.{ok, connection_error}
use zki_nevod.Base.Dict
use zki_nevod.Bytes.{Bytes, hex, hex_digit}
use zki_nevod.Identity.{node_id}
use zki_nevod.Storage.{NodeEntry, get_node, row_to_node}
use zki_nevod.Storage.Table.{find}
use zki_nevod.Storage.Keys.{IsKeyed}
use zki_nevod.Host.{State, Host, sent}
use zki_nevod.Gossip.{exchange, ping_all, round, loop}
use zki_nevod.Gossip.Spread.{profile}
use zki_nevod.Gossip.Exchange.{IsExchanging, exchange-spreads}
use zki_nevod.Storage.{get_all_nodes}
use zki_nevod.Transport
use zki_nevod.Node
use zki_nevod.Value.Sample.{sample-IsLawful as codec-IsLawful}
use zki_nevod.Crypto.Sample.{sample-IsLawful as primitives-IsLawful}
use zki_nevod.Gossip.Pings.{alone}
use zki_nevod.Gossip.Isolation.{loop-alone}
use zki_nevod.Gossip.Fanout.{round-fanout}
use zki_nevod.Examples.Data.{host, world, peer, entry, db_of, state_of, signing_one-IsSigning}

-- a clock that stands, and a sample that is the beginning of the list
abbrev first : ℕ → List NodeEntry → List NodeEntry
first zero nodes = []
first (suc k) [] = []
first (suc k) (e ∷ nodes) = e ∷ first k nodes

length-first : (k : ℕ) (nodes : List NodeEntry) → length (first k nodes) ≤ k
length-first zero nodes = omega arith
length-first (suc k) [] = omega arith
length-first (suc k) (e ∷ nodes) = omega (arith, length-first k nodes)

abbrev still : Host
still = record host {
  world = record world { time = λ n. 1000; sample = λ n k nodes. first k nodes };
}

db-IsKeyed : IsKeyed (db_of "01")
unfolding find
db-IsKeyed = record { nodes = (refl, tt); cells = (refl, tt); presence = (refl, tt); messages = tt }

loop-alone_example :
    ((loop still 3 (alone (db_of "01") 0 [])).0 ≡ ok tt)
    × ((e' : NodeEntry) × (get_node "n" (loop still 3 (alone (db_of "01") 0 [])).1.db ≡ some e')
        × (e'.missed_pings ≡ 3)
        × (3 ≤ 3 → e'.status ≡ "offline"))
unfolding get_node find row_to_node node_id hex hex_digit
loop-alone_example =
    loop-alone still (λ n uri. (connection_error, refl)) "n"
      (λ same. false≢true ((eq_iff "n" "01").1 same)) 3 (db_of "01") 0 [] entry db-IsKeyed refl
      (λ k. omega arith)

round-fanout_example :
    length (round still (state_of (db_of "01"))).1.trace
    ≤ length (ping_all still (get_all_nodes (db_of "01")) (state_of (db_of "01"))).1.trace + 3
round-fanout_example =
    round-fanout still (λ n k nodes. length-first k nodes) (state_of (db_of "01"))

-- a node that is connected, and one that knows no other
abbrev neighbour : NodeEntry
neighbour = record entry { node_id = "01" }

abbrev newcomer : State
newcomer = state_of (record (db_of "01") { node_table = [] })

exchanging : IsExchanging host neighbour peer (state_of (db_of "01"))
unfolding Dict.get get_all_nodes row_to_node
exchanging = record {
  connected = refl;
  takes = λ m. refl;
  carried = (omega arith, tt);
  stamped = omega arith;
}

exchange-spreads_example :
    (message : Bytes) × ((exchange host neighbour (state_of (db_of "01"))).1.trace
      ≡ sent 4 message ∷ [])
    × (profile "n" (Transport.receive host (Node.dispatch host) peer message newcomer).1.db
        ≡ some (record {
          address = "localhost:7002";
          type = "permanent";
          access = "open";
          status = "online";
        }))
unfolding get_all_nodes row_to_node get_node find
exchange-spreads_example =
    exchange-spreads host neighbour peer (state_of (db_of "01")) world host.identity peer newcomer
      "n" exchanging codec-IsLawful primitives-IsLawful signing_one-IsSigning refl
