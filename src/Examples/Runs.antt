-- ===== src/Examples/Runs.antt =====
-- The theorems on runs at a concrete run: the node enters itself, a cell is registered, and a round of
-- gossip follows.
use zki_nevod.Base.{◌≡◌, refl, [], ◌∷◌}
use zki_nevod.Bytes.{hex, hex_digit}
use zki_nevod.Storage.{empty_db}
use zki_nevod.Storage.Keys.{empty_db-IsKeyed}
use zki_nevod.Host.{State}
use zki_nevod.Invariant.{At}
use zki_nevod.Invariant.Step.{Run, start, then, created, gossiped, registered_locally}
use zki_nevod.Invariant.Run.{Sound, Run-Sound}
use zki_nevod.Invariant.Home.{Settled, IsHomeOnly, Run-IsHomeOnly}
use zki_nevod.Transport.{my_id}
use zki_nevod.Gossip.{round}
use zki_nevod.Node.{register_self, register_cell_locally}
use zki_nevod.Examples.Data.{host, state_of}

-- a node with one authenticated connection
abbrev fresh : State
fresh = state_of empty_db

fresh-Sound : At Sound fresh
unfolding hex hex_digit
fresh-Sound = record {
  registry = ((refl, record { identity = refl }), tt);
  keyed = empty_db-IsKeyed;
  cells = tt;
  nodes = tt;
  loops = tt;
}

abbrev entered : State
entered = (register_self host "localhost:7001" "open" fresh).1

abbrev last : State
last = (register_cell_locally host "05" (5 ∷ []) (6 ∷ []) entered).1

named : "05" ≡ hex (5 ∷ [])
unfolding hex hex_digit
named = refl

run : Run host fresh last
run =
    then (then start (created "localhost:7001" "open"))
      (registered_locally "05" (5 ∷ []) (6 ∷ []) named)

Run-Sound_example : At Sound (round host last).1
Run-Sound_example = Run-Sound host (then run gossiped) fresh-Sound

fresh-Settled : At (Settled (my_id host)) fresh
fresh-Settled = record { home = (tt, refl); loops = tt }

Run-IsHomeOnly_example : IsHomeOnly (my_id host) (round host last).1.db
Run-IsHomeOnly_example = Run-IsHomeOnly host (then run gossiped) fresh-Settled
