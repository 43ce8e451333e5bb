-- ===== src/Transport/Registry.antt =====
-- The registry of node/transport.py after a receive loop has ended.
use zki_nevod.Base.{String, ◌≡◌, refl, none, List, [], ◌∷◌, eq_refl}
use zki_nevod.Base.Outcome
use zki_nevod.Base.Outcome.{Error, Result, ok, err}
use zki_nevod.Base.Effects.{Exec}
use zki_nevod.Base.Dict
use zki_nevod.Base.Dict.{get-pop}
use zki_nevod.Bytes.{Bytes}
use zki_nevod.Protocol.{Packet}
use zki_nevod.Host.{PeerConnection, State, Host}
use zki_nevod.Transport.{remove, receive, after_receive, recv_loop}

remove-get : (id : String) (s : State) → Dict.get id (remove id s).1.conns ≡ none
unfolding remove
remove-get id s = rw (get-pop id id s.conns, eq_refl id) refl

module _ (H : Host) (conn : PeerConnection) where
  after_receive-get :
      (r : Result (Unit {0})) (rest : Exec State (Unit {0})) (s : State)
      → ((t : State) → Dict.get conn.peer_node_id (rest t).1.conns ≡ none)
      → Dict.get conn.peer_node_id (after_receive H conn r rest s).1.conns ≡ none
  unfolding after_receive remove
  after_receive-get (ok a) rest s gone = gone s
  after_receive-get (err Outcome.connection_closed) rest s gone = remove-get conn.peer_node_id s
  after_receive-get (err e) rest s gone = remove-get conn.peer_node_id s

  -- However a receive loop ends, by the end of the connection or by an exception, no connection is
  -- registered under the identity of its peer then, also not one that was registered while the loop
  -- ran.
  pub recv_loop-get :
      (on_packet : Packet → PeerConnection → Exec State (Unit {0})) (messages : List Bytes)
      (s : State)
      → Dict.get conn.peer_node_id (recv_loop H on_packet conn messages s).1.conns ≡ none
  unfolding recv_loop
  recv_loop-get on_packet [] s = remove-get conn.peer_node_id s
  recv_loop-get on_packet (message ∷ messages) s =
      after_receive-get (receive H on_packet conn message s).0 (recv_loop H on_packet conn messages)
        (receive H on_packet conn message s).1 (recv_loop-get on_packet messages)
