-- ===== src/Manager/Loop/Tests.antt =====
-- src/network/manager.rs: a peer among sessions that open and close.
use v3_node.Base.{◌+◌, length, none, Option, ◌≡◌, refl, false, List, [], ◌∷◌, map, some, done}
use v3_node.Base.HashMap.{contains_key}
use v3_node.Manager.State.{
  Task, Incoming, event, command, active_peer_session, session_closed, connected_peers,
}
use v3_node.Manager.Loop.{run}
use v3_node.Manager.Loop.Safety.{spawned}
use v3_node.Manager.Loop.History.{is_open, run-is_open, run-AllDirect}
use v3_node.Manager.Registry.View.{unseen}
use v3_node.Manager.Registry.Balance.{opened, closed, reopened}
use v3_node.Manager.Loop.Balance.{run-sessions}
use v3_node.Samples.{network, table, session}

abbrev rounds : List (Incoming network)
rounds =
    event (active_peer_session (session 5 70) 9)
    ∷ event (active_peer_session (session 6 66) 0)
    ∷ event (session_closed 5 (some 4))
    ∷ command (connected_peers 40)
    ∷ []

run-is_open_example :
    (t' : Task network) × (run network table (map some rounds) (spawned network (0, 0)) ≡ done t')
    × (contains_key 5 t'.manager.peers ≡ false)
run-is_open_example = run-is_open network 5 table rounds (0, 0) refl

run-AllDirect_example :
    (t' : Task network) × (run network table (map some rounds) (spawned network (0, 0)) ≡ done t')
    × (contains_key 6 t'.manager.peers ≡ is_open network 6 rounds false)
run-AllDirect_example = run-AllDirect network 6 table rounds (0, 0) (tt, (tt, (tt, (tt, tt))))

-- Peer 6 connects twice.
abbrev again_rounds : List (Option (Incoming network))
again_rounds =
    some (event (active_peer_session (session 6 66) 0))
    ∷ some (event (active_peer_session (session 6 66) 0))
    ∷ none
    ∷ []

run-sessions_example :
    (t' : Task network) × (run network table again_rounds (spawned network (0, 0)) ≡ done t')
    × (length t'.manager.peers + closed t'.manager.event_tx + reopened unseen t'.manager.event_tx
        ≡ opened t'.manager.event_tx)
    × (length t'.manager.event_tx ≡ opened t'.manager.event_tx + closed t'.manager.event_tx)
run-sessions_example = run-sessions network table again_rounds (0, 0)
