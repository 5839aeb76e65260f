-- ===== src/Node/Overlap/Tests.antt =====
-- src/node/node.rs: tasks that overlap, at a concrete state.
use v3_node.Base.{◌+◌, ◌≤◌, ◌≡◌, refl, true, none, some, [], ◌∷◌, ◌++◌, map, length, ok, err, arith}
use mathlib.Core.List.{Memᴰ}
use v3_node.Peer.{from_session}
use v3_node.Manager.State.{
  ManagerEvent, peer_connected, connected_peers, peers_answer, active_peer_session, Task, event,
  command, new,
}
use v3_node.Manager.Registry.{on_peer_connected, handle_network_event}
use v3_node.Manager.Loop.{infos, handle_command, step}
use v3_node.Manager.System.{System, Step, round, running, Reach}
use v3_node.Manager.System as S
use v3_node.Manager.Registry.Balance.{opened, closed}
use v3_node.Node.{lagged}
use v3_node.Node.Feed.{drained, received, connections, disconnections, misses, printed}
use v3_node.Node.Overlap.{
  Event, submitted, finish, Desk, manager, take, ask, answer, Reached, start, later,
}
use v3_node.Node.Overlap.Counted.{Reached-Delivery}
use v3_node.Samples.{network, table, peer, session}
use v3_node.Samples.Ledger.{ledger}

abbrev connection_event : ManagerEvent network
connection_event = peer_connected (peer 5 70 9).info

abbrev connection : Event network
connection = ok connection_event

abbrev lag : Event network
lag = err (lagged 2)

-- Peer 6 connected before the node subscribed.
abbrev early_task : Task network
early_task =
    let (m, w) = on_peer_connected network (session 6 66) 0 (new network) (0, 0) in
    record { manager = m; world = w; answers = [] }

abbrev early : System network
early = record { phase = running; task = early_task; pending = []; opened = 0 }

early-Reach : Reach network table (0, 0) early
unfolding step handle_network_event
early-Reach =
    S.later (S.start refl)
      (round (event (active_peer_session (session 6 66) 0)) [] early_task refl refl refl refl)

-- Two events were taken: the task of the first waits for the peers, and the one of the second is over.
abbrev desk : Desk network ledger
desk = record {
  since = early.task.manager.event_tx;
  taken = connection ∷ lag ∷ [];
  system = submitted network early;
  sent = (0, connection) ∷ [];
  spawned = [];
  asked = (0, connection) ∷ [];
  over = finish network ledger true none lag ∷ [];
}

-- A session opens, its event is taken, and its task asks for the peers and gets them.
abbrev connected_task : Task network
connected_task =
    let (m, w) = on_peer_connected network (session 5 70) 9 early_task.manager early_task.world in
    record { manager = m; world = w; answers = [] }

abbrev answered_task : Task network
answered_task = record connected_task {
  answers = [] ++ peers_answer 0 (infos network table connected_task.manager) ∷ [];
}

abbrev with_session : System network
with_session = record early { task = connected_task }

abbrev with_request : System network
with_request = submitted network with_session

abbrev with_reply : System network
with_reply = record with_request { task = answered_task; pending = [] }

opens_session : Step network table early with_session
unfolding step handle_network_event
opens_session =
    round (event (active_peer_session (session 5 70) 9)) [] connected_task refl refl refl refl

serves_request : Step network table with_request with_reply
unfolding step handle_command
serves_request = round (command (connected_peers 0)) [] answered_task refl refl refl refl

abbrev finished : Desk network ledger
finished = record {
  since = early.task.manager.event_tx;
  taken = connection ∷ [];
  system = with_reply;
  sent = (0, connection) ∷ [];
  spawned = [];
  asked = [];
  over =
      finish network ledger true (some (infos network table connected_task.manager)) connection
      ∷ [];
}

finished-Reached : Reached network ledger table (0, 0) finished
finished-Reached =
    later
      (later
        (later
          (later (later (start early early-Reach refl) (manager with_session opens_session refl))
            (take connection refl))
          (ask [] [] connection refl refl refl (omega arith) refl))
        (manager with_reply serves_request refl))
      (answer [] [] 0 connection (infos network table connected_task.manager) refl (Memᴰ.head refl)
        refl)

log_grows : finished.system.task.manager.event_tx ≡ finished.since ++ connection_event ∷ []
unfolding on_peer_connected from_session
log_grows = refl

Reached-Delivery_example :
    (length finished.since
        + connections (printed (map (λ o. o.1) finished.over))
        + disconnections (printed (map (λ o. o.1) finished.over))
        + misses (printed (map (λ o. o.1) finished.over))
      ≡ length finished.system.task.manager.event_tx)
    × (length finished.system.task.manager.peers
          + closed finished.since
          + disconnections (printed (map (λ o. o.1) finished.over))
        ≤ opened finished.since
          + connections (printed (map (λ o. o.1) finished.over))
          + misses (printed (map (λ o. o.1) finished.over)))
Reached-Delivery_example =
    Reached-Delivery network ledger table (connection_event ∷ []) (λ id. refl) finished-Reached refl
      refl refl log_grows (received connection_event [] [] drained)
