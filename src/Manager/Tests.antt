-- ===== src/Manager/Tests.antt =====
-- src/network/manager.rs at concrete inputs.
use v3_node.Base.{◌≡◌, ◌⊎◌, refl, List, [], ◌∷◌, map, Option, none, some, ok, err, Run, done, arith}
use v3_node.Base.HashMap.{get, insert, remove, take_out, keys, values, stored_keys, lookup_all}
use v3_node.Peer.{
  disconnected, from_session, fetch_receipts, fetch70, fetch_legacy, send, receive, response,
  strip_blooms,
}
use v3_node.Manager.State.{
  PeerManager, active_peer_session, session_closed, fetch_receipts_from, connected_peers, Answer,
  peers_answer, receipts_answer, Task, Incoming, event, command, new,
}
use v3_node.Manager.Registry.{on_peer_connected, on_peer_removed, handle_network_event, evict}
use v3_node.Manager.Registry.Invariant.{IsRegistry, new-IsRegistry, on_peer_connected-IsRegistry}
use v3_node.Manager.Registry.Events.{Closed, handle_network_event-Closed}
use v3_node.Manager.Dispatch.{
  attempts, ask, is_disconnected, settle, fetch_from_any, fetch_from, do_fetch_receipts,
}
use v3_node.Manager.Dispatch.Scan.{scan, attempts-scan}
use v3_node.Manager.Dispatch.RoundRobin.{Outcome, Served, Unserved, fetch_from_any-Served}
use v3_node.Manager.Loop.{infos, handle_command, step, run}
use v3_node.Manager.Loop.Safety.{spawned, wanted, channel_of, run-spawned}
use v3_node.Manager.Handle.{request_from, request_any}
use v3_node.Manager.Handle.Live.{live, Passed, request_from-live, request_any-live}
use v3_node.Samples.{network, table, session, peer}

-- A manager to which peer 5 connected, then peer 6, whose session refuses requests.
abbrev one : PeerManager network
one = (on_peer_connected network (session 5 70) 9 (new network) (0, 0)).0

abbrev two : PeerManager network
two = (on_peer_connected network (session 6 66) 0 one (0, 0)).0

two-IsRegistry : IsRegistry network two
two-IsRegistry =
    on_peer_connected-IsRegistry network (session 6 66) 0 one (0, 0)
      (on_peer_connected-IsRegistry network (session 5 70) 9 (new network) (0, 0)
        (new-IsRegistry network))

-- The loop on a schedule that opens two sessions and asks for receipts: peer 6 is evicted.
abbrev schedule : List (Option (Incoming network))
schedule =
    some (event (active_peer_session (session 5 70) 9))
    ∷ some (event (active_peer_session (session 6 66) 0))
    ∷ some (command (fetch_receipts_from none (77 ∷ []) 40))
    ∷ some (command (fetch_receipts_from none (77 ∷ []) 41))
    ∷ some (command (connected_peers 42))
    ∷ none
    ∷ some (command (connected_peers 43))
    ∷ []

answers_of : Run (Task network) → List (Answer network)
answers_of (done t) = t.answers
answers_of _ = []

first_run :
    answers_of (run network table schedule (spawned network (0, 0)))
    ≡ receipts_answer 40 (ok ((9 ∷ []) ∷ []))
      ∷ receipts_answer 41 (ok ((9 ∷ []) ∷ []))
      ∷ peers_answer 42 ((peer 5 70 9).info ∷ [])
      ∷ []
unfolding answers_of run step handle_command handle_network_event on_peer_connected on_peer_removed
    evict do_fetch_receipts fetch_from fetch_from_any settle attempts ask is_disconnected infos
    values keys stored_keys lookup_all get insert remove take_out from_session fetch_receipts
    fetch70 fetch_legacy send receive response strip_blooms
first_run = refl

handle_network_event-Closed_example :
    (m' : PeerManager network) × (handle_network_event network
        (session_closed 6 (some 4))
        two
        (0, 0)
      ≡ done (m', (0, 0)))
    × Closed network 6 (some 4) two m'
handle_network_event-Closed_example =
    handle_network_event-Closed network (session_closed 6 (some 4)) 6 (some 4) two (0, 0) refl

attempts-scan_example :
    attempts network two.peers (5 ∷ 6 ∷ []) (77 ∷ []) 2 0 1 (disconnected 0) [] (0, 0)
    ≡ done (scan network two.peers (77 ∷ []) 1 2 (6 ∷ 5 ∷ []) 0 (disconnected 0) [] (0, 0))
attempts-scan_example =
    attempts-scan network two.peers (77 ∷ []) (5 ∷ 6 ∷ []) 1 2 0 (disconnected 0) [] (0, 0)
      (omega arith) refl

fetch_from_any-Served_example :
    (o : Outcome network table (77 ∷ []) two (0, 0)) × (fetch_from_any network table
        (77 ∷ [])
        two
        (0, 0)
      ≡ done o)
    × (Served network table (77 ∷ []) two (0, 0) o ⊎ Unserved network table (77 ∷ []) two (0, 0) o)
unfolding on_peer_connected insert remove from_session
fetch_from_any-Served_example =
    fetch_from_any-Served network table (77 ∷ []) two (0, 0) two-IsRegistry (omega arith)

refused_by_six :
    do_fetch_receipts network table (some 6) (77 ∷ []) two (0, 0)
    ≡ done (err (disconnected 6), two, (0, 1))
unfolding do_fetch_receipts get on_peer_connected insert remove from_session fetch_receipts
    fetch_legacy send
refused_by_six = refl

run-spawned_example :
    (t' : Task network) × (run network table schedule (spawned network (0, 0)) ≡ done t')
    × IsRegistry network t'.manager
    × (map (channel_of network) t'.answers ≡ wanted network schedule)
run-spawned_example = run-spawned network table schedule (0, 0)

abbrev running : Task network
running = record { manager = two; world = (0, 0); answers = [] }

request_from-live_example :
    (o : Outcome network table (77 ∷ []) two (0, 0)) × (do_fetch_receipts network table
        (some 6)
        (77 ∷ [])
        two
        (0, 0)
      ≡ done o)
    × ((request_from network (live network table (λ e. "x")) 6 (77 ∷ []) running).0 ≡ o.0)
    × ((request_from network (live network table (λ e. "x")) 6 (77 ∷ []) running).1.manager ≡ o.1)
request_from-live_example =
    request_from-live network table (λ e. "x") running two-IsRegistry 6 (77 ∷ [])

request_any-live_example :
    (o : Outcome network table (77 ∷ []) two (0, 0)) × (do_fetch_receipts network table none
        (77 ∷ [])
        two
        (0, 0)
      ≡ done o)
    × Passed network table
        (λ e. "x")
        o.0
        (request_any network (live network table (λ e. "x")) (77 ∷ []) running).0
    × ((request_any network (live network table (λ e. "x")) (77 ∷ []) running).1.manager ≡ o.1)
request_any-live_example =
    request_any-live network table (λ e. "x") running two-IsRegistry (77 ∷ [])
