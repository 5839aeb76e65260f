-- ===== src/Node/Tests.antt =====
-- src/node/node.rs at concrete inputs.
use v3_node.Base.{◌≡◌, refl, List, [], ◌∷◌, none, some, length, ok, err, done}
use v3_node.Pool.{collect, decode_pool_calldata, decode_selector, slice, try_into, from_be}
use v3_node.Manager.State.{PeerManager, Task, peer_connected, new}
use v3_node.Manager.Registry.{on_peer_connected}
use v3_node.Manager.Registry.Invariant.{IsRegistry, new-IsRegistry, on_peer_connected-IsRegistry}
use v3_node.Manager.Handle.Live.{live}
use v3_node.Db.Text.{codes}
use v3_node.Node.{
  TransactionEvent, incoming_transactions, Output, interaction, decoded_call, Round, peer_evt,
  tx_evt, closed, find_pool, scan_tx, scan_txs, handle_tx_event, start, run_tasks,
}
use v3_node.Node.Watch.{
  FullIds, reports, responses, event_reports, event_responses, handle_tx_event_total,
}
use v3_node.Node.Checksum.{scan_tx-has_upper}
use v3_node.Node.Schedule.{AllWanted, tasks_of, start-live}
use v3_node.Samples.{network, table, session, peer}
use v3_node.Samples.Ledger.{Transfer, ledger, watched}

-- To an unwatched receiver in two cases, to a watched one, and to none.
abbrev three : List Transfer
three = (some 7, 100, 1 ∷ []) ∷ (some 8, 101, 0x4f ∷ 0x1e ∷ 0xb3 ∷ 0xd8 ∷ []) ∷ (none, 102, []) ∷ []

abbrev gossip : TransactionEvent network ledger
gossip = incoming_transactions 5 three

one_line :
    handle_tx_event network ledger watched gossip
    ≡ done (interaction (codes "0x12") 101 3 ∷ decoded_call collect ∷ [])
unfolding handle_tx_event scan_txs scan_tx find_pool decode_pool_calldata decode_selector slice
    try_into from_be
one_line = refl

full_ids : FullIds network ledger
full_ids id = refl

handle_tx_event_total_example :
    (lines : List (Output network ledger)) × (handle_tx_event network ledger watched gossip
      ≡ done lines)
    × (reports network ledger lines ≡ event_reports network ledger watched gossip)
    × (responses network ledger lines ≡ event_responses network ledger watched gossip)
handle_tx_event_total_example = handle_tx_event_total network ledger watched full_ids gossip

scan_tx-has_upper_example : scan_tx network ledger watched (some 7, 100, 1 ∷ []) ≡ done []
scan_tx-has_upper_example =
    scan_tx-has_upper network ledger watched (some 7, 100, 1 ∷ []) 7 (refl, (refl, tt)) refl refl

abbrev one_peer : PeerManager network
one_peer = (on_peer_connected network (session 5 70) 9 (new network) (0, 0)).0

one_peer-IsRegistry : IsRegistry network one_peer
one_peer-IsRegistry =
    on_peer_connected-IsRegistry network (session 5 70) 9 (new network) (0, 0)
      (new-IsRegistry network)

abbrev running : Task network
running = record { manager = one_peer; world = (0, 0); answers = [] }

-- Both channels closed, and the rounds go on.
abbrev rounds : List (Round network ledger)
rounds =
    peer_evt (ok (peer_connected (peer 5 70 9).info))
    ∷ tx_evt (some gossip)
    ∷ tx_evt none
    ∷ peer_evt (err closed)
    ∷ peer_evt (err closed)
    ∷ tx_evt none
    ∷ []

start-live_example :
    AllWanted network ledger watched
      (length one_peer.peers)
      (tasks_of network ledger watched rounds)
      (run_tasks network ledger watched
        (live network table (λ e. "x"))
        (start network ledger rounds)
        running).0
    × ((run_tasks network ledger watched
          (live network table (λ e. "x"))
          (start network ledger rounds)
          running).1.manager
        ≡ one_peer)
start-live_example =
    start-live network ledger watched table (λ e. "x") full_ids running one_peer-IsRegistry rounds
