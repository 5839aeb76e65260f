-- ===== src/Manager/Loop.antt =====
-- src/network/manager.rs: the commands and the main loop.
pub mod Safety
pub mod Peers
pub mod History
pub mod Balance
mod Tests
use v3_node.Base.{List, [], ◌∷◌, ◌++◌, map, Option, none, some, Run, panic, done, ◌>>=◌}
use v3_node.Base.HashMap.{Hasher, values}
use v3_node.Peer.{Net, PeerInfo}
use v3_node.Manager.State.{
  Command, fetch_receipts_from, connected_peers, receipts_answer, peers_answer, PeerManager, Task,
  Incoming, event, command,
}
use v3_node.Manager.Registry.{handle_network_event}
use v3_node.Manager.Dispatch.{do_fetch_receipts}

module _ (net : Net) where
  unfoldable pub infos : Hasher → PeerManager net → List (PeerInfo net)
  infos hasher m = map (λ p. p.info) (values hasher m.peers)

  unfoldable pub handle_command : Hasher → Command → Task net → Run (Task net)
  handle_command hasher (fetch_receipts_from target hashes reply) t = do
    (result, m, w) ← do_fetch_receipts net hasher target hashes t.manager t.world
    done (record {
      manager = m;
      world = w;
      answers = t.answers ++ receipts_answer reply result ∷ [];
    })
  handle_command hasher (connected_peers reply) t =
      done (record t { answers = t.answers ++ peers_answer reply (infos hasher t.manager) ∷ [] })

  -- What the `select!` of the main loop comes to in one round.
  unfoldable pub step : Hasher → Incoming net → Task net → Run (Task net)
  step hasher (event e) t = do
    (m, w) ← handle_network_event net e t.manager t.world
    done (record t { manager = m; world = w })
  step hasher (command c) t = handle_command hasher c t

  -- The loop over a schedule of rounds; it ends when a source is closed.
  unfoldable pub run : Hasher → List (Option (Incoming net)) → Task net → Run (Task net)
  run hasher [] t = done t
  run hasher (none ∷ rounds) t = done t
  run hasher (some i ∷ rounds) t = elim (step hasher i t) [
    | panic ↦ panic
    | done t' ↦ run hasher rounds t'
  ]
