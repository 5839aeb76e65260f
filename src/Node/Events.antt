-- ===== src/Node/Events.antt =====
-- src/node/node.rs: the manager's events, with a manager that is running.
use v3_node.Base.{
  ℕ, ◌≡◌, refl, String, List, [], ◌∷◌, ◌++◌, none, some, length, take, drop, Result, ok, err, done,
}
use v3_node.Base.HashMap.{Hasher}
use v3_node.Peer.{PeerId, Net, PeerError}
use v3_node.Manager.State.{ManagerEvent, peer_connected, peer_disconnected, new_block, Task}
use v3_node.Manager.Registry.Invariant.{IsRegistry}
use v3_node.Manager.Loop.Peers.{infos-keys}
use v3_node.Manager.Handle.{list_peers}
use v3_node.Manager.Handle.Live.{live, list_peers-live}
use v3_node.Db.Text.{Text}
use v3_node.Node.{
  Alloy, RecvError, lagged, closed, Output, connected, disconnected, skipped, stopped, report,
  handle_peer_event,
}
use v3_node.Node.Watch.{FullIds, short_id_total}

module _ (net : Net) (alloy : Alloy net) where
  abbrev pub name : PeerId → Text
  name id = take 8 (alloy.id_lower_hex id) ++ 0x2026 ∷ take 8 (drop 120 (alloy.id_lower_hex id))

  -- The lines that an event is to print, with the number of peers.
  abbrev pub wanted_lines : ℕ → Result (ManagerEvent net) RecvError → List (Output net alloy)
  wanted_lines n (ok (peer_connected peer)) =
      connected (name peer.id) peer.eth_version peer.client_version n ∷ []
  wanted_lines n (ok (peer_disconnected peer none)) =
      disconnected (name peer.id) peer.eth_version peer.client_version n alloy.default_reason ∷ []
  wanted_lines n (ok (peer_disconnected peer (some reason))) =
      disconnected (name peer.id) peer.eth_version peer.client_version n reason ∷ []
  wanted_lines n (ok (new_block block)) = []
  wanted_lines n (err (lagged skips)) = skipped skips ∷ []
  wanted_lines n (err closed) = stopped ∷ []

module _ (net : Net) (alloy : Alloy net) (hasher : Hasher) (error_text : PeerError → String)
    (full : FullIds net alloy) (t : Task net) (v : IsRegistry net t.manager) where
  report-live :
      (id : PeerId) (line : Text → ℕ → Output net alloy)
      → ((report net alloy
            (live net hasher error_text)
            id
            line
            (list_peers net (live net hasher error_text) t)).0
          ≡ done (line (name net alloy id) (length t.manager.peers) ∷ []))
        × ((report net alloy
              (live net hasher error_text)
              id
              line
              (list_peers net (live net hasher error_text) t)).1.manager
            ≡ t.manager)
  unfolding report
  report-live id line =
      let asked = list_peers-live net hasher error_text t v in
      let size = (infos-keys net t.manager v hasher).1 in
      (rw (asked, report, short_id_total net alloy full id, size) refl, rw (asked, report) refl)

  -- If a PeerId is printed with 128 digits, and with a running manager whose registry is well formed,
  -- an event is handled with no panic: the line
  -- printed for a connection or a disconnection has the number of peers that the registry has then,
  -- and the registry stays as it is.
  pub handle_peer_event-live :
      (evt : Result (ManagerEvent net) RecvError)
      → ((handle_peer_event net alloy (live net hasher error_text) evt t).0
          ≡ done (wanted_lines net alloy (length t.manager.peers) evt))
        × ((handle_peer_event net alloy (live net hasher error_text) evt t).1.manager ≡ t.manager)
  unfolding handle_peer_event
  handle_peer_event-live (ok (peer_connected peer)) = report-live _ _
  handle_peer_event-live (ok (peer_disconnected peer none)) = report-live _ _
  handle_peer_event-live (ok (peer_disconnected peer (some reason))) = report-live _ _
  handle_peer_event-live (ok (new_block block)) = (refl, refl)
  handle_peer_event-live (err (lagged n)) = (refl, refl)
  handle_peer_event-live (err closed) = (refl, refl)
