-- ===== src/Manager/Registry.antt =====
-- src/network/manager.rs: sessions that open and close.
pub mod View
pub mod Invariant
pub mod Events
pub mod Eviction
pub mod Balance
pub mod Lookup
use v3_node.Base.{
  Result, ok, err, String, List, [], ◌∷◌, ◌++◌, Option, none, some, Run, panic, done, ◌>>=◌,
  if◌then◌else◌,
}
use v3_node.Base.HashMap.{get, contains_key, insert, take_out}
use v3_node.AppError.{AppError, network}
use v3_node.Peer.{PeerId, Net, Peer, SessionInfo, from_session}
use v3_node.Manager.State.{
  ManagerEvent, peer_connected, peer_disconnected, NetworkEvent, active_peer_session,
  session_closed, peer_removed, other, PeerManager,
}

module _ (net : Net) where
  abbrev pub emit : PeerManager net → ManagerEvent net → PeerManager net
  emit m sent = record m { event_tx = m.event_tx ++ sent ∷ [] }

  unfoldable pub on_peer_connected :
      SessionInfo net → net.Sender → PeerManager net → net.World → PeerManager net × net.World
  on_peer_connected info sender m w =
      let (peer, w') = from_session net info sender w in
      (emit (record m { peers = insert peer.info.id peer m.peers }) (peer_connected peer.info), w')

  -- `self.peers.get(&peer_id).unwrap()` panics on a missing key.
  unfoldable pub on_peer_removed :
      PeerId → Option net.Reason → PeerManager net → Run (PeerManager net)
  on_peer_removed id reason m = elim (get id m.peers) [
    | none ↦ panic
    | some peer ↦
        let (removed, rest) = take_out id m.peers in
        elim removed [
          | none ↦ done (record m { peers = rest })
          | some p ↦ done (emit (record m { peers = rest }) (peer_disconnected peer.info reason))
        ]
  ]

  unfoldable pub handle_network_event :
      NetworkEvent net → PeerManager net → net.World → Run (PeerManager net × net.World)
  handle_network_event (active_peer_session info sender) m w =
      done (on_peer_connected info sender m w)
  handle_network_event (session_closed id reason) m w =
      if contains_key id m.peers
      then (do m' ← on_peer_removed id reason m; done (m', w))
      else done (m, w)
  handle_network_event (peer_removed id) m w =
      if contains_key id m.peers
      then (do m' ← on_peer_removed id none m; done (m', w))
      else done (m, w)
  handle_network_event other m w = done (m, w)

  -- `for id in to_evict { self.on_peer_removed(id, None) }`
  unfoldable pub evict : List PeerId → PeerManager net → Run (PeerManager net)
  evict [] m = done m
  evict (id ∷ ids) m = do m' ← on_peer_removed id none m; evict ids m'

  -- The method `peer_info`; the first argument prints that a peer was not found.
  unfoldable pub peer_info :
      {Io : Type 0} → (PeerId → String) → PeerId → PeerManager net → Result (Peer net) (AppError Io)
  peer_info not_found id m = elim (get id m.peers) [
    | none ↦ err (network (not_found id))
    | some peer ↦ ok peer
  ]
