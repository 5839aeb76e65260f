-- ===== src/Manager/Registry/Invariant.antt =====
-- src/network/manager.rs: what a well-formed registry is, and what the events of the network do to it.
use v3_node.Base.{◌≤◌, ◌≡◌, refl, Option, none, some, Option-cases, inl, inr, done, arith}
use v3_node.Base.Count.{count}
use v3_node.Base.HashMap.{get, remove, take_out, contains_key, stored_keys, map_laws}
use v3_node.Peer.{PeerId, Net, PeerInfo, Peer, SessionInfo, from_session}
use v3_node.Manager.State.{
  PeerManager, peer_disconnected, NetworkEvent, active_peer_session, session_closed, peer_removed,
  other, new,
}
use v3_node.Manager.Registry.{emit, on_peer_connected, on_peer_removed, handle_network_event}
use v3_node.Manager.Registry.View.{unseen, watch, watch-append}

module _ (net : Net) where
  abbrev info_of : Option (Peer net) → Option (PeerInfo net)
  info_of none = none
  info_of (some p) = some p.info

  -- Every peer is filed under its own id, no id is filed twice, and a subscriber that has seen every
  -- event knows exactly the peers that are filed, each with its data.
  pub record IsRegistry (m : PeerManager net) : Type 0 where
    pub keyed : (k : PeerId) (p : Peer net) → get k m.peers ≡ some p → p.info.id ≡ k
    pub distinct : (k : PeerId) → count k (stored_keys m.peers) ≤ 1
    pub announced : (k : PeerId) → watch unseen m.event_tx k ≡ info_of (get k m.peers)

  pub new-IsRegistry : IsRegistry (new net)
  unfolding get stored_keys watch
  new-IsRegistry = record {
    keyed = λ k p e. ground arith;
    distinct = λ k. omega arith;
    announced = λ k. refl;
  }

  pub on_peer_connected-IsRegistry :
      (info : SessionInfo net) (sender : net.Sender) (m : PeerManager net) (w : net.World)
      → IsRegistry m
      → IsRegistry (on_peer_connected net info sender m w).0
  unfolding on_peer_connected from_session
  on_peer_connected-IsRegistry info sender m w v = record {
    keyed = λ k p e. grind (arith, map_laws, v.keyed);
    distinct = λ k. grind (arith, map_laws, v.distinct);
    announced = λ k. grind (arith, map_laws, watch-append, v.announced);
  }

  -- The registry without a peer that was there.
  abbrev pub without : PeerId → Option net.Reason → Peer net → PeerManager net → PeerManager net
  without id reason peer m =
      emit net (record m { peers = remove id m.peers }) (peer_disconnected peer.info reason)

  pub on_peer_removed_lem :
      (id : PeerId) (reason : Option net.Reason) (m : PeerManager net) (peer : Peer net)
      → get id m.peers ≡ some peer
      → on_peer_removed net id reason m ≡ done (without id reason peer m)
  unfolding on_peer_removed take_out
  on_peer_removed_lem id reason m peer e = ground arith

  pub without-IsRegistry :
      (id : PeerId) (reason : Option net.Reason) (m : PeerManager net) (peer : Peer net)
      → get id m.peers ≡ some peer
      → IsRegistry m
      → IsRegistry (without id reason peer m)
  without-IsRegistry id reason m peer e v = record {
    keyed = λ k p h. grind (arith, map_laws, v.keyed);
    distinct = λ k. grind (arith, map_laws, v.distinct);
    announced = λ k. grind (arith, map_laws, watch-append, v.announced, v.keyed id peer e);
  }

  -- From a well-formed registry no event makes the manager panic, and it stays well formed.
  pub handle_network_event-IsRegistry :
      (e : NetworkEvent net) (m : PeerManager net) (w : net.World)
      → IsRegistry m
      → (r : PeerManager net × net.World) × (handle_network_event net e m w ≡ done r)
        × IsRegistry r.0
  unfolding handle_network_event contains_key
  handle_network_event-IsRegistry (active_peer_session info sender) m w v =
      (on_peer_connected net info sender m w, refl, on_peer_connected-IsRegistry info sender m w v)
  handle_network_event-IsRegistry (session_closed id reason) m w v =
      elim (Option-cases (get id m.peers)) [
        | inl e ↦ ((m, w), ground arith, v)
        | inr (p, e) ↦ (
          (without id reason p m, w),
          ground (arith, on_peer_removed_lem id reason m p e),
          without-IsRegistry id reason m p e v,
        )
      ]
  handle_network_event-IsRegistry (peer_removed id) m w v = elim (Option-cases (get id m.peers)) [
    | inl e ↦ ((m, w), ground arith, v)
    | inr (p, e) ↦ (
      (without id none p m, w),
      ground (arith, on_peer_removed_lem id none m p e),
      without-IsRegistry id none m p e v,
    )
  ]
  handle_network_event-IsRegistry other m w v = ((m, w), refl, v)
