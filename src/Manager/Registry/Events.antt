-- ===== src/Manager/Registry/Events.antt =====
-- src/network/manager.rs: what one event of the network changes, and what is announced of it.
use v3_node.Base.{
  ◌==◌, ◌≡◌, refl, [], ◌∷◌, ◌++◌, Option, none, some, Option-cases, inl, inr, done, if◌then◌else◌,
  arith,
}
use v3_node.Base.HashMap.{get, contains_key, get-remove}
use v3_node.Peer.{PeerId, Net, Peer}
use v3_node.Manager.State.{
  PeerManager, peer_disconnected, NetworkEvent, active_peer_session, session_closed, peer_removed,
  other,
}
use v3_node.Manager.Registry.{on_peer_removed, handle_network_event}
use v3_node.Manager.Registry.Invariant.{without, on_peer_removed_lem}

module _ (net : Net) where
  -- The session that an event closes, and the reason that it gives.
  abbrev pub closes : NetworkEvent net → Option (PeerId × Option net.Reason)
  closes (session_closed id reason) = some (id, reason)
  closes (peer_removed id) = some (id, none)
  closes _ = none

  -- What a closing event makes of the manager.
  pub record Closed (id : PeerId) (reason : Option net.Reason) (m m' : PeerManager net)
      : Type 0 where
    pub absent : get id m.peers ≡ none → m' ≡ m
    pub announced :
        (p : Peer net)
        → get id m.peers ≡ some p
        → m'.event_tx ≡ m.event_tx ++ peer_disconnected p.info reason ∷ []
    pub gone : (k : PeerId) → get k m'.peers ≡ (if id == k then none else get k m.peers)
    pub cursor : m'.rr_index ≡ m.rr_index

  removed_Closed :
      (id : PeerId) (reason : Option net.Reason) (m : PeerManager net) (p : Peer net)
      → get id m.peers ≡ some p
      → Closed id reason m (without net id reason p m)
  removed_Closed id reason m p e = record {
    absent = λ h. ground arith;
    announced = λ q h. ground arith;
    gone = λ k. get-remove id k m.peers;
    cursor = refl;
  }

  kept_Closed :
      (id : PeerId) (reason : Option net.Reason) (m : PeerManager net)
      → get id m.peers ≡ none
      → Closed id reason m m
  kept_Closed id reason m e = record {
    absent = λ h. refl;
    announced = λ q h. ground arith;
    gone = λ k. ground arith;
    cursor = refl;
  }

  close_step :
      (id : PeerId) (reason : Option net.Reason) (m : PeerManager net)
      → (m' : PeerManager net) × ((if contains_key id m.peers
            then on_peer_removed net id reason m
            else done m)
          ≡ done m')
        × Closed id reason m m'
  unfolding contains_key
  close_step id reason m = elim (Option-cases (get id m.peers)) [
    | inl e ↦ (m, ground arith, kept_Closed id reason m e)
    | inr (p, e) ↦ (
      without net id reason p m,
      ground (arith, on_peer_removed_lem net id reason m p e),
      removed_Closed id reason m p e,
    )
  ]

  -- A closing event never panics. For an unknown session it changes nothing; for a registered one it
  -- announces the disconnection of that peer, with the reason, once and last. In both cases that id
  -- alone is unregistered afterwards, and neither the round-robin index nor the world changes.
  pub handle_network_event-Closed :
      (e : NetworkEvent net) (id : PeerId) (reason : Option net.Reason) (m : PeerManager net)
      (w : net.World)
      → closes e ≡ some (id, reason)
      → (m' : PeerManager net) × (handle_network_event net e m w ≡ done (m', w))
        × Closed id reason m m'
  unfolding handle_network_event contains_key
  handle_network_event-Closed (session_closed i r) id reason m w h =
      let same_id : id ≡ i = ground arith in
      let same_reason : reason ≡ r = ground arith in
      let (m', e, c) = close_step i r m in rw (same_id, same_reason) (m', ground arith, c)
  handle_network_event-Closed (peer_removed i) id reason m w h =
      let same_id : id ≡ i = ground arith in
      let same_reason : reason ≡ none = ground arith in
      let (m', e, c) = close_step i none m in rw (same_id, same_reason) (m', ground arith, c)
  handle_network_event-Closed (active_peer_session info sender) id reason m w h = ground arith
  handle_network_event-Closed other id reason m w h = ground arith
