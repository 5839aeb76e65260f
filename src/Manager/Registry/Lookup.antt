-- ===== src/Manager/Registry/Lookup.antt =====
-- src/network/manager.rs: the lookup of a peer, against the events that were sent.
use v3_node.Base.{◌≡◌, ◌⊎◌, refl, String, none, some, Option-cases, inl, inr, ok, err, arith}
use v3_node.Base.HashMap.{get}
use v3_node.AppError.{network}
use v3_node.Peer.{PeerId, Net, Peer}
use v3_node.Manager.State.{PeerManager}
use v3_node.Manager.Registry.{peer_info}
use v3_node.Manager.Registry.View.{unseen, watch}
use v3_node.Manager.Registry.Invariant.{IsRegistry}

module _ (net : Net) {Io : Type 0} (not_found : PeerId → String) (m : PeerManager net)
    (id : PeerId) where
  -- What a lookup finds: a peer under its own id, of which a subscriber to all events knows the same
  -- data; or nothing, and then the subscriber knows of no such peer.
  pub peer_info-watch :
      IsRegistry net m
      → ((p : Peer net) × (peer_info net {Io = Io} not_found id m ≡ ok p)
          × (p.info.id ≡ id)
          × (watch unseen m.event_tx id ≡ some p.info))
        ⊎ ((peer_info net {Io = Io} not_found id m ≡ err (network (not_found id)))
            × (watch unseen m.event_tx id ≡ none))
  unfolding peer_info
  peer_info-watch v = elim (Option-cases (get id m.peers)) [
    | inl missing ↦ inr (rw (peer_info, missing) refl, ground (arith, v.announced id))
    | inr (p, there) ↦
        inl (p, rw (peer_info, there) refl, v.keyed id p there, ground (arith, v.announced id))
  ]
