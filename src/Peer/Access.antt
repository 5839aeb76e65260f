-- ===== src/Peer/Access.antt =====
-- src/network/peer.rs: the accessors of a peer.
use v3_node.Base.{ℕ, ◌≡◌, refl}
use v3_node.Peer.{PeerId, Net, SessionInfo, PeerInfo, Peer, from_session}

module _ (net : Net) where
  abbrev pub id : Peer net → PeerId
  id peer = peer.info.id

  abbrev pub remote_addr : Peer net → net.Addr
  remote_addr peer = peer.info.remote_addr

  abbrev pub eth_version : Peer net → ℕ
  eth_version peer = peer.info.eth_version

  abbrev pub info : Peer net → PeerInfo net
  info peer = peer.info

  -- A peer made from a session says of itself what the session says.
  from_session-access :
      (session : SessionInfo net) (sender : net.Sender) (w : net.World)
      → (id (from_session net session sender w).0 ≡ session.peer_id)
        × (remote_addr (from_session net session sender w).0 ≡ session.remote_addr)
        × (eth_version (from_session net session sender w).0 ≡ session.version)
        × ((info (from_session net session sender w).0).connected_at ≡ (net.now w).0)
  unfolding from_session
  from_session-access session sender w = (refl, refl, refl, refl)
