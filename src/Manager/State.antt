-- ===== src/Manager/State.antt =====
-- src/network/manager.rs: the events, the commands and the state of the manager.
use v3_node.Base.{ℕ, List, [], Option, Result}
use v3_node.Base.HashMap.{HashMap}
use v3_node.Peer.{PeerId, BlockHash, PeerError, Net, SessionInfo, PeerInfo, Peer, Receipts}

pub data ManagerEvent (net : Net) : Type 0 where
  peer_connected : PeerInfo net → ManagerEvent net
  peer_disconnected : PeerInfo net → Option net.Reason → ManagerEvent net
  new_block : net.NewBlock → ManagerEvent net

-- The last argument is the channel on which the reply is awaited.
pub data Command : Type 0 where
  fetch_receipts_from : Option PeerId → List BlockHash → ℕ → Command
  connected_peers : ℕ → Command

-- The events of the network that the manager tells apart; `other` is any further one.
pub data NetworkEvent (net : Net) : Type 0 where
  active_peer_session : SessionInfo net → net.Sender → NetworkEvent net
  session_closed : PeerId → Option net.Reason → NetworkEvent net
  peer_removed : PeerId → NetworkEvent net
  other : NetworkEvent net

-- A value sent on a reply channel.
pub data Answer (net : Net) : Type 0 where
  receipts_answer : ℕ → Result (Receipts net) PeerError → Answer net
  peers_answer : ℕ → List (PeerInfo net) → Answer net

-- `event_tx` holds the events that were sent, oldest first.
pub record PeerManager (net : Net) : Type 0 where
  pub peers : HashMap (Peer net)
  pub rr_index : ℕ
  pub event_tx : List (ManagerEvent net)

-- The manager's task: its state, the world outside, and the answers that it sent, oldest first.
pub record Task (net : Net) : Type 0 where
  pub manager : PeerManager net
  pub world : net.World
  pub answers : List (Answer net)

-- What a round of the main loop takes up.
pub data Incoming (net : Net) : Type 0 where
  event : NetworkEvent net → Incoming net
  command : Command → Incoming net

module _ (net : Net) where
  abbrev pub new : PeerManager net
  new = record { peers = []; rr_index = 0; event_tx = [] }
