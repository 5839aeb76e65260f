-- ===== src/Manager/System.antt =====
-- src/network/manager.rs: the manager's task among its callers and the network, interleaved in any
-- order.
pub mod Runs
pub mod Invariant
pub mod Drain
pub mod Snapshots
mod Tests
use v3_node.Base.{
  ℕ, suc, ◌+◌, ◌<◌, ◌≡◌, List, [], ◌∷◌, ◌++◌, Option, none, length, Run, panic, done,
}
use v3_node.Base.HashMap.{Hasher}
use v3_node.Peer.{PeerId, BlockHash, Net}
use v3_node.Manager.State.{
  Command, fetch_receipts_from, connected_peers, Task, Incoming, event, command, new,
}
use v3_node.Manager.Loop.{step}

-- `mpsc::channel(128)`
abbrev pub command_capacity : ℕ
command_capacity = 128

-- What a caller asks for; the reply channel is opened when the command is sent.
pub data Request : Type 0 where
  receipts : Option PeerId → List BlockHash → Request
  peers : Request

abbrev pub command_of : Request → ℕ → Command
command_of (receipts target hashes) reply = fetch_receipts_from target hashes reply
command_of peers reply = connected_peers reply

pub data Phase : Type 0 where
  running stopped crashed : Phase

module _ (net : Net) where
  -- The task, the commands in its channel, oldest first, and how many reply channels were opened.
  pub record System : Type 0 where
    pub phase : Phase
    pub task : Task net
    pub pending : List Command
    pub opened : ℕ

  -- What a round takes up: an event of the network, or the oldest command, with those left.
  abbrev pub Takes : Incoming net → List Command → List Command → Type 0
  Takes (event e) pending rest = pending ≡ rest
  Takes (command c) pending rest = pending ≡ c ∷ rest

  module _ (hasher : Hasher) where
    -- A caller sends a command if the channel has room, else it waits; the loop takes a round, which
    -- may panic; or a source is closed, and the receiver is dropped with what it holds.
    pub data Step (s t : System) : Type 0 where
      submit :
          (r : Request)
          → s.phase ≡ running
          → length s.pending < command_capacity
          → t
            ≡ record s { pending = s.pending ++ command_of r s.opened ∷ []; opened = suc s.opened }
          → Step s t
      round :
          (i : Incoming net) (rest : List Command) (task' : Task net)
          → s.phase ≡ running
          → Takes i s.pending rest
          → step net hasher i s.task ≡ done task'
          → t ≡ record s { task = task'; pending = rest }
          → Step s t
      crash :
          (i : Incoming net) (rest : List Command)
          → s.phase ≡ running
          → Takes i s.pending rest
          → step net hasher i s.task ≡ panic
          → t ≡ record s { phase = crashed; pending = [] }
          → Step s t
      close : s.phase ≡ running → t ≡ record s { phase = stopped; pending = [] } → Step s t

    abbrev pub launched : net.World → System
    launched w = record {
      phase = running;
      task = record { manager = new net; world = w; answers = [] };
      pending = [];
      opened = 0;
    }

    pub data Reach (w : net.World) : System → Type 0 where
      start : {t : System} → t ≡ launched w → Reach w t
      later : {s t : System} → Reach w s → Step s t → Reach w t
