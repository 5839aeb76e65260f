-- ===== src/Node/Overlap.antt =====
-- src/node/node.rs: the spawned tasks that handle the manager's events, interleaved with the manager
-- and with each other in any order.
pub mod Finish
pub mod Answers
pub mod Told
pub mod Taken
pub mod Waits
pub mod Settled
pub mod Counted
mod Tests
use v3_node.Base.{
  ℕ, suc, ◌<◌, ◌≡◌, Bool, true, false, List, [], ◌∷◌, ◌++◌, Option, none, some, length, Result, ok,
  err, Run,
}
use mathlib.Core.List.{Memᴰ}
use v3_node.Base.HashMap.{Hasher}
use v3_node.Peer.{Net, PeerInfo}
use v3_node.Manager.State.{ManagerEvent, peer_connected, peer_disconnected, new_block, peers_answer}
use v3_node.Manager.Handle.{Mailbox}
use v3_node.Manager.System.{System, Step, running, command_capacity, peers, command_of, Reach}
use v3_node.Node.{Alloy, RecvError, Output, handle_peer_event}

module _ (net : Net) where
  abbrev pub Event : Type 0
  Event = Result (ManagerEvent net) RecvError

  -- The handle as a task sees it whose request for the peers is taken or not, and gets this reply, or
  -- none.
  abbrev mailbox_with : Bool → Option (List (PeerInfo net)) → Mailbox net
  mailbox_with taken reply = record {
    State = Unit {0};
    Io = Unit {0};
    error_text = λ e. "";
    oneshot = λ s. (0, s);
    send = λ c s. (taken, s);
    await_receipts = λ channel s. (none, s);
    await_peers = λ channel s. (reply, s);
  }

  -- The system with one more request for the peers.
  abbrev pub submitted : System net → System net
  submitted s = record s {
    pending = s.pending ++ command_of peers s.opened ∷ [];
    opened = suc s.opened;
  }

  -- The events whose task asks for the peers.
  abbrev pub asks : Event → Bool
  asks (ok (peer_connected peer)) = true
  asks (ok (peer_disconnected peer reason)) = true
  asks (ok (new_block block)) = false
  asks (err e) = false

  module _ (alloy : Alloy net) where
    abbrev pub Outcome : Type 0
    Outcome = Event × Run (List (Output net alloy))

    -- How a task goes on, once its request is refused, or it has the reply or knows that none comes.
    abbrev pub finish : Bool → Option (List (PeerInfo net)) → Event → Outcome
    finish taken reply evt =
        (evt, (handle_peer_event net alloy (mailbox_with taken reply) evt tt).0)

    -- The manager with its callers; the events that it had sent when the node subscribed, and those that
    -- the loop took; the requests of the tasks, by channel; the tasks that were spawned, those that wait
    -- for a reply on a channel, and those that are over.
    pub record Desk : Type 0 where
      pub since : List (ManagerEvent net)
      pub taken : List Event
      pub system : System net
      pub sent : List (ℕ × Event)
      pub spawned : List Event
      pub asked : List (ℕ × Event)
      pub over : List Outcome

    module _ (hasher : Hasher) where
      -- The manager, the network or another caller takes a step; the loop of `start` spawns a task; a
      -- task that needs no peers runs to its end; another sends its command, if there is room, or
      -- finds the manager gone; and a task whose reply was sent, or dropped, runs to its end.
      pub data Turn (s t : Desk) : Type 0 where
        manager :
            (u : System net) → Step net hasher s.system u → t ≡ record s { system = u } → Turn s t
        take :
            (evt : Event)
            → t ≡ record s { taken = s.taken ++ evt ∷ []; spawned = s.spawned ++ evt ∷ [] }
            → Turn s t
        quiet :
            (before after : List Event) (evt : Event)
            → s.spawned ≡ before ++ evt ∷ after
            → asks evt ≡ false
            → t ≡ record s { spawned = before ++ after; over = s.over ++ finish true none evt ∷ [] }
            → Turn s t
        ask :
            (before after : List Event) (evt : Event)
            → s.spawned ≡ before ++ evt ∷ after
            → asks evt ≡ true
            → s.system.phase ≡ running
            → length s.system.pending < command_capacity
            → t ≡ record s {
              system = submitted s.system;
              sent = s.sent ++ (s.system.opened, evt) ∷ [];
              spawned = before ++ after;
              asked = s.asked ++ (s.system.opened, evt) ∷ [];
            }
            → Turn s t
        refuse :
            (before after : List Event) (evt : Event)
            → s.spawned ≡ before ++ evt ∷ after
            → asks evt ≡ true
            → ¬ (s.system.phase ≡ running)
            → t
              ≡ record s { spawned = before ++ after; over = s.over ++ finish false none evt ∷ [] }
            → Turn s t
        answer :
            (before after : List (ℕ × Event)) (channel : ℕ) (evt : Event)
            (infos : List (PeerInfo net))
            → s.asked ≡ before ++ (channel, evt) ∷ after
            → Memᴰ (peers_answer channel infos) s.system.task.answers
            → t ≡ record s {
              asked = before ++ after;
              over = s.over ++ finish true (some infos) evt ∷ [];
            }
            → Turn s t
        drop :
            (before after : List (ℕ × Event)) (channel : ℕ) (evt : Event)
            → s.asked ≡ before ++ (channel, evt) ∷ after
            → ¬ (s.system.phase ≡ running)
            → ((infos : List (PeerInfo net))
                → ¬ Memᴰ (peers_answer channel infos) s.system.task.answers)
            → t ≡ record s { asked = before ++ after; over = s.over ++ finish true none evt ∷ [] }
            → Turn s t

      -- `resubscribe` starts at the tail: the events that the manager sent before are not received.
      abbrev pub opened_desk : System net → Desk
      opened_desk system = record {
        since = system.task.manager.event_tx;
        taken = [];
        system = system;
        sent = [];
        spawned = [];
        asked = [];
        over = [];
      }

      -- The node starts when the manager already runs, in any state that it can be in by then.
      pub data Reached (w : net.World) : Desk → Type 0 where
        start :
            {t : Desk} (system : System net)
            → Reach net hasher w system
            → t ≡ opened_desk system
            → Reached w t
        later : {s t : Desk} → Reached w s → Turn s t → Reached w t
