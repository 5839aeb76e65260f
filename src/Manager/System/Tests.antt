-- ===== src/Manager/System/Tests.antt =====
-- src/network/manager.rs: two callers and a new session, interleaved.
use v3_node.Base.{◌≡◌, refl, [], ◌∷◌, map, none, arith}
use v3_node.Manager.State.{event, command, peers_answer, active_peer_session, new}
use v3_node.Manager.Registry.{on_peer_connected, handle_network_event}
use v3_node.Manager.Loop.{step, infos, handle_command}
use v3_node.Manager.Loop.Safety.{channel_of}
use v3_node.Manager.System.{
  receipts, peers, command_of, System, submit, round, launched, Reach, start, later,
}
use v3_node.Manager.System.Invariant.{IsSystem, Reach-IsSystem}
use v3_node.Manager.System.Drain.{Steps, Reach-drain}
use v3_node.Samples.{network, table, session}

-- One caller asks for the peers, then the session opens, then another caller asks for receipts.
abbrev asked : System network
asked = record (launched network table (0, 0)) { pending = command_of peers 0 ∷ []; opened = 1 }

abbrev opened : System network
opened = record asked {
  task = record {
    manager = (on_peer_connected network (session 5 70) 9 (new network) (0, 0)).0;
    world = (on_peer_connected network (session 5 70) 9 (new network) (0, 0)).1;
    answers = [];
  };
}

abbrev both : System network
both = record opened {
  pending = command_of peers 0 ∷ command_of (receipts none (77 ∷ [])) 1 ∷ [];
  opened = 2;
}

both-Reach : Reach network table (0, 0) both
unfolding step handle_network_event
both-Reach =
    later
      (later (later (start refl) (submit peers refl (omega arith) refl)) (
        round (event (active_peer_session (session 5 70) 9)) asked.pending opened.task refl refl
          refl refl))
      (submit (receipts none (77 ∷ [])) refl (omega arith) refl)

Reach-IsSystem_example : IsSystem network both
Reach-IsSystem_example = Reach-IsSystem network table both-Reach

Reach-drain_example :
    (t : System network) × Steps network table t 2 both
    × (t.pending ≡ [])
    × (map (channel_of network) t.task.answers ≡ 0 ∷ 1 ∷ [])
Reach-drain_example = Reach-drain network table both-Reach refl

-- The first caller is answered.
abbrev answered : System network
answered = record both {
  task = record opened.task {
    answers = peers_answer 0 (infos network table opened.task.manager) ∷ [];
  };
  pending = command_of (receipts none (77 ∷ [])) 1 ∷ [];
}

answered-Reach : Reach network table (0, 0) answered
unfolding step handle_command
answered-Reach =
    later both-Reach
      (round (command (command_of peers 0)) answered.pending answered.task refl refl refl refl)
