-- ===== src/Node/Schedule.antt =====
-- src/node/node.rs: the node's loop, with a manager that is running.
use v3_node.Base.{
  ℕ, ◌≡◌, String, refl, ap, sym, subst, ◌∙◌, List, [], ◌∷◌, none, some, length, Run, done,
}
use v3_node.Base.HashMap.{Hasher}
use v3_node.Peer.{Net, PeerError}
use v3_node.Manager.State.{PeerManager, Task}
use v3_node.Manager.Registry.Invariant.{IsRegistry}
use v3_node.Manager.Handle.Live.{live}
use v3_node.Config.{PoolConfig}
use v3_node.Node.{
  Alloy, Output, Round, peer_evt, tx_evt, Spawned, peer_task, tx_task, spawn, start, run_task,
  run_tasks,
}
use v3_node.Node.Watch.{
  FullIds, reports, responses, event_reports, event_responses, handle_tx_event_total,
}
use v3_node.Node.Events.{wanted_lines, handle_peer_event-live}

module _ (net : Net) (alloy : Alloy net) (pools : List PoolConfig) where
  -- What a task is to come to, when the registry has n peers.
  abbrev pub Wanted : ℕ → Spawned net alloy → List (Output net alloy) → Type 0
  Wanted n (peer_task evt) lines = lines ≡ wanted_lines net alloy n evt
  Wanted n (tx_task evt) lines =
      (reports net alloy lines ≡ event_reports net alloy pools evt)
      × (responses net alloy lines ≡ event_responses net alloy pools evt)

  -- One outcome for each task, with no panic and what is wanted of it.
  abbrev pub AllWanted :
      ℕ → List (Spawned net alloy) → List (Run (List (Output net alloy))) → Type 0
  AllWanted n [] [] = Unit {0}
  AllWanted n [] (outcome ∷ outcomes) = ⊥
  AllWanted n (task ∷ tasks) [] = ⊥
  AllWanted n (task ∷ tasks) (outcome ∷ outcomes) =
      ((lines : List (Output net alloy)) × (outcome ≡ done lines) × Wanted n task lines)
      × AllWanted n tasks outcomes

  -- The tasks of the rounds: one for each event that a round takes up, in order.
  abbrev pub tasks_of : List (Round net alloy) → List (Spawned net alloy)
  tasks_of [] = []
  tasks_of (peer_evt evt ∷ rounds) = peer_task evt ∷ tasks_of rounds
  tasks_of (tx_evt none ∷ rounds) = tasks_of rounds
  tasks_of (tx_evt (some evt) ∷ rounds) = tx_task evt ∷ tasks_of rounds

  start-tasks_of : (rounds : List (Round net alloy)) → start net alloy rounds ≡ tasks_of rounds
  unfolding start spawn
  start-tasks_of [] = refl
  start-tasks_of (peer_evt evt ∷ rounds) = ap (◌∷◌ (peer_task evt)) (start-tasks_of rounds)
  start-tasks_of (tx_evt none ∷ rounds) = start-tasks_of rounds
  start-tasks_of (tx_evt (some evt) ∷ rounds) = ap (◌∷◌ (tx_task evt)) (start-tasks_of rounds)

  module _ (hasher : Hasher) (error_text : PeerError → String) (full : FullIds net alloy) where
    abbrev after :
        List (Spawned net alloy) → Task net → List (Run (List (Output net alloy))) × Task net
    after tasks t = run_tasks net alloy pools (live net hasher error_text) tasks t

    run_task-live :
        (t : Task net) (v : IsRegistry net t.manager) (task : Spawned net alloy)
        → ((lines : List (Output net alloy)) × ((run_task net alloy pools
                (live net hasher error_text)
                task
                t).0
              ≡ done lines)
            × Wanted (length t.manager.peers) task lines)
          × ((run_task net alloy pools (live net hasher error_text) task t).1.manager ≡ t.manager)
    unfolding run_task
    run_task-live t v (peer_task evt) =
        let (a, b) = handle_peer_event-live net alloy hasher error_text full t v evt in
        ((wanted_lines net alloy (length t.manager.peers) evt, a, refl), b)
    run_task-live t v (tx_task evt) =
        let (lines, e, a, b) = handle_tx_event_total net alloy pools full evt in
        ((lines, e, (a, b)), refl)

    run_tasks-live :
        (m : PeerManager net) (v : IsRegistry net m) (tasks : List (Spawned net alloy))
        (t : Task net)
        → t.manager ≡ m
        → AllWanted (length m.peers) tasks (after tasks t).0 × ((after tasks t).1.manager ≡ m)
    unfolding run_tasks
    run_tasks-live m v [] t h = (tt, h)
    run_tasks-live m v (task ∷ tasks) t h =
        let (outcome, same) = run_task-live t (subst (IsRegistry net) (sym h) v) task in
        let (outcomes, kept) =
          run_tasks-live m v tasks (run_task net alloy pools (live net hasher error_text) task t).1
            (same ∙ h) in
        (
          (
            subst
                (λ k.
                  (lines : List (Output net alloy)) × ((run_task net alloy pools
                      (live net hasher error_text) task t).0
                    ≡ done lines)
                  × Wanted (length k.peers) task lines)
                h outcome,
            outcomes,
          ),
          kept,
        )

    -- If a PeerId is printed with 128 digits, and with a running manager whose registry is well formed,
    -- the loop takes up every round of any
    -- schedule, also after a channel was closed: one task for each event, in order, none of which
    -- panics and each of which does what is wanted of its event; and the registry stays as it is.
    pub start-live :
        (t : Task net) (v : IsRegistry net t.manager) (rounds : List (Round net alloy))
        → AllWanted (length t.manager.peers) (tasks_of rounds) (after (start net alloy rounds) t).0
          × ((after (start net alloy rounds) t).1.manager ≡ t.manager)
    start-live t v rounds =
        rw (start-tasks_of rounds) (run_tasks-live t.manager v (tasks_of rounds) t refl)
