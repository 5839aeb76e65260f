-- ===== src/Node/Overlap/Answers.antt =====
-- src/network/manager.rs: the answers sent, from one step to the next.
use v3_node.Base.{◌≤◌, ◌≡◌, sym, ap, subst, List, [], ◌∷◌, ◌++◌, append-nil, done, arith}
use mathlib.Core.List.{Memᴰ}
use mathlib.Core.List.Memᴰ
use v3_node.Base.HashMap.{Hasher}
use v3_node.Peer.{Net}
use v3_node.Manager.State.{
  fetch_receipts_from, connected_peers, Answer, receipts_answer, peers_answer, Task, Incoming,
  event, command,
}
use v3_node.Manager.Registry.Invariant.{IsRegistry, handle_network_event-IsRegistry}
use v3_node.Manager.Dispatch.Safety.{do_fetch_receipts-IsRegistry}
use v3_node.Manager.Loop.{infos, handle_command, step}
use v3_node.Manager.System.{System, Step, submit, round, crash, close, running}

module _ (net : Net) (hasher : Hasher) where
  -- The answers sent are kept.
  step-grows :
      (i : Incoming net) (t t' : Task net)
      → IsRegistry net t.manager
      → step net hasher i t ≡ done t'
      → (more : List (Answer net)) × (t'.answers ≡ t.answers ++ more)
  unfolding step handle_command
  step-grows (event e) t t' v h =
      let (r, runs, registry) = handle_network_event-IsRegistry net e t.manager t.world v in
      ([], ground (arith, runs, append-nil t.answers))
  step-grows (command (fetch_receipts_from target hashes reply)) t t' v h =
      let (o, runs, registry, shrinks) =
        do_fetch_receipts-IsRegistry net hasher hashes t.manager t.world target v in
      (receipts_answer reply o.0 ∷ [], ground (arith, runs))
  step-grows (command (connected_peers reply)) t t' v h =
      (peers_answer reply (infos net hasher t.manager) ∷ [], ground arith)

  pub Step-grows :
      {s u : System net} (a : Answer net)
      → IsRegistry net s.task.manager
      → Step net hasher s u
      → Memᴰ a s.task.answers
      → Memᴰ a u.task.answers
  Step-grows a v (submit r up room e) m =
      subst (λ (x : System net). Memᴰ a x.task.answers) (sym e) m
  Step-grows {s} a v (round i rest task' up takes h e) m =
      let (more, grown) = step-grows i s.task task' v h in
      subst (λ (x : System net). Memᴰ a x.task.answers) (sym e)
        (subst (Memᴰ a) (sym grown) (Memᴰ.append_left more m))
  Step-grows a v (crash i rest up takes h e) m =
      subst (λ (x : System net). Memᴰ a x.task.answers) (sym e) m
  Step-grows a v (close up e) m = subst (λ (x : System net). Memᴰ a x.task.answers) (sym e) m

  pub Step-running : {s u : System net} → Step net hasher s u → s.phase ≡ running
  Step-running (submit r up room e) = up
  Step-running (round i rest task' up takes h e) = up
  Step-running (crash i rest up takes h e) = up
  Step-running (close up e) = up

  -- The channels that were opened stay so.
  pub Step-opened : {s u : System net} → Step net hasher s u → s.opened ≤ u.opened
  Step-opened (submit r up room e) = omega (arith, ap (λ (x : System net). x.opened) e)
  Step-opened (round i rest task' up takes h e) = omega (arith, ap (λ (x : System net). x.opened) e)
  Step-opened (crash i rest up takes h e) = omega (arith, ap (λ (x : System net). x.opened) e)
  Step-opened (close up e) = omega (arith, ap (λ (x : System net). x.opened) e)
