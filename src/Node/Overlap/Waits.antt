-- ===== src/Node/Overlap/Waits.antt =====
-- src/node/node.rs: the tasks that wait, and the commands and answers that they wait for.
use v3_node.Base.{ℕ, ◌≡◌, ◌⊎◌, inl, inr, refl, sym, subst, List, [], ◌∷◌, ◌++◌, done, arith}
use mathlib.Core.List.{Memᴰ}
use mathlib.Core.List.Memᴰ
use v3_node.Base.HashMap.{Hasher}
use v3_node.Peer.{Net, PeerInfo}
use v3_node.Manager.State.{
  Command, fetch_receipts_from, connected_peers, peers_answer, Task, event, command,
}
use v3_node.Manager.Registry.Invariant.{IsRegistry}
use v3_node.Manager.Loop.{infos, handle_command, step}
use v3_node.Manager.System.{System, Step, submit, round, crash, close, running, peers, command_of}
use v3_node.Manager.System.Invariant.{Reach-IsSystem}
use v3_node.Node.{Alloy}
use v3_node.Node.Overlap.{
  Event, submitted, Desk, Turn, manager, take, quiet, ask, refuse, answer, drop, Reached, start,
  later,
}
use v3_node.Node.Overlap.Answers.{Step-grows, Step-running}
use v3_node.Node.Overlap.Told.{Reached-Reach}

module _ (net : Net) where
  abbrev pub Waiting : System net → ℕ → Type 0
  Waiting s channel =
      Memᴰ (connected_peers channel) s.pending
      ⊎ ((list : List (PeerInfo net)) × Memᴰ (peers_answer channel list) s.task.answers)

  abbrev pub AllWaiting : System net → List (ℕ × Event net) → Type 0
  AllWaiting s [] = Unit {0}
  AllWaiting s ((channel, evt) ∷ asked) = Waiting s channel × AllWaiting s asked

  module _ (hasher : Hasher) where
    -- The command that is taken up gets its list.
    served_list :
        (channel : ℕ) (c : Command) (t t' : Task net)
        → connected_peers channel ≡ c
        → step net hasher (command c) t ≡ done t'
        → (list : List (PeerInfo net)) × Memᴰ (peers_answer channel list) t'.answers
    unfolding step handle_command
    served_list channel (fetch_receipts_from target hashes reply) t t' e h = absurd (ground arith)
    served_list channel (connected_peers reply) t t' e h =
        let list = infos net hasher t.manager in
        let same : channel ≡ reply = ground (arith, e) in
        let sent : t'.answers ≡ t.answers ++ peers_answer channel list ∷ [] =
          ground (arith, same) in
        (
          list,
          subst (Memᴰ (peers_answer channel list)) (sym sent)
              (Memᴰ.append_right t.answers (Memᴰ.head refl)),
        )

    Waiting-grows :
        {s u : System net} (channel : ℕ)
        → IsRegistry net s.task.manager
        → Step net hasher s u
        → u.phase ≡ running
        → Waiting s channel
        → Waiting u channel
    Waiting-grows channel v st up' (inr (list, m)) = inr (list, Step-grows net hasher _ v st m)
    Waiting-grows {s} channel v (submit r up room e) up' (inl m) =
        subst (λ (x : System net). Waiting x channel) (sym e)
          (inl (Memᴰ.append_left (command_of r s.opened ∷ []) m))
    Waiting-grows channel v (round (event x) rest task' up takes h e) up' (inl m) =
        subst (λ (x : System net). Waiting x channel) (sym e)
          (inl (subst (Memᴰ (connected_peers channel)) takes m))
    Waiting-grows {s} channel v (round (command c) rest task' up takes h e) up' (inl m) =
        elim (Memᴰ.cases_cons (subst (Memᴰ (connected_peers channel)) takes m)) [
          | inl same ↦
              subst (λ (x : System net). Waiting x channel) (sym e)
                (inr (served_list channel c s.task task' same h))
          | inr later_ ↦ subst (λ (x : System net). Waiting x channel) (sym e) (inl later_)
        ]
    Waiting-grows channel v (crash i rest up takes h e) up' (inl m) = absurd (ground arith)
    Waiting-grows channel v (close up e) up' (inl m) = absurd (ground arith)

    AllWaiting-grows :
        {s u : System net} (asked : List (ℕ × Event net))
        → IsRegistry net s.task.manager
        → Step net hasher s u
        → u.phase ≡ running
        → AllWaiting s asked
        → AllWaiting u asked
    AllWaiting-grows [] v st up all = tt
    AllWaiting-grows ((channel, evt) ∷ asked) v st up (first, all) =
        (Waiting-grows channel v st up first, AllWaiting-grows asked v st up all)

  AllWaiting-snoc :
      (s : System net) (asked : List (ℕ × Event net)) (channel : ℕ) (evt : Event net)
      → AllWaiting s asked
      → Waiting s channel
      → AllWaiting s (asked ++ (channel, evt) ∷ [])
  AllWaiting-snoc s [] channel evt all one = (one, tt)
  AllWaiting-snoc s ((c, x) ∷ asked) channel evt (first, all) one =
      (first, AllWaiting-snoc s asked channel evt all one)

  AllWaiting-middle :
      (s : System net) (before after : List (ℕ × Event net)) (channel : ℕ) (evt : Event net)
      → AllWaiting s (before ++ (channel, evt) ∷ after)
      → AllWaiting s (before ++ after)
  AllWaiting-middle s [] after channel evt (first, all) = all
  AllWaiting-middle s ((c, x) ∷ before) after channel evt (first, all) =
      (first, AllWaiting-middle s before after channel evt all)

  module _ (alloy : Alloy net) (hasher : Hasher) where
    abbrev IsWaiting : Desk net alloy → Type 0
    IsWaiting d = d.system.phase ≡ running → AllWaiting d.system d.asked

    Turn-IsWaiting :
        {w : net.World} {s t : Desk net alloy}
        → Reached net alloy hasher w s
        → Turn net alloy hasher s t
        → IsWaiting s
        → IsWaiting t
    Turn-IsWaiting {w} {s} r (manager u st e) h =
        let v = (Reach-IsSystem net hasher (Reached-Reach net alloy hasher r)).registry in
        subst IsWaiting (sym e)
          (λ up. AllWaiting-grows hasher s.asked v st up (h (Step-running net hasher st)))
    Turn-IsWaiting r (take evt e) h = subst IsWaiting (sym e) h
    Turn-IsWaiting r (quiet before after evt p a e) h = subst IsWaiting (sym e) h
    Turn-IsWaiting {w} {s} r (ask before after evt p a up room e) h =
        let v = (Reach-IsSystem net hasher (Reached-Reach net alloy hasher r)).registry in
        let kept =
          AllWaiting-grows hasher {s = s.system} s.asked v (submit peers up room refl) up (h up) in
        let new_ : Waiting (submitted net s.system) s.system.opened =
          inl (Memᴰ.append_right s.system.pending (Memᴰ.head refl)) in
        subst IsWaiting (sym e)
          (λ up'. AllWaiting-snoc (submitted net s.system) s.asked s.system.opened evt kept new_)
    Turn-IsWaiting r (refuse before after evt p a down e) h = subst IsWaiting (sym e) h
    Turn-IsWaiting {w} {s} r (answer before after channel evt list p m e) h =
        subst IsWaiting (sym e) (λ up.
          AllWaiting-middle s.system before after channel evt
            (subst (AllWaiting s.system) p (h up)))
    Turn-IsWaiting r (drop before after channel evt p down none_ e) h =
        subst IsWaiting (sym e) (λ up. absurd (down up))

    pub Reached-AllWaiting :
        {w : net.World} {d : Desk net alloy}
        → Reached net alloy hasher w d
        → d.system.phase ≡ running
        → AllWaiting d.system d.asked
    Reached-AllWaiting (start system r e) = subst IsWaiting (sym e) (λ up. tt)
    Reached-AllWaiting (later r turn) = Turn-IsWaiting r turn (Reached-AllWaiting r)
