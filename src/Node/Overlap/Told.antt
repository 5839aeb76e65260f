-- ===== src/Node/Overlap/Told.antt =====
-- src/node/node.rs: what the tasks come to, whatever the order of the steps.
use v3_node.Base.{
  ℕ, ◌≤◌, ◌≡◌, refl, sym, ap, subst, true, false, List, [], ◌∷◌, ◌++◌, append-nil, map, map-append,
  some, length, done, suc, ltb, if◌then◌else◌, ◌∙◌, arith,
}
use mathlib.Core.List.{Memᴰ}
use mathlib.Core.List.Memᴰ
use v3_node.Base.Count.{count, count-append}
use v3_node.Base.HashMap.{Hasher}
use v3_node.Peer.{Net, PeerInfo}
use v3_node.Manager.State.{peers_answer, Command, connected_peers}
use v3_node.Manager.System.{
  System, Step, submit, round, crash, close, running, peers, command_capacity, launched, Reach,
}
use v3_node.Manager.System as S
use v3_node.Manager.System.Snapshots.{Reach-Snapshot}
use v3_node.Node.{Alloy}
use v3_node.Node.Watch.{FullIds}
use v3_node.Node.Events.{wanted_lines}
use v3_node.Node.Overlap.Finish.{finish-some, finish-asks, finish-quiet}
use v3_node.Node.Overlap.Answers.{Step-running, Step-opened}
use v3_node.Node.Overlap.{
  Event, asks, finish, Outcome, Desk, Turn, manager, take, quiet, ask, refuse, answer, drop,
  Reached, start, later,
}

module _ (net : Net) (alloy : Alloy net) (hasher : Hasher) where
  -- The manager's part of a reached state is one that its own steps reach.
  pub Reached-Reach :
      {w : net.World} {d : Desk net alloy}
      → Reached net alloy hasher w d
      → Reach net hasher w d.system
  Reached-Reach {w} (start system r e) =
      subst (λ (x : Desk net alloy). Reach net hasher w x.system) (sym e) r
  Reached-Reach {w} (later r (manager u st e)) =
      subst (λ (x : Desk net alloy). Reach net hasher w x.system) (sym e)
        (S.later (Reached-Reach r) st)
  Reached-Reach {w} (later r (take evt e)) =
      subst (λ (x : Desk net alloy). Reach net hasher w x.system) (sym e) (Reached-Reach r)
  Reached-Reach {w} (later r (quiet before after evt p a e)) =
      subst (λ (x : Desk net alloy). Reach net hasher w x.system) (sym e) (Reached-Reach r)
  Reached-Reach {w} (later r (ask before after evt p a up room e)) =
      subst (λ (x : Desk net alloy). Reach net hasher w x.system) (sym e)
        (S.later (Reached-Reach r) (submit peers up room refl))
  Reached-Reach {w} (later r (refuse before after evt p a down e)) =
      subst (λ (x : Desk net alloy). Reach net hasher w x.system) (sym e) (Reached-Reach r)
  Reached-Reach {w} (later r (answer before after channel evt list p m e)) =
      subst (λ (x : Desk net alloy). Reach net hasher w x.system) (sym e) (Reached-Reach r)
  Reached-Reach {w} (later r (drop before after channel evt p down none_ e)) =
      subst (λ (x : Desk net alloy). Reach net hasher w x.system) (sym e) (Reached-Reach r)

  module _ (w : net.World) where
    -- What a task came to: it needed no peers and printed what its event wants; or it sent a request
    -- on a channel of its own, and printed that with the number of peers that were registered in the
    -- state in which the loop took up this request; or the manager was gone, and it printed nothing.
    pub data Told (sent : List (ℕ × Event net)) (s : System net) (o : Outcome net alloy)
        : Type 0 where
      no_question : asks net o.0 ≡ false → o.1 ≡ done (wanted_lines net alloy 0 o.0) → Told sent s o
      told :
          (channel : ℕ) (at : System net) (rest : List Command)
          → Memᴰ (channel, o.0) sent
          → Reach net hasher w at
          → at.pending ≡ connected_peers channel ∷ rest
          → o.1 ≡ done (wanted_lines net alloy (length at.task.manager.peers) o.0)
          → Told sent s o
      gone : asks net o.0 ≡ true → ¬ (s.phase ≡ running) → o.1 ≡ done [] → Told sent s o

    abbrev pub AllTold : List (ℕ × Event net) → System net → List (Outcome net alloy) → Type 0
    AllTold sent s [] = Unit {0}
    AllTold sent s (o ∷ over) = Told sent s o × AllTold sent s over

    AllTold-snoc :
        (sent : List (ℕ × Event net)) (s : System net) (over : List (Outcome net alloy))
        (o : Outcome net alloy)
        → AllTold sent s over
        → Told sent s o
        → AllTold sent s (over ++ o ∷ [])
    AllTold-snoc sent s [] o all new_ = (new_, tt)
    AllTold-snoc sent s (x ∷ over) o (first, all) new_ =
        (first, AllTold-snoc sent s over o all new_)

    Told-grows :
        {s u : System net} (sent more : List (ℕ × Event net)) (o : Outcome net alloy)
        → Step net hasher s u
        → Told sent s o
        → Told (sent ++ more) u o
    Told-grows sent more o st (no_question a e) = no_question a e
    Told-grows sent more o st (told channel at rest m r next e) =
        told channel at rest (Memᴰ.append_left more m) r next e
    Told-grows sent more o st (gone a down e) = absurd (down (Step-running net hasher st))

    AllTold-grows :
        {s u : System net} (sent more : List (ℕ × Event net)) (over : List (Outcome net alloy))
        → Step net hasher s u
        → AllTold sent s over
        → AllTold (sent ++ more) u over
    AllTold-grows sent more [] st all = tt
    AllTold-grows sent more (o ∷ over) st (first, all) =
        (Told-grows sent more o st first, AllTold-grows sent more over st all)

  -- Every task that waits for a reply sent its request on that channel.
  abbrev AllAsk : List (ℕ × Event net) → List (ℕ × Event net) → Type 0
  AllAsk sent [] = Unit {0}
  AllAsk sent ((channel, evt) ∷ asked) =
      (asks net evt ≡ true) × Memᴰ (channel, evt) sent × AllAsk sent asked

  AllAsk-snoc :
      (sent asked : List (ℕ × Event net)) (channel : ℕ) (evt : Event net)
      → AllAsk sent asked
      → asks net evt ≡ true
      → AllAsk (sent ++ (channel, evt) ∷ []) (asked ++ (channel, evt) ∷ [])
  AllAsk-snoc sent [] channel evt all a = (a, Memᴰ.append_right sent (Memᴰ.head refl), tt)
  AllAsk-snoc sent ((c, x) ∷ asked) channel evt (first, m, all) a =
      (first, Memᴰ.append_left ((channel, evt) ∷ []) m, AllAsk-snoc sent asked channel evt all a)

  AllAsk-middle :
      (sent before after : List (ℕ × Event net)) (channel : ℕ) (evt : Event net)
      → AllAsk sent (before ++ (channel, evt) ∷ after)
      → (asks net evt ≡ true) × Memᴰ (channel, evt) sent × AllAsk sent (before ++ after)
  AllAsk-middle sent [] after channel evt all = all
  AllAsk-middle sent ((c, x) ∷ before) after channel evt (first, m, all) =
      let (a, n, rest) = AllAsk-middle sent before after channel evt all in (a, n, (first, m, rest))

  -- Each channel that a task asked on was opened, and is its own.
  abbrev Fresh : List (ℕ × Event net) → ℕ → Type 0
  Fresh sent opened = (k : ℕ) → count k (map (λ a. a.0) sent) ≤ (if ltb k opened then 1 else 0)

  Fresh-snoc :
      (sent : List (ℕ × Event net)) (opened : ℕ) (evt : Event net)
      → Fresh sent opened
      → Fresh (sent ++ (opened, evt) ∷ []) (suc opened)
  Fresh-snoc sent opened evt h k =
      rw (map-append (λ a. a.0) sent ((opened, evt) ∷ []))
        (ground (arith, h k, count-append k (map (λ a. a.0) sent) (opened ∷ [])))

  module _ (full : FullIds net alloy) (w : net.World) where
    -- What is kept by every step.
    record IsTold (d : Desk net alloy) : Type 0 where
      asking : AllAsk d.sent d.asked
      fresh : Fresh d.sent d.system.opened
      all : AllTold w d.sent d.system d.over

    answered :
        (d : Desk net alloy) (channel : ℕ) (evt : Event net) (list : List (PeerInfo net))
        → Reached net alloy hasher w d
        → Memᴰ (channel, evt) d.sent
        → Memᴰ (peers_answer channel list) d.system.task.answers
        → Told w d.sent d.system (finish net alloy true (some list) evt)
    answered d channel evt list r asked m =
        let s = Reach-Snapshot net hasher channel list (Reached-Reach r) m in
        told channel s.at s.rest asked s.reached s.next (
          finish-some net alloy full list evt
          ∙ ap (λ n. done (wanted_lines net alloy n evt)) s.size)

    Turn-IsTold :
        {s t : Desk net alloy}
        → Reached net alloy hasher w s
        → Turn net alloy hasher s t
        → IsTold s
        → IsTold t
    Turn-IsTold {s} r (manager u st e) h = subst IsTold (sym e) (record {
      asking = h.asking;
      fresh = λ k. ground (arith, h.fresh k, Step-opened net hasher st);
      all =
          subst (λ l. AllTold w l u s.over) (append-nil s.sent)
            (AllTold-grows w s.sent [] s.over st h.all);
    })
    Turn-IsTold r (take evt e) h =
        subst IsTold (sym e) (record { asking = h.asking; fresh = h.fresh; all = h.all })
    Turn-IsTold {s} r (quiet before after evt p a e) h = subst IsTold (sym e) (record {
      asking = h.asking;
      fresh = h.fresh;
      all =
          AllTold-snoc w s.sent s.system s.over _ h.all
            (no_question a (finish-quiet net alloy full evt a));
    })
    Turn-IsTold {s} r (ask before after evt p a up room e) h = subst IsTold (sym e) (record {
      asking = AllAsk-snoc s.sent s.asked s.system.opened evt h.asking a;
      fresh = Fresh-snoc s.sent s.system.opened evt h.fresh;
      all =
          AllTold-grows w s.sent ((s.system.opened, evt) ∷ []) s.over (submit peers up room refl)
            h.all;
    })
    Turn-IsTold {s} r (refuse before after evt p a down e) h = subst IsTold (sym e) (record {
      asking = h.asking;
      fresh = h.fresh;
      all =
          AllTold-snoc w s.sent s.system s.over _ h.all
            (gone a down (finish-asks net alloy full false evt a));
    })
    Turn-IsTold {s} r (answer before after channel evt list p m e) h =
        let (a, asked, rest) =
          AllAsk-middle s.sent before after channel evt (subst (AllAsk s.sent) p h.asking) in
        subst IsTold (sym e) (record {
          asking = rest;
          fresh = h.fresh;
          all =
              AllTold-snoc w s.sent s.system s.over _ h.all (answered s channel evt list r asked m);
        })
    Turn-IsTold {s} r (drop before after channel evt p down none_ e) h =
        let (a, asked, rest) =
          AllAsk-middle s.sent before after channel evt (subst (AllAsk s.sent) p h.asking) in
        subst IsTold (sym e) (record {
          asking = rest;
          fresh = h.fresh;
          all =
              AllTold-snoc w s.sent s.system s.over _ h.all
                (gone a down (finish-asks net alloy full true evt a));
        })

    Reached-IsTold : {d : Desk net alloy} → Reached net alloy hasher w d → IsTold d
    Reached-IsTold (start system r e) =
        subst IsTold (sym e) (record { asking = tt; fresh = λ k. ground arith; all = tt })
    Reached-IsTold (later r turn) = Turn-IsTold r turn (Reached-IsTold r)

    pub Reached-AllTold :
        {d : Desk net alloy}
        → Reached net alloy hasher w d
        → AllTold w d.sent d.system d.over × ((k : ℕ) → count k (map (λ a. a.0) d.sent) ≤ 1)
    Reached-AllTold r = let h = Reached-IsTold r in (h.all, λ k. ground (arith, h.fresh k))
