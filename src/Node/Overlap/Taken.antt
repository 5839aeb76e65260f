-- ===== src/Node/Overlap/Taken.antt =====
-- src/node/node.rs: the tasks against the events that the loop took.
use v3_node.Base.{
  ℕ, ◌≡◌, refl, sym, ap, subst, ◌∙◌, List, [], ◌∷◌, ◌++◌, append-nil, append_assoc, map, map-append,
  some, none, true, false,
}
use mathlib.Core.List.{Perm, perm_middle}
use mathlib.Core.List.Perm
use v3_node.Base.HashMap.{Hasher}
use v3_node.Peer.{Net}
use v3_node.Node.{Alloy}
use v3_node.Node.Overlap.{
  Event, Outcome, finish, Desk, Turn, manager, take, quiet, ask, refuse, answer, drop, Reached,
  start, later,
}

module _ {A : Type 0} where
  -- An element in the middle, and one at the end, brought to the front.
  from_middle :
      (x : A) (before after rest : List A)
      → Perm ((before ++ x ∷ after) ++ rest) (x ∷ ((before ++ after) ++ rest))
  from_middle x before after rest =
      rw (append_assoc before (x ∷ after) rest, append_assoc before after rest)
        (perm_middle before (after ++ rest))

  from_end : (x : A) (first rest : List A) → Perm (first ++ (rest ++ x ∷ [])) (x ∷ (first ++ rest))
  from_end x first rest =
      subst (λ (l : List A). Perm l (x ∷ (first ++ rest))) (append_assoc first rest (x ∷ []))
        (subst (λ (l : List A). Perm ((first ++ rest) ++ x ∷ []) (x ∷ l))
          (append-nil (first ++ rest)) (perm_middle (first ++ rest) []))

  over_last :
      (x : A) (before after rest : List A)
      → Perm ((before ++ after) ++ (rest ++ x ∷ [])) ((before ++ x ∷ after) ++ rest)
  over_last x before after rest =
      Perm.trans (from_end x (before ++ after) rest) (Perm.symm (from_middle x before after rest))

  ask_last :
      (x : A) (before after asked over : List A)
      → Perm
          ((before ++ after) ++ ((asked ++ x ∷ []) ++ over))
          ((before ++ x ∷ after) ++ (asked ++ over))
  ask_last x before after asked over =
      let front : Perm ((before ++ after) ++ ((asked ++ x ∷ []) ++ over))
          (x ∷ ((before ++ after) ++ (asked ++ over))) =
        rw
          (
            append_assoc asked (x ∷ []) over,
            ← append_assoc (before ++ after) asked (x ∷ over),
            ← append_assoc (before ++ after) asked over,
          )
          (perm_middle ((before ++ after) ++ asked) over) in
      Perm.trans front (Perm.symm (from_middle x before after (asked ++ over)))

  taken_last :
      (x : A) (spawned rest taken : List A)
      → Perm (spawned ++ rest) taken
      → Perm ((spawned ++ x ∷ []) ++ rest) (taken ++ x ∷ [])
  taken_last x spawned rest taken p =
      let front : Perm ((spawned ++ x ∷ []) ++ rest) (x ∷ (spawned ++ rest)) =
        rw (append_assoc spawned (x ∷ []) rest) (perm_middle spawned rest) in
      let back : Perm (taken ++ x ∷ []) (x ∷ taken) =
        subst (λ (l : List A). Perm (taken ++ x ∷ []) (x ∷ l)) (append-nil taken)
          (perm_middle taken []) in
      Perm.trans front (Perm.trans (Perm.cons' refl p) (Perm.symm back))

module _ (net : Net) (alloy : Alloy net) where
  -- The events of all tasks: spawned, waiting, and over.
  abbrev pub tasks : Desk net alloy → List (Event net)
  tasks d = d.spawned ++ (map (λ a. a.1) d.asked ++ map (λ o. o.0) d.over)

  -- A task that leaves one list for the end of another.
  asked_map :
      (before after : List (ℕ × Event net)) (channel : ℕ) (evt : Event net)
      → map (λ a. a.1) (before ++ (channel, evt) ∷ after)
        ≡ map (λ a. a.1) before ++ evt ∷ map (λ a. a.1) after
  asked_map before after channel evt = map-append (λ a. a.1) before ((channel, evt) ∷ after)

  module _ (hasher : Hasher) where
    IsKept : Desk net alloy → Type 0
    IsKept d = Perm (tasks d) d.taken

    spawned_over :
        (s : Desk net alloy) (before after : List (Event net)) (o : Outcome net alloy)
        → s.spawned ≡ before ++ o.0 ∷ after
        → IsKept s
        → IsKept (record s { spawned = before ++ after; over = s.over ++ o ∷ [] })
    unfolding IsKept
    spawned_over s before after o p h =
        let asked = map (λ a. a.1) s.asked in
        let over = map (λ x. x.0) s.over in
        rw (map-append (λ x. x.0) s.over (o ∷ []), ← append_assoc asked over (o.0 ∷ []))
          (Perm.trans (over_last o.0 before after (asked ++ over))
            (subst (λ (l : List (Event net)). Perm (l ++ (asked ++ over)) s.taken) p h))

    asked_over :
        (s : Desk net alloy) (before after : List (ℕ × Event net)) (channel : ℕ)
        (o : Outcome net alloy)
        → s.asked ≡ before ++ (channel, o.0) ∷ after
        → IsKept s
        → IsKept (record s { asked = before ++ after; over = s.over ++ o ∷ [] })
    unfolding IsKept
    asked_over s before after channel o p h =
        let b = map (λ a. a.1) before in
        let a = map (λ a. a.1) after in
        let over = map (λ x. x.0) s.over in
        let asked : map (λ a. a.1) s.asked ≡ b ++ o.0 ∷ a =
          ap (map (λ a. a.1)) p ∙ asked_map before after channel o.0 in
        rw (map-append (λ x. x.0) s.over (o ∷ []), map-append (λ x. x.1) before after)
          (Perm.trans (Perm.append_left s.spawned (over_last o.0 b a over))
            (subst (λ (l : List (Event net)). Perm (s.spawned ++ (l ++ over)) s.taken) asked h))

    spawned_asked :
        (s : Desk net alloy) (before after : List (Event net)) (channel : ℕ) (evt : Event net)
        → s.spawned ≡ before ++ evt ∷ after
        → IsKept s
        → Perm
            ((before ++ after)
              ++ (map (λ a. a.1) (s.asked ++ (channel, evt) ∷ []) ++ map (λ o. o.0) s.over))
            s.taken
    unfolding IsKept
    spawned_asked s before after channel evt p h =
        let asked = map (λ a. a.1) s.asked in
        let over = map (λ x. x.0) s.over in
        rw (map-append (λ a. a.1) s.asked ((channel, evt) ∷ [])) (
          Perm.trans (ask_last evt before after asked over)
            (subst (λ (l : List (Event net)). Perm (l ++ (asked ++ over)) s.taken) p h))

    Turn-IsKept : {s t : Desk net alloy} → Turn net alloy hasher s t → IsKept s → IsKept t
    unfolding IsKept
    Turn-IsKept (manager u st e) h = subst IsKept (sym e) h
    Turn-IsKept {s} (take evt e) h =
        subst IsKept (sym e)
          (taken_last evt s.spawned (map (λ a. a.1) s.asked ++ map (λ o. o.0) s.over) s.taken h)
    Turn-IsKept {s} (quiet before after evt p a e) h =
        subst IsKept (sym e) (spawned_over s before after (finish net alloy true none evt) p h)
    Turn-IsKept {s} (ask before after evt p a up room e) h =
        subst IsKept (sym e) (spawned_asked s before after s.system.opened evt p h)
    Turn-IsKept {s} (refuse before after evt p a down e) h =
        subst IsKept (sym e) (spawned_over s before after (finish net alloy false none evt) p h)
    Turn-IsKept {s} (answer before after channel evt list p m e) h =
        subst IsKept (sym e)
          (asked_over s before after channel (finish net alloy true (some list) evt) p h)
    Turn-IsKept {s} (drop before after channel evt p down none_ e) h =
        subst IsKept (sym e)
          (asked_over s before after channel (finish net alloy true none evt) p h)

    -- In every state that is reached, the events of the tasks, whether spawned, waiting or over, are
    -- those that the loop took, up to their order.
    pub Reached-Perm :
        {w : net.World} {d : Desk net alloy} → Reached net alloy hasher w d → Perm (tasks d) d.taken
    unfolding IsKept
    Reached-Perm (start system r e) = subst IsKept (sym e) (Perm.refl [])
    Reached-Perm (later r turn) = Turn-IsKept turn (Reached-Perm r)
