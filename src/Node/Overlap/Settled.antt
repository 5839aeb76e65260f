-- ===== src/Node/Overlap/Settled.antt =====
-- src/node/node.rs: the way from a state with tasks under way to one without.
use v3_node.Base.{ℕ, ◌≡◌, refl, subst, ◌∙◌, List, [], ◌∷◌, ◌++◌, map}
use mathlib.Core.List.{Memᴰ, Perm}
use mathlib.Core.List.Memᴰ
use v3_node.Base.HashMap.{Hasher}
use v3_node.Peer.{Net}
use v3_node.Manager.State.{Command}
use v3_node.Manager.System.{running}
use v3_node.Manager.System.Invariant.{Reach-IsSystem}
use v3_node.Manager.System.Drain.{serve}
use v3_node.Node.{Alloy}
use v3_node.Node.Overlap.{Event, Desk, Turn, manager, Reached, later}
use v3_node.Node.Overlap.Told.{Reached-Reach}
use v3_node.Node.Overlap.Taken.{tasks}

module _ (net : Net) (alloy : Alloy net) (hasher : Hasher) where
  -- Steps one after the other.
  pub data Course (t : Desk net alloy) : Desk net alloy → Type 0 where
    here : Course t t
    then : {s u : Desk net alloy} → Turn net alloy hasher s u → Course t u → Course t s

  joined : {t s u : Desk net alloy} → Course t s → Course u t → Course u s
  joined here q = q
  joined (then turn p) q = then turn (joined p q)

  -- A state that steps lead to, with an empty command channel and the manager running.
  record Idle (w : net.World) (d : Desk net alloy) (spawned : List (Event net)) : Type 0 where
    end : Desk net alloy
    path : Course end d
    reached : Reached net alloy hasher w end
    up : end.system.phase ≡ running
    idle : end.system.pending ≡ []
    left : end.spawned ≡ spawned
    same : end.taken ≡ d.taken

  prefixed :
      {w : net.World} {d u : Desk net alloy} {spawned : List (Event net)}
      → Course u d
      → u.taken ≡ d.taken
      → Idle w u spawned
      → Idle w d spawned
  prefixed p e i = record {
    end = i.end;
    path = joined p i.path;
    reached = i.reached;
    up = i.up;
    idle = i.idle;
    left = i.left;
    same = i.same ∙ e;
  }

  served :
      {w : net.World} (waiting : List Command) (d : Desk net alloy)
      → Reached net alloy hasher w d
      → d.system.phase ≡ running
      → d.system.pending ≡ waiting
      → Idle w d d.spawned
  served [] d r up e = record {
    end = d;
    path = here;
    reached = r;
    up = up;
    idle = e;
    left = refl;
    same = refl;
  }
  served (c ∷ rest) d r up e =
      let v = Reach-IsSystem net hasher (Reached-Reach net alloy hasher r) in
      let (u, st, up', e', o) = serve net hasher d.system c rest v up e in
      let turn : Turn net alloy hasher d (record d { system = u }) = manager u st refl in
      prefixed (then turn here) refl (served rest (record d { system = u }) (later r turn) up' e')

  pub gathered :
      (t : Desk net alloy) (events : List (Event net))
      → t.spawned ≡ []
      → t.asked ≡ []
      → t.taken ≡ events
      → Perm (tasks net alloy t) t.taken
      → Perm (map (λ o. o.0) t.over) events
  gathered t events p a e h =
      let over = map (λ o. o.0) t.over in
      subst (λ (l : List (Event net)). Perm over l) e
        (subst (λ (l : List (ℕ × Event net)). Perm (map (λ x. x.1) l ++ over) t.taken) a
          (subst (λ (l : List (Event net)). Perm (l ++ (map (λ x. x.1) t.asked ++ over)) t.taken) p
            h))
