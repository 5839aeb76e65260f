-- ===== src/Manager/System/Drain.antt =====
-- src/network/manager.rs: the loop, left to itself, and the commands in its channel.
use v3_node.Base.{
  ℕ, zero, suc, ◌≡◌, refl, sym, ap, ◌∙◌, List, [], ◌∷◌, ◌++◌, map, append-nil, length,
}
use v3_node.Base.HashMap.{Hasher}
use v3_node.Peer.{Net}
use v3_node.Manager.State.{Command, command}
use v3_node.Manager.Loop.Safety.{reply_of, channel_of, step-safe}
use v3_node.Manager.System.{running, System, Step, round, Reach}
use v3_node.Manager.System.Invariant.{below, IsSystem, Step-IsSystem, Reach-IsSystem}

module _ (net : Net) (hasher : Hasher) where
  -- So many steps, one after the other.
  pub data Steps (t : System net) : ℕ → System net → Type 0 where
    none_left : Steps t zero t
    first : {n : ℕ} {s u : System net} → Step net hasher s u → Steps t n u → Steps t (suc n) s

  -- The round that takes the oldest command.
  pub serve :
      (s : System net) (c : Command) (rest : List Command)
      → IsSystem net s
      → s.phase ≡ running
      → s.pending ≡ c ∷ rest
      → (t : System net) × Step net hasher s t
        × (t.phase ≡ running)
        × (t.pending ≡ rest)
        × (t.opened ≡ s.opened)
  serve s c rest v up e =
      let (task', h, registry, a) = step-safe net hasher (command c) s.task v.registry in
      (
        record s { task = task'; pending = rest },
        round (command c) rest task' up e h refl,
        up,
        refl,
        refl,
      )

  drain_from :
      (waiting : List Command) (s : System net)
      → IsSystem net s
      → s.phase ≡ running
      → s.pending ≡ waiting
      → (t : System net) × Steps t (length waiting) s
        × IsSystem net t
        × (t.phase ≡ running)
        × (t.pending ≡ [])
        × (t.opened ≡ s.opened)
  drain_from [] s v up e = (s, none_left, v, up, e, refl)
  drain_from (c ∷ rest) s v up e =
      let (u, st, up', e', o) = serve s c rest v up e in
      let (t, sts, v', up'', e'', o') = drain_from rest u (Step-IsSystem net hasher st v) up' e' in
      (t, first st sts, v', up'', e'', o' ∙ o)

  -- From every state that is reached and in which the loop runs, as many rounds as there are commands in
  -- the channel empty it, and then every command that was ever sent has its one reply, in the order in
  -- which they were sent.
  pub Reach-drain :
      {w : net.World} {s : System net}
      → Reach net hasher w s
      → s.phase ≡ running
      → (t : System net) × Steps t (length s.pending) s
        × (t.pending ≡ [])
        × (map (channel_of net) t.task.answers ≡ below s.opened)
  Reach-drain {w} {s} r up =
      let (t, sts, v, up', e, o) = drain_from s.pending s (Reach-IsSystem net hasher r) up refl in
      let nothing_left : map reply_of t.pending ++ v.dropped ≡ [] =
        rw (e, v.none_dropped up') refl in
      (
        t,
        sts,
        e,
        sym (append-nil (map (channel_of net) t.task.answers))
            ∙ ap (◌++◌ (map (channel_of net) t.task.answers)) (sym nothing_left)
            ∙ v.in_order
            ∙ ap below o,
      )
