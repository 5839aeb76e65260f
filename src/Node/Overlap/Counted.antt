-- ===== src/Node/Overlap/Counted.antt =====
-- src/node/node.rs behind src/network/manager.rs: what the tasks, when all are over, printed of the
-- events that the manager sent.
use v3_node.Base.{
  ℕ, ◌+◌, ◌≤◌, ◌≡◌, refl, sym, ap, ◌∙◌, List, [], ◌∷◌, ◌++◌, map, some, none, length, length-append,
  ok, err, done, arith,
}
use mathlib.Core.List.{Perm, Permᴰ}
use mathlib.Core.Logic.{∥∥₁_elim}
use v3_node.Base.HashMap.{Hasher}
use v3_node.Peer.{Net}
use v3_node.Manager.State.{ManagerEvent, peer_connected, peer_disconnected, new_block}
use v3_node.Manager.System.{System, running}
use v3_node.Manager.System.Runs.{Reach-run}
use v3_node.Manager.Registry.Balance.{opened, closed, opened-append, closed-append, IsBalanced}
use v3_node.Manager.Loop.Balance.{new-IsBalanced, run-IsBalanced}
use v3_node.Manager.Loop.Safety.{spawned}
use v3_node.Node.{Alloy, lagged, closed as closed_channel, Output}
use v3_node.Node.Watch.{FullIds}
use v3_node.Node.Events.{wanted_lines}
use v3_node.Node.Feed.{
  length-sessions, Delivery, connections, disconnections, misses, printed, feed, Delivery-Accounts,
}
use v3_node.Node.Overlap.{Event, Outcome, Desk, Reached}
use v3_node.Node.Overlap.Told.{
  Told, no_question, told, gone, AllTold, Reached-Reach, Reached-AllTold,
}
use v3_node.Node.Overlap.Taken.{Reached-Perm}
use v3_node.Node.Overlap.Settled.{gathered}

module _ {A : Type 0} (f : A → ℕ) where
  abbrev total : List A → ℕ
  total [] = 0
  total (x ∷ xs) = f x + total xs

  total-Permᴰ : {xs ys : List A} → Permᴰ xs ys → total xs ≡ total ys
  total-Permᴰ Permᴰ.nil = refl
  total-Permᴰ (Permᴰ.cons e p) = omega (arith, ap f e, total-Permᴰ p)
  total-Permᴰ (Permᴰ.swap e e') = omega (arith, ap f e, ap f e')
  total-Permᴰ (Permᴰ.trans p q) = total-Permᴰ p ∙ total-Permᴰ q

  total-Perm : {xs ys : List A} → Perm xs ys → total xs ≡ total ys
  total-Perm p = ∥∥₁_elim p (hlevel) total-Permᴰ

module _ (net : Net) (alloy : Alloy net) where
  -- The line that an event wants, if any, by its kind.
  abbrev opens_line : Event net → ℕ
  opens_line evt = connections (wanted_lines net alloy 0 evt)

  abbrev closes_line : Event net → ℕ
  closes_line evt = disconnections (wanted_lines net alloy 0 evt)

  abbrev skips : Event net → ℕ
  skips evt = misses (wanted_lines net alloy 0 evt)

  -- Lines that have so many of each kind as some events want.
  record Counts (lines : List (Output net alloy)) (events : List (Event net)) : Type 0 where
    connected : connections lines ≡ total opens_line events
    disconnected : disconnections lines ≡ total closes_line events
    missed : misses lines ≡ total skips events

  Counts-cons :
      (n : ℕ) (evt : Event net) (lines : List (Output net alloy)) (events : List (Event net))
      → Counts lines events
      → Counts (wanted_lines net alloy n evt ++ lines) (evt ∷ events)
  Counts-cons n (ok (peer_connected peer)) lines events c = record {
    connected = omega (arith, c.connected);
    disconnected = omega (arith, c.disconnected);
    missed = omega (arith, c.missed);
  }
  Counts-cons n (ok (peer_disconnected peer none)) lines events c = record {
    connected = omega (arith, c.connected);
    disconnected = omega (arith, c.disconnected);
    missed = omega (arith, c.missed);
  }
  Counts-cons n (ok (peer_disconnected peer (some reason))) lines events c = record {
    connected = omega (arith, c.connected);
    disconnected = omega (arith, c.disconnected);
    missed = omega (arith, c.missed);
  }
  Counts-cons n (ok (new_block block)) lines events c = record {
    connected = omega (arith, c.connected);
    disconnected = omega (arith, c.disconnected);
    missed = omega (arith, c.missed);
  }
  Counts-cons n (err (lagged k)) lines events c = record {
    connected = omega (arith, c.connected);
    disconnected = omega (arith, c.disconnected);
    missed = omega (arith, c.missed);
  }
  Counts-cons n (err closed_channel) lines events c = record {
    connected = omega (arith, c.connected);
    disconnected = omega (arith, c.disconnected);
    missed = omega (arith, c.missed);
  }

  feed-Counts : (events : List (Event net)) → Counts (feed net alloy 0 events) events
  feed-Counts [] = record { connected = refl; disconnected = refl; missed = refl }
  feed-Counts (evt ∷ events) =
      Counts-cons 0 evt (feed net alloy 0 events) events (feed-Counts events)

  module _ (hasher : Hasher) (w : net.World) where
    -- With the manager running, each task that is over printed the line of its event.
    Told-line :
        (sent : List (ℕ × Event net)) (s : System net) (o : Outcome net alloy)
        → s.phase ≡ running
        → Told net alloy hasher w sent s o
        → (n : ℕ) × (o.1 ≡ done (wanted_lines net alloy n o.0))
    Told-line sent s o up (no_question a e) = (0, e)
    Told-line sent s o up (told channel at rest m r next e) = (length at.task.manager.peers, e)
    Told-line sent s o up (gone a down e) = absurd (down up)

    over-Counts :
        (sent : List (ℕ × Event net)) (s : System net) (over : List (Outcome net alloy))
        → s.phase ≡ running
        → AllTold net alloy hasher w sent s over
        → Counts (printed (map (λ o. o.1) over)) (map (λ o. o.0) over)
    over-Counts sent s [] up all = record { connected = refl; disconnected = refl; missed = refl }
    over-Counts sent s (o ∷ over) up (first, all) =
        let (n, e) = Told-line sent s o up first in
        rw e (Counts-cons n o.0 _ _ (over-Counts sent s over up all))

  module _ (hasher : Hasher) where
    reached-IsBalanced :
        {w : net.World} {d : Desk net alloy}
        → Reached net alloy hasher w d
        → IsBalanced net d.system.task.manager
    reached-IsBalanced {w} r =
        let (rounds, runs) = Reach-run net hasher (Reached-Reach net alloy hasher r) in
        run-IsBalanced net hasher (map some rounds) (spawned net w) _ runs (new-IsBalanced net)

    -- If a PeerId is printed with 128 digits: in every state that is reached, in which the manager
    -- runs, no task is left, and the events that the loop took are those that the manager sent since
    -- the node subscribed, less some that it lagged behind, the lines printed for connections and
    -- disconnections, the skipped events, and the events sent before are as many as were ever sent. The
    -- registered peers, the lines for disconnections and the sessions closed before are at most the
    -- lines for connections, the skipped events and the sessions opened before.
    pub Reached-Delivery :
        {w : net.World} {d : Desk net alloy} (fresh : List (ManagerEvent net))
        → FullIds net alloy
        → Reached net alloy hasher w d
        → d.system.phase ≡ running
        → d.spawned ≡ []
        → d.asked ≡ []
        → d.system.task.manager.event_tx ≡ d.since ++ fresh
        → Delivery net fresh d.taken
        → (length d.since
              + connections (printed (map (λ o. o.1) d.over))
              + disconnections (printed (map (λ o. o.1) d.over))
              + misses (printed (map (λ o. o.1) d.over))
            ≡ length d.system.task.manager.event_tx)
          × (length d.system.task.manager.peers
                + closed d.since
                + disconnections (printed (map (λ o. o.1) d.over))
              ≤ opened d.since
                + connections (printed (map (λ o. o.1) d.over))
                + misses (printed (map (λ o. o.1) d.over)))
    Reached-Delivery {w} {d} fresh full r up none_spawned none_asked log delivered =
        let p =
          gathered net alloy hasher d d.taken none_spawned none_asked refl
            (Reached-Perm net alloy hasher r) in
        let c =
          over-Counts hasher w d.sent d.system d.over up
            (Reached-AllTold net alloy hasher full w r).0 in
        let f = feed-Counts d.taken in
        let a = Delivery-Accounts net alloy 0 fresh d.taken delivered in
        let b = reached-IsBalanced r in
        let same_opens = c.connected ∙ total-Perm opens_line p ∙ sym f.connected in
        let same_closes = c.disconnected ∙ total-Perm closes_line p ∙ sym f.disconnected in
        let same_skips = c.missed ∙ total-Perm skips p ∙ sym f.missed in
        let size = ap length log ∙ length-append d.since fresh in
        let opens = ap opened log ∙ opened-append d.since fresh in
        let closes = ap closed log ∙ closed-append d.since fresh in
        let before = length-sessions net alloy d.since in
        rw (same_opens, same_closes, same_skips)
          (
            omega (
              arith,
              a.least,
              a.most,
              b.only_sessions,
              size,
              opens,
              closes,
              before,
              length-sessions net alloy fresh,
            ),
            omega (arith, a.opens, a.closes, b.paid, opens, closes),
          )
