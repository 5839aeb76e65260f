-- ===== src/Manager/System/Runs.antt =====
-- src/network/manager.rs: reachable states against the loop over a schedule.
use v3_node.Base.{
  ◌≡◌, Run-cases, inl, inr, ap, sym, ◌∙◌, List, [], ◌∷◌, ◌++◌, map, some, done, arith,
}
use v3_node.Base.HashMap.{Hasher}
use v3_node.Peer.{Net}
use v3_node.Manager.State.{Task, Incoming}
use v3_node.Manager.Loop.{step, run}
use v3_node.Manager.Loop.Safety.{spawned}
use v3_node.Manager.System.{System, submit, round, crash, close, Reach, start, later}

module _ (net : Net) (hasher : Hasher) where
  -- One more round at the end of a schedule.
  run-snoc :
      (rounds : List (Incoming net)) (i : Incoming net) (t t₁ t₂ : Task net)
      → run net hasher (map some rounds) t ≡ done t₁
      → step net hasher i t₁ ≡ done t₂
      → run net hasher (map some (rounds ++ i ∷ [])) t ≡ done t₂
  unfolding run
  run-snoc [] i t t₁ t₂ e h = ground arith
  run-snoc (j ∷ rounds) i t t₁ t₂ e h = elim (Run-cases (step net hasher j t)) [
    | inl stops ↦ absurd (ground (arith, stops))
    | inr (u, goes) ↦ rw (run, goes) (run-snoc rounds i u t₁ t₂ (ground (arith, goes)) h)
  ]

  -- What the task is in a state that is reached, whatever the order of the steps, is what the loop makes
  -- of some schedule of rounds, with no source closed and no panic.
  pub Reach-run :
      {w : net.World} {s : System net}
      → Reach net hasher w s
      → (rounds : List (Incoming net)) × (run net hasher (map some rounds) (spawned net w)
          ≡ done s.task)
  unfolding run
  Reach-run (start e) = ([], ap (λ (x : System net). done x.task) (sym e))
  Reach-run (later r (submit req up room e)) =
      let (rounds, h) = Reach-run r in (rounds, h ∙ ap (λ (x : System net). done x.task) (sym e))
  Reach-run {w} (later r (round i rest task' up takes h e)) =
      let (rounds, g) = Reach-run r in
      (
        rounds ++ i ∷ [],
        run-snoc rounds i (spawned net w) _ task' g h
            ∙ ap (λ (x : System net). done x.task) (sym e),
      )
  Reach-run (later r (crash i rest up takes h e)) =
      let (rounds, g) = Reach-run r in (rounds, g ∙ ap (λ (x : System net). done x.task) (sym e))
  Reach-run (later r (close up e)) =
      let (rounds, g) = Reach-run r in (rounds, g ∙ ap (λ (x : System net). done x.task) (sym e))
