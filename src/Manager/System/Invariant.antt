-- ===== src/Manager/System/Invariant.antt =====
-- src/network/manager.rs: what holds of the task and its channel whatever the order of the steps.
use v3_node.Base.{
  subst, ℕ, zero, suc, ◌≤◌, ◌≡◌, refl, sym, ap, ◌∙◌, List, [], ◌∷◌, ◌++◌, map, map-append,
  append_assoc, append-nil, length, length-append, done, arith,
}
use v3_node.Base.HashMap.{Hasher}
use v3_node.Peer.{Net}
use v3_node.Manager.State.{Command, Task, Incoming, event, command}
use v3_node.Manager.Registry.Invariant.{IsRegistry, new-IsRegistry}
use v3_node.Manager.Loop.{step}
use v3_node.Manager.Loop.Safety.{reply_of, channel_of, wants, Answered, step-safe}
use v3_node.Manager.System.{
  Step, command_capacity, Request, receipts, peers, command_of, running, crashed, System, Takes,
  Step, submit, round, crash, close, launched, Reach, start, later,
}

-- The numbers below a bound, in order.
abbrev pub below : ℕ → List ℕ
below zero = []
below (suc n) = below n ++ n ∷ []

module _ (net : Net) where
  -- The reply channels of the commands that were answered, of those that wait, and of those that were
  -- dropped when the loop ended, are all that were opened, in the order in which they were.
  pub record IsSystem (s : System net) : Type 0 where
    pub registry : IsRegistry net s.task.manager
    pub alive : ¬ (s.phase ≡ crashed)
    pub bounded : length s.pending ≤ command_capacity
    pub dropped : List ℕ
    pub in_order :
        map (channel_of net) s.task.answers ++ (map reply_of s.pending ++ dropped) ≡ below s.opened
    pub none_dropped : s.phase ≡ running → dropped ≡ []

  pub launched-IsSystem : (hasher : Hasher) (w : net.World) → IsSystem (launched net hasher w)
  launched-IsSystem hasher w = record {
    registry = new-IsRegistry net;
    alive = λ e. ground arith;
    bounded = omega arith;
    dropped = [];
    in_order = refl;
    none_dropped = λ e. refl;
  }

  reply_of-command_of : (r : Request) (n : ℕ) → reply_of (command_of r n) ≡ n
  reply_of-command_of (receipts target hashes) n = refl
  reply_of-command_of peers n = refl

  -- A round that ends well does what the loop's theorem says.
  pub step-Answered :
      (hasher : Hasher) (i : Incoming net) (t t' : Task net)
      → IsRegistry net t.manager
      → step net hasher i t ≡ done t'
      → IsRegistry net t'.manager × Answered net (wants net i) t t'
  step-Answered hasher i t t' v e =
      let (t₁, e₁, v₁, a) = step-safe net hasher i t v in
      let same : t₁ ≡ t' = cc (e, e₁) in
      subst (λ (x : Task net). IsRegistry net x.manager × Answered net (wants net i) t x) same
        (v₁, a)

  -- A command sent is the last of its channel.
  sent_last :
      (answered waiting all : List ℕ) (n : ℕ)
      → answered ++ (waiting ++ []) ≡ all
      → answered ++ ((waiting ++ n ∷ []) ++ []) ≡ all ++ n ∷ []
  sent_last answered waiting all n e =
      rw
        (
          append-nil (waiting ++ n ∷ []),
          ← e,
          append-nil waiting,
          append_assoc answered waiting (n ∷ []),
        )
        refl

  sent_in_order :
      (answered waiting dropped all : List ℕ) (n : ℕ)
      → dropped ≡ []
      → answered ++ (waiting ++ dropped) ≡ all
      → answered ++ ((waiting ++ n ∷ []) ++ dropped) ≡ all ++ n ∷ []
  sent_in_order answered waiting dropped all n none_ =
      subst
        (λ (d : List ℕ).
          answered ++ (waiting ++ d) ≡ all → answered ++ ((waiting ++ n ∷ []) ++ d) ≡ all ++ n ∷ [])
        (sym none_) (sent_last answered waiting all n)

  Takes-in_order :
      (i : Incoming net) (pending rest : List Command)
      → Takes net i pending rest
      → map reply_of pending ≡ wants net i ++ map reply_of rest
  Takes-in_order (event e) pending rest h = ap (map reply_of) h
  Takes-in_order (command c) pending rest h = ap (map reply_of) h

  Takes-length :
      (i : Incoming net) (pending rest : List Command)
      → Takes net i pending rest
      → length rest ≤ length pending
  Takes-length (event e) pending rest h = omega (arith, ap length h)
  Takes-length (command c) pending rest h = omega (arith, ap length h)

  module _ (hasher : Hasher) where
    pub Step-IsSystem : {s t : System net} → Step net hasher s t → IsSystem s → IsSystem t
    Step-IsSystem {s} {t} (submit r up room e) v = subst IsSystem (sym e) (record {
      registry = v.registry;
      alive = v.alive;
      bounded = omega (arith, length-append s.pending (command_of r s.opened ∷ []));
      dropped = v.dropped;
      in_order =
          rw
            (
              map-append reply_of s.pending (command_of r s.opened ∷ []),
              reply_of-command_of r s.opened,
            )
            (sent_in_order (map (channel_of net) s.task.answers) (map reply_of s.pending) v.dropped
              (below s.opened) s.opened (v.none_dropped up) v.in_order);
      none_dropped = v.none_dropped;
    })
    Step-IsSystem {s} {t} (round i rest task' up takes run e) v =
        let (registry, a) = step-Answered hasher i s.task task' v.registry run in
        subst IsSystem (sym e) (record {
          registry = registry;
          alive = v.alive;
          bounded = omega (arith, v.bounded, Takes-length i s.pending rest takes);
          dropped = v.dropped;
          in_order =
              rw
                (
                  a,
                  append_assoc (map (channel_of net) s.task.answers) (wants net i)
                      (map reply_of rest ++ v.dropped),
                )
                (sym (
                    ap (◌++◌ (map (channel_of net) s.task.answers)) (
                      ap (λ (x : List ℕ). x ++ v.dropped) (Takes-in_order i s.pending rest takes)
                      ∙ append_assoc (wants net i) (map reply_of rest) v.dropped))
                  ∙ v.in_order);
          none_dropped = v.none_dropped;
        })
    Step-IsSystem {s} {t} (crash i rest up takes run e) v =
        let (t', run', registry, a) = step-safe net hasher i s.task v.registry in
        absurd (ground (arith, run, run'))
    Step-IsSystem {s} {t} (close up e) v = subst IsSystem (sym e) (record {
      registry = v.registry;
      alive = λ p. ground arith;
      bounded = omega arith;
      dropped = map reply_of s.pending ++ v.dropped;
      in_order = v.in_order;
      none_dropped = λ p. absurd (ground arith);
    })

    -- What is reachable.
    pub Reach-IsSystem : {w : net.World} {s : System net} → Reach net hasher w s → IsSystem s
    Reach-IsSystem {w} {s} (start e) = subst IsSystem (sym e) (launched-IsSystem hasher w)
    Reach-IsSystem (later r st) = Step-IsSystem st (Reach-IsSystem r)
