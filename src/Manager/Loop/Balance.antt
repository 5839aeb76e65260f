-- ===== src/Manager/Loop/Balance.antt =====
-- src/network/manager.rs: the registry against the number of announced sessions, along the loop.
use v3_node.Base.{
  ℕ, ◌+◌, ◌%◌, ◌==◌, ◌≡◌, subst, List, [], ◌∷◌, Option, none, some, Option-cases, Bool-cases,
  Run-cases, Result, inl, inr, length, done, arith,
}
use v3_node.Base.HashMap.{Hasher, get, keys}
use v3_node.Peer.{Net, PeerId, BlockHash, PeerError, disconnected, Receipts}
use v3_node.Manager.State.{
  fetch_receipts_from, connected_peers, PeerManager, Task, Incoming, event, command, new,
}
use v3_node.Manager.Registry.Invariant.{new-IsRegistry}
use v3_node.Manager.Registry.View.{unseen}
use v3_node.Manager.Registry.{evict, handle_network_event}
use v3_node.Manager.Registry.Balance.{
  opened, closed, reopened, IsBalanced, evict-IsBalanced, handle_network_event-IsBalanced,
}
use v3_node.Manager.Dispatch.{
  Attempt, found, exhausted, attempts, settle, fetch_from_any, fetch_from, do_fetch_receipts,
}
use v3_node.Manager.Loop.{handle_command, step, run}
use v3_node.Manager.Loop.Safety.{spawned, run-spawned}

module _ (net : Net) where
  reindex-IsBalanced :
      (m : PeerManager net) (index : ℕ)
      → IsBalanced net m
      → IsBalanced net (record m { rr_index = index })
  reindex-IsBalanced m index b = record {
    registry = record {
      keyed = b.registry.keyed;
      distinct = b.registry.distinct;
      announced = b.registry.announced;
    };
    paid = b.paid;
    only_sessions = b.only_sessions;
  }

  pub new-IsBalanced : IsBalanced net (new net)
  new-IsBalanced = record {
    registry = new-IsRegistry net;
    paid = omega arith;
    only_sessions = omega arith;
  }

  settle-IsBalanced :
      (total : ℕ) (m m' : PeerManager net) (r : Attempt net × net.World)
      (result : Result (Receipts net) PeerError) (w' : net.World)
      → settle net total m r ≡ done (result, m', w')
      → IsBalanced net m
      → IsBalanced net m'
  unfolding settle
  settle-IsBalanced total m m' (found receipts idx ids, w) result w' h b =
      elim (Run-cases (evict net ids (record m { rr_index = (idx + 1) % total }))) [
        | inl panics ↦ absurd (ground (arith, panics))
        | inr (m₁, goes) ↦
            subst (IsBalanced net) (ground (arith, goes))
              (evict-IsBalanced net ids _ m₁ goes (reindex-IsBalanced m _ b))
      ]
  settle-IsBalanced total m m' (exhausted e ids, w) result w' h b =
      elim (Run-cases (evict net ids m)) [
        | inl panics ↦ absurd (ground (arith, panics))
        | inr (m₁, goes) ↦
            subst (IsBalanced net) (ground (arith, goes)) (evict-IsBalanced net ids m m₁ goes b)
      ]

  module _ (hasher : Hasher) where
    fetch_from_any-IsBalanced :
        (hashes : List BlockHash) (m m' : PeerManager net) (w w' : net.World)
        (result : Result (Receipts net) PeerError)
        → fetch_from_any net hasher hashes m w ≡ done (result, m', w')
        → IsBalanced net m
        → IsBalanced net m'
    unfolding fetch_from_any
    fetch_from_any-IsBalanced hashes m m' w w' result h b =
        let ids = keys hasher m.peers in
        let total = length ids in
        elim (Bool-cases (total == 0)) [
          | inl no_peer ↦ absurd (ground (arith, no_peer))
          | inr more ↦
              elim (Run-cases (
                attempts net m.peers ids hashes total 0 (m.rr_index % total) (disconnected 0) []
                  w)) [
                    | inl panics ↦ absurd (ground (arith, more, panics))
                    | inr (r, goes) ↦
                        settle-IsBalanced total (record m { rr_index = m.rr_index % total }) m' r
                          result w' (ground (arith, more, goes))
                          (reindex-IsBalanced m (m.rr_index % total) b)
                  ]
        ]

    do_fetch_receipts-IsBalanced :
        (target : Option PeerId) (hashes : List BlockHash) (m m' : PeerManager net)
        (w w' : net.World) (result : Result (Receipts net) PeerError)
        → do_fetch_receipts net hasher target hashes m w ≡ done (result, m', w')
        → IsBalanced net m
        → IsBalanced net m'
    unfolding do_fetch_receipts fetch_from
    do_fetch_receipts-IsBalanced target hashes m m' w w' result h b =
        elim (Bool-cases (length m.peers == 0)) [
          | inl empty ↦ subst (IsBalanced net) (ground (arith, empty)) b
          | inr more ↦ elim (Option-cases target) [
            | inl any ↦
                fetch_from_any-IsBalanced hashes m m' w w' result (ground (arith, more, any)) b
            | inr (id, one) ↦ elim (Option-cases (get id m.peers)) [
              | inl missing ↦ subst (IsBalanced net) (ground (arith, more, one, missing)) b
              | inr (p, there) ↦ subst (IsBalanced net) (ground (arith, more, one, there)) b
            ]
          ]
        ]

    step-IsBalanced :
        (i : Incoming net) (t t' : Task net)
        → step net hasher i t ≡ done t'
        → IsBalanced net t.manager
        → IsBalanced net t'.manager
    unfolding step handle_command
    step-IsBalanced (event e) t t' h b =
        elim (Run-cases (handle_network_event net e t.manager t.world)) [
          | inl panics ↦ absurd (ground (arith, panics))
          | inr ((m, w), goes) ↦
              subst (IsBalanced net) (ground (arith, goes))
                (handle_network_event-IsBalanced net e t.manager m t.world w goes b)
        ]
    step-IsBalanced (command (fetch_receipts_from target hashes reply)) t t' h b =
        elim (Run-cases (do_fetch_receipts net hasher target hashes t.manager t.world)) [
          | inl panics ↦ absurd (ground (arith, panics))
          | inr ((result, m, w), goes) ↦
              subst (IsBalanced net) (ground (arith, goes))
                (do_fetch_receipts-IsBalanced target hashes t.manager m t.world w result goes b)
        ]
    step-IsBalanced (command (connected_peers reply)) t t' h b =
        subst (IsBalanced net) (ground arith) b

    pub run-IsBalanced :
        (rounds : List (Option (Incoming net))) (t t' : Task net)
        → run net hasher rounds t ≡ done t'
        → IsBalanced net t.manager
        → IsBalanced net t'.manager
    unfolding run
    run-IsBalanced [] t t' h b =
        let same : t ≡ t' = ground arith in
        subst (λ (u : Task net). IsBalanced net u.manager) same b
    run-IsBalanced (none ∷ rounds) t t' h b =
        let same : t ≡ t' = ground arith in
        subst (λ (u : Task net). IsBalanced net u.manager) same b
    run-IsBalanced (some i ∷ rounds) t t' h b = elim (Run-cases (step net hasher i t)) [
      | inl panics ↦ absurd (ground (arith, panics))
      | inr (u, goes) ↦
          run-IsBalanced rounds u t' (ground (arith, goes)) (step-IsBalanced i t u goes b)
    ]

    -- From a new manager, the main loop gets through every schedule; and the sessions announced as
    -- opened are as many as those announced as closed, the registered peers, and the sessions announced
    -- of a peer that a subscriber took to have one, together. Nothing but sessions is announced.
    pub run-sessions :
        (rounds : List (Option (Incoming net))) (w : net.World)
        → (t' : Task net) × (run net hasher rounds (spawned net w) ≡ done t')
          × (length t'.manager.peers
                + closed t'.manager.event_tx
                + reopened unseen t'.manager.event_tx
              ≡ opened t'.manager.event_tx)
          × (length t'.manager.event_tx ≡ opened t'.manager.event_tx + closed t'.manager.event_tx)
    run-sessions rounds w =
        let (t', runs, v, answered) = run-spawned net hasher rounds w in
        let b = run-IsBalanced rounds (spawned net w) t' runs new-IsBalanced in
        (t', runs, b.paid, b.only_sessions)
