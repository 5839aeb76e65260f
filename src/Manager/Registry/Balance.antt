-- ===== src/Manager/Registry/Balance.antt =====
-- src/network/manager.rs: the registry against the number of sessions that were announced.
use v3_node.Base.{
  ℕ, suc, ◌+◌, ◌≤◌, ◌≡◌, refl, subst, List, [], ◌∷◌, ◌++◌, Option, none, some, length,
  length-append, done, Option-cases, Run-cases, inl, inr, arith,
}
use v3_node.Base.Count.{count}
use v3_node.Base.HashMap.{HashMap, get, contains_key, insert, remove, stored_keys, count-of-get}
use v3_node.Peer.{PeerId, Net, Peer, PeerInfo, SessionInfo, from_session}
use v3_node.Manager.State.{
  ManagerEvent, peer_connected, peer_disconnected, new_block, NetworkEvent, active_peer_session,
  session_closed, peer_removed, other, PeerManager,
}
use v3_node.Manager.Registry.Invariant.{
  IsRegistry, on_peer_connected-IsRegistry, without, without-IsRegistry, on_peer_removed_lem,
}
use v3_node.Manager.Registry.View.{View, unseen, see, watch}
use v3_node.Manager.Registry.{on_peer_connected, on_peer_removed, handle_network_event, evict}

module _ {V : Type 0} where
  length-remove : (k : ℕ) (m : HashMap V) → length (remove k m) + count k (stored_keys m) ≡ length m
  unfolding remove stored_keys
  length-remove k [] = omega arith
  length-remove k ((j, v) ∷ m) = ground (arith, length-remove k m)

  count-missing : (k : ℕ) (m : HashMap V) → get k m ≡ none → count k (stored_keys m) ≡ 0
  unfolding get stored_keys
  count-missing k [] h = refl
  count-missing k ((j, v) ∷ m) h = ground (arith, count-missing k m)

  length-remove_found :
      (k : ℕ) (m : HashMap V) (v : V)
      → count k (stored_keys m) ≤ 1
      → get k m ≡ some v
      → suc (length (remove k m)) ≡ length m
  length-remove_found k m v once h = omega (arith, length-remove k m, count-of-get k m v h)

  length-insert :
      (k : ℕ) (v : V) (m : HashMap V)
      → count k (stored_keys m) ≤ 1
      → length (insert k v m) + (elim (get k m) [ none ↦ 0 | some x ↦ 1 ]) ≡ suc (length m)
  unfolding insert
  length-insert k v m once = elim (Option-cases (get k m)) [
    | inl missing ↦ ground (arith, missing, length-remove k m, count-missing k m missing)
    | inr (x, there) ↦ ground (arith, there, length-remove_found k m x once there)
  ]

module _ {net : Net} where
  -- The announced sessions, those that opened and those that closed.
  abbrev pub opened : List (ManagerEvent net) → ℕ
  opened [] = 0
  opened (peer_connected info ∷ es) = suc (opened es)
  opened (peer_disconnected info reason ∷ es) = opened es
  opened (new_block block ∷ es) = opened es

  abbrev pub closed : List (ManagerEvent net) → ℕ
  closed [] = 0
  closed (peer_connected info ∷ es) = closed es
  closed (peer_disconnected info reason ∷ es) = suc (closed es)
  closed (new_block block ∷ es) = closed es

  pub opened-append : (es fs : List (ManagerEvent net)) → opened (es ++ fs) ≡ opened es + opened fs
  opened-append [] fs = omega arith
  opened-append (peer_connected info ∷ es) fs = omega (arith, opened-append es fs)
  opened-append (peer_disconnected info reason ∷ es) fs = opened-append es fs
  opened-append (new_block block ∷ es) fs = opened-append es fs

  pub closed-append : (es fs : List (ManagerEvent net)) → closed (es ++ fs) ≡ closed es + closed fs
  closed-append [] fs = omega arith
  closed-append (peer_connected info ∷ es) fs = closed-append es fs
  closed-append (peer_disconnected info reason ∷ es) fs = omega (arith, closed-append es fs)
  closed-append (new_block block ∷ es) fs = closed-append es fs

module _ {net : Net} where
  -- Whether an event announces a session of a peer that is known to have one, and how many do.
  abbrev again : View net → ManagerEvent net → ℕ
  again v (peer_connected info) = elim (v info.id) [ none ↦ 0 | some known ↦ 1 ]
  again v (peer_disconnected info reason) = 0
  again v (new_block block) = 0

  abbrev pub reopened : View net → List (ManagerEvent net) → ℕ
  reopened v [] = 0
  reopened v (e ∷ es) = again v e + reopened (see v e) es

  reopened-append :
      (v : View net) (es : List (ManagerEvent net)) (e : ManagerEvent net)
      → reopened v (es ++ e ∷ []) ≡ reopened v es + again (watch v es) e
  unfolding watch
  reopened-append v [] e = omega arith
  reopened-append v (x ∷ es) e = omega (arith, reopened-append (see v x) es e)

-- The counts of a log that grows.
ruleset log_counts = (arith, length-append, opened-append, closed-append)

-- The sessions announced are those that closed, those of the registered peers, and those of peers
-- that had one; and nothing else is announced.
pub record IsBalanced (net : Net) (m : PeerManager net) : Type 0 where
  pub registry : IsRegistry net m
  pub paid : length m.peers + closed m.event_tx + reopened unseen m.event_tx ≡ opened m.event_tx
  pub only_sessions : length m.event_tx ≡ opened m.event_tx + closed m.event_tx

module _ (net : Net) where
  again_registered :
      (m : PeerManager net) (info : PeerInfo net)
      → IsRegistry net m
      → again (watch unseen m.event_tx) (peer_connected info)
        ≡ (elim (get info.id m.peers) [ none ↦ 0 | some x ↦ 1 ])
  again_registered m info v =
      ground (arith, v.announced info.id, Option-cases (get info.id m.peers))

  pub on_peer_connected-IsBalanced :
      (info : SessionInfo net) (sender : net.Sender) (m : PeerManager net) (w : net.World)
      → IsBalanced net m
      → IsBalanced net (on_peer_connected net info sender m w).0
  on_peer_connected-IsBalanced info sender m w b =
      let p = (from_session net info sender w).0 in
      record {
        registry = on_peer_connected-IsRegistry net info sender m w b.registry;
        paid =
            unfold on_peer_connected in
            grind (
              log_counts,
              b.paid,
              length-insert p.info.id p m.peers (b.registry.distinct p.info.id),
              reopened-append unseen m.event_tx (peer_connected p.info),
              again_registered m p.info b.registry,
            );
        only_sessions = unfold on_peer_connected in grind (log_counts, b.only_sessions);
      }

  without-IsBalanced :
      (id : PeerId) (reason : Option net.Reason) (m : PeerManager net) (p : Peer net)
      → get id m.peers ≡ some p
      → IsBalanced net m
      → IsBalanced net (without net id reason p m)
  without-IsBalanced id reason m p e b = record {
    registry = without-IsRegistry net id reason m p e b.registry;
    paid = grind (
      log_counts,
      b.paid,
      length-remove_found id m.peers p (b.registry.distinct id) e,
      reopened-append unseen m.event_tx (peer_disconnected p.info reason),
    );
    only_sessions = grind (log_counts, b.only_sessions);
  }

  pub on_peer_removed-IsBalanced :
      (id : PeerId) (reason : Option net.Reason) (m m' : PeerManager net)
      → on_peer_removed net id reason m ≡ done m'
      → IsBalanced net m
      → IsBalanced net m'
  unfolding on_peer_removed
  on_peer_removed-IsBalanced id reason m m' h b = elim (Option-cases (get id m.peers)) [
    | inl missing ↦ absurd (ground (arith, missing))
    | inr (p, e) ↦
        let runs = on_peer_removed_lem net id reason m p e in
        let same : without net id reason p m ≡ m' = cc (runs, h) in
        subst (IsBalanced net) same (without-IsBalanced id reason m p e b)
  ]

  pub evict-IsBalanced :
      (ids : List PeerId) (m m' : PeerManager net)
      → evict net ids m ≡ done m'
      → IsBalanced net m
      → IsBalanced net m'
  unfolding evict
  evict-IsBalanced [] m m' h b = subst (IsBalanced net) (ground arith) b
  evict-IsBalanced (id ∷ ids) m m' h b = elim (Run-cases (on_peer_removed net id none m)) [
    | inl panics ↦ absurd (ground (arith, panics))
    | inr (m₁, goes) ↦
        evict-IsBalanced ids m₁ m' (ground (arith, goes))
          (on_peer_removed-IsBalanced id none m m₁ goes b)
  ]

  pub handle_network_event-IsBalanced :
      (e : NetworkEvent net) (m m' : PeerManager net) (w w' : net.World)
      → handle_network_event net e m w ≡ done (m', w')
      → IsBalanced net m
      → IsBalanced net m'
  unfolding handle_network_event contains_key
  handle_network_event-IsBalanced (active_peer_session info sender) m m' w w' h b =
      subst (IsBalanced net) (ground arith) (on_peer_connected-IsBalanced info sender m w b)
  handle_network_event-IsBalanced (session_closed id reason) m m' w w' h b =
      elim (Option-cases (get id m.peers)) [
        | inl e ↦ subst (IsBalanced net) (ground (arith, e)) b
        | inr (p, e) ↦
            subst (IsBalanced net) (ground (arith, on_peer_removed_lem net id reason m p e))
              (without-IsBalanced id reason m p e b)
      ]
  handle_network_event-IsBalanced (peer_removed id) m m' w w' h b =
      elim (Option-cases (get id m.peers)) [
        | inl e ↦ subst (IsBalanced net) (ground (arith, e)) b
        | inr (p, e) ↦
            subst (IsBalanced net) (ground (arith, on_peer_removed_lem net id none m p e))
              (without-IsBalanced id none m p e b)
      ]
  handle_network_event-IsBalanced other m m' w w' h b = subst (IsBalanced net) (ground arith) b
