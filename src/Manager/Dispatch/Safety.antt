-- ===== src/Manager/Dispatch/Safety.antt =====
-- src/network/manager.rs: receipt requests of either kind from a well-formed registry.
use v3_node.Base.{
  ℕ, ◌<◌, ◌==◌, ◌≡◌, ◌⊎◌, inl, inr, List, Option, none, some, length, err, done, if◌then◌else◌,
  arith, Option-cases, Bool-cases,
}
use v3_node.Base.HashMap.{Hasher, get}
use v3_node.Peer.{PeerId, BlockHash, PeerError, disconnected, Net, Peer, fetch_receipts}
use v3_node.Peer.Fetch.{peer_of, fetch_receipts-err}
use v3_node.Manager.State.{PeerManager}
use v3_node.Manager.Registry.Invariant.{IsRegistry}
use v3_node.Manager.Registry.Eviction.{Evicted}
use v3_node.Manager.Dispatch.{fetch_from, do_fetch_receipts}
use v3_node.Manager.Dispatch.RoundRobin.{Outcome, Served, Unserved, fetch_from_any-Served}

module _ (net : Net) (hasher : Hasher) (hashes : List BlockHash) (m : PeerManager net)
    (w : net.World) where
  -- Peers may go, and none comes or changes.
  abbrev pub Shrinks : PeerManager net → Type 0
  Shrinks m' = (k : PeerId) (p : Peer net) → get k m'.peers ≡ some p → get k m.peers ≡ some p

  Evicted-Shrinks :
      (ids : List PeerId) (index : ℕ) (m' : PeerManager net)
      → Evicted net ids (record m { rr_index = index }) m'
      → Shrinks m'
  Evicted-Shrinks ids index m' e k p h = ground (arith, e.gone k)

  Served-IsRegistry :
      (o : Outcome net hasher hashes m w)
      → Served net hasher hashes m w o ⊎ Unserved net hasher hashes m w o
      → IsRegistry net o.1 × Shrinks o.1
  Served-IsRegistry o (inl s) = (s.evicted.registry, Evicted-Shrinks _ _ o.1 s.evicted)
  Served-IsRegistry o (inr u) = (u.evicted.registry, Evicted-Shrinks _ _ o.1 u.evicted)

  fetch_from-IsRegistry :
      (target : Option PeerId)
      → IsRegistry net m
      → 0 < length m.peers
      → (o : Outcome net hasher hashes m w) × (fetch_from net hasher target hashes m w ≡ done o)
        × IsRegistry net o.1
        × Shrinks o.1
  unfolding fetch_from
  fetch_from-IsRegistry none v h =
      let (o, e, s) = fetch_from_any-Served net hasher hashes m w v h in
      let (registry, shrinks) = Served-IsRegistry o s in (o, e, registry, shrinks)
  fetch_from-IsRegistry (some id) v h = elim (Option-cases (get id m.peers)) [
    | inl e ↦ ((err (disconnected id), m, w), ground arith, v, λ k p h. h)
    | inr (p, e) ↦
        let (r, w') = fetch_receipts net p hashes w in ((r, m, w'), ground arith, v, λ k p h. h)
  ]

  -- From a well-formed registry a receipt request, to one peer or to any, ends with a result and no
  -- panic; the registry stays well formed, and may only lose peers.
  pub do_fetch_receipts-IsRegistry :
      (target : Option PeerId)
      → IsRegistry net m
      → (o : Outcome net hasher hashes m w) × (do_fetch_receipts net hasher target hashes m w
          ≡ done o)
        × IsRegistry net o.1
        × Shrinks o.1
  unfolding do_fetch_receipts
  do_fetch_receipts-IsRegistry target v = elim (Bool-cases (length m.peers == 0)) [
    | inl empty ↦ ((err (disconnected 0), m, w), rw empty, v, λ k p h. h)
    | inr more ↦ rw more (fetch_from-IsRegistry target v (ground arith))
  ]

  -- From a well-formed registry a failed request to one peer leaves the manager as it was, and its error
  -- names that peer; but if no peer is registered at all, the error names the default id.
  pub do_fetch_receipts-err :
      (id : PeerId) (e : PeerError) (m' : PeerManager net) (w' : net.World)
      → IsRegistry net m
      → do_fetch_receipts net hasher (some id) hashes m w ≡ done (err e, m', w')
      → (m' ≡ m) × (peer_of e ≡ (if length m.peers == 0 then 0 else id))
  unfolding do_fetch_receipts
  do_fetch_receipts-err id e m' w' v h = elim (Option-cases (get id m.peers)) [
    | inl missing ↦ ground arith
    | inr (p, there) ↦ ground (arith, v.keyed id p there, fetch_receipts-err net p hashes w e)
  ]
