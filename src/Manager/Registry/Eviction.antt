-- ===== src/Manager/Registry/Eviction.antt =====
-- src/network/manager.rs: the eviction of several peers, `for id in to_evict`.
use v3_node.Base.{
  ◌≤◌, ◌==◌, ◌≡◌, refl, sym, ap, ◌∙◌, List, [], ◌∷◌, ◌++◌, append-nil, append_assoc, none, some,
  done, if◌then◌else◌, arith,
}
use v3_node.Base.Count.{count, except_all}
use v3_node.Base.HashMap.{
  HashMap, get, remove, stored_keys, get-of-count, map_laws, stored_keys-remove,
}
use v3_node.Peer.{PeerId, Net, Peer}
use v3_node.Manager.State.{PeerManager, ManagerEvent, peer_disconnected}
use v3_node.Manager.Registry.{evict}
use v3_node.Manager.Registry.Invariant.{
  IsRegistry, without, on_peer_removed_lem, without-IsRegistry,
}

module _ (net : Net) where
  -- The announcements that some peers leave, in order.
  abbrev pub departures : HashMap (Peer net) → List PeerId → List (ManagerEvent net)
  departures peers [] = []
  departures peers (id ∷ ids) = elim (get id peers) [
    | none ↦ departures peers ids
    | some p ↦ peer_disconnected p.info none ∷ departures peers ids
  ]

  -- A list to evict names registered peers, none of them twice.
  abbrev pub Evictable : List PeerId → PeerManager net → Type 0
  Evictable ids m = (k : PeerId) → count k ids ≤ count k (stored_keys m.peers)

  -- What an eviction comes to.
  pub record Evicted (ids : List PeerId) (m m' : PeerManager net) : Type 0 where
    pub registry : IsRegistry net m'
    pub gone : (k : PeerId) → get k m'.peers ≡ (if count k ids == 0 then get k m.peers else none)
    pub announced : m'.event_tx ≡ m.event_tx ++ departures m.peers ids
    pub cursor : m'.rr_index ≡ m.rr_index
    pub stored : stored_keys m'.peers ≡ except_all ids (stored_keys m.peers)

  departures-remove :
      (id : PeerId) (peers : HashMap (Peer net)) (ids : List PeerId)
      → count id ids ≡ 0
      → departures (remove id peers) ids ≡ departures peers ids
  departures-remove id peers [] h = refl
  departures-remove id peers (k ∷ ids) h = grind (arith, map_laws, departures-remove id peers ids)

  -- From a well-formed registry the eviction of distinct registered peers never panics, removes exactly
  -- those, announces their disconnections in order with no reason, and leaves the round-robin index.
  pub evict-Evicted :
      (ids : List PeerId) (m : PeerManager net)
      → IsRegistry net m
      → Evictable ids m
      → (m' : PeerManager net) × (evict net ids m ≡ done m') × Evicted ids m m'
  unfolding evict
  evict-Evicted [] m v h = (
    m,
    refl,
    record {
      registry = v;
      gone = λ k. refl;
      announced = sym (append-nil m.event_tx);
      cursor = refl;
      stored = refl;
    },
  )
  evict-Evicted (id ∷ ids) m v h =
      let (p, e) = get-of-count id m.peers (ground (arith, h id)) in
      let once : count id ids ≡ 0 = ground (arith, h id, v.distinct id) in
      let m₁ = without net id none p m in
      let (m', run, done_so) =
        evict-Evicted ids m₁ (without-IsRegistry net id none m p e v)
          (λ k. grind (arith, map_laws, h k)) in
      (
        m',
        ground (arith, on_peer_removed_lem net id none m p e, run),
        record {
          registry = done_so.registry;
          gone = λ k. grind (arith, map_laws, done_so.gone);
          announced = ground (
            arith,
            done_so.announced,
            departures-remove id m.peers ids once,
            append_assoc m.event_tx (peer_disconnected p.info none ∷ []) (departures m.peers ids),
          );
          cursor = done_so.cursor;
          stored = done_so.stored ∙ ap (except_all ids) (stored_keys-remove id m.peers);
        },
      )
