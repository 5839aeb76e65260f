-- ===== src/Manager/Loop/Peers.antt =====
-- src/network/manager.rs: the list of peers that `ConnectedPeers` is answered with.
use v3_node.Base.{◌<◌, ◌≡◌, refl, ap, List, [], ◌∷◌, map, length, length-map, arith}
use v3_node.Base.Count.{count}
use v3_node.Base.HashMap.{
  Hasher, keys, stored_keys, lookup_all, values, get-of-count, length-stored_keys,
}
use v3_node.Peer.{PeerId, Net, Peer}
use v3_node.Manager.State.{PeerManager}
use v3_node.Manager.Registry.Invariant.{IsRegistry}
use v3_node.Manager.Loop.{infos}

module _ (net : Net) (m : PeerManager net) (v : IsRegistry net m) where
  abbrev ids_of : List (Peer net) → List PeerId
  ids_of ps = map (λ i. i.id) (map (λ p. p.info) ps)

  listed :
      (ks : List PeerId)
      → ((k : PeerId) → 0 < count k ks → 0 < count k (stored_keys m.peers))
      → ids_of (lookup_all m.peers ks) ≡ ks
  unfolding lookup_all
  listed [] h = refl
  listed (k ∷ ks) h =
      let (p, e) = get-of-count k m.peers (h k (ground arith)) in
      ground (arith, v.keyed k p e, listed ks (λ j l. h j (ground arith)))

  -- From a well-formed registry the answer lists every registered peer once, under its own id: its
  -- ids are the keys of the registry, in the order of an iteration, and it is as long as the registry
  -- is large.
  pub infos-keys :
      (hasher : Hasher)
      → (map (λ i. i.id) (infos net hasher m) ≡ keys hasher m.peers)
        × (length (infos net hasher m) ≡ length m.peers)
  unfolding infos values keys
  infos-keys hasher =
      let same : map (λ i. i.id) (infos net hasher m) ≡ keys hasher m.peers =
        listed (keys hasher m.peers)
          (λ k h. omega (arith, hasher.count-order (stored_keys m.peers) k)) in
      (
        same,
        omega (
          arith,
          length-map (infos net hasher m) (λ i. i.id),
          ap length same,
          hasher.length-order (stored_keys m.peers),
          length-stored_keys m.peers,
        ),
      )
