-- ===== src/Manager/Dispatch/RoundRobin.antt =====
-- src/network/manager.rs: a receipt request that any peer may answer, from the request to the
-- state that it leaves.
use v3_node.Base.{
  ℕ, ◌+◌, ◌%◌, ◌≤◌, ◌<◌, ◌≡◌, ◌⊎◌, inl, inr, refl, ap, ◌∙◌, List, [], ◌∷◌, ◌++◌, some, length,
  Result, ok, err, done, arith,
}
use native.Mathlib.Nat.{zero-add, add-zero, le_of_eq, le_trans, mod-lt}
use v3_node.Base.Count.{count, count-append}
use v3_node.Base.HashMap.{Hasher, keys, stored_keys, length-stored_keys}
use v3_node.Peer.{PeerId, BlockHash, PeerError, disconnected, Net, Receipts}
use v3_node.Manager.State.{PeerManager}
use v3_node.Manager.Registry.Invariant.{IsRegistry}
use v3_node.Manager.Registry.Eviction.{Evicted, evict-Evicted}
use v3_node.Manager.Dispatch.{Attempt, found, ask, settle, fetch_from_any}
use v3_node.Manager.Dispatch.Rotation.{rotate, count-rotate}
use v3_node.Manager.Dispatch.Scan.{scan, attempts-scan}
use v3_node.Manager.Dispatch.Outcome.{
  world_after, AllFail, last_error, lost, count-lost, Answered, Unanswered, scan-Walked,
}

module _ (net : Net) (hasher : Hasher) (hashes : List BlockHash) (m : PeerManager net)
    (w : net.World) where
  abbrev pub total : ℕ
  total = length (keys hasher m.peers)

  -- The order in which the peers are asked: from the round-robin index on.
  abbrev pub asking_order : List PeerId
  asking_order = rotate (m.rr_index % total) (keys hasher m.peers)

  abbrev pub Outcome : Type 0
  Outcome = Result (Receipts net) PeerError × PeerManager net × net.World

  -- One peer answered: it is the first in the order that did, the caller gets its receipts, the index
  -- moves just behind it, and the peers before it that were disconnected are evicted.
  pub record Served (r : Outcome) : Type 0 where
    pub before : List PeerId
    pub id : PeerId
    pub after : List PeerId
    pub errors : List PeerError
    pub receipts : Receipts net
    pub order : asking_order ≡ before ++ id ∷ after
    pub failed : AllFail net m.peers hashes before errors w
    pub answer :
        ask net m.peers id hashes (world_after net m.peers hashes before w)
        ≡ (some (ok receipts), r.2)
    pub result : r.0 ≡ ok receipts
    pub evicted :
        Evicted net
          (lost before errors)
          (record m { rr_index = ((m.rr_index % total + length before) % total + 1) % total })
          r.1

  -- No peer answered: each was asked once, the caller gets the last error, and the disconnected ones
  -- are evicted.
  pub record Unserved (r : Outcome) : Type 0 where
    pub errors : List PeerError
    pub failed : AllFail net m.peers hashes asking_order errors w
    pub world : r.2 ≡ world_after net m.peers hashes asking_order w
    pub result : r.0 ≡ err (last_error (disconnected 0) errors)
    pub evicted :
        Evicted net (lost asking_order errors) (record m { rr_index = m.rr_index % total }) r.1

  unfoldable pub reduced : PeerManager net
  reduced = record m { rr_index = m.rr_index % total }

  pub count-asking_order : (k : PeerId) → count k asking_order ≡ count k (stored_keys m.peers)
  unfolding keys
  count-asking_order k =
      count-rotate k (m.rr_index % total) (keys hasher m.peers)
      ∙ hasher.count-order (stored_keys m.peers) k

  pub reindex-IsRegistry :
      (index : ℕ) → IsRegistry net m → IsRegistry net (record m { rr_index = index })
  reindex-IsRegistry index v = record {
    keyed = v.keyed;
    distinct = v.distinct;
    announced = v.announced;
  }

  pub prefix_count :
      (k : PeerId) (before after : List PeerId) (id : PeerId) (errors : List PeerError)
      → asking_order ≡ before ++ id ∷ after
      → count k (lost before errors) ≤ count k (stored_keys m.peers)
  prefix_count k before after id errors e = omega (
    arith,
    count-lost k before errors,
    count-append k before (id ∷ after),
    ap (count k) e,
    count-asking_order k,
  )

  settle_found :
      (r : Attempt net × net.World)
      → IsRegistry net m
      → Answered net m.peers hashes (m.rr_index % total) total asking_order 0 [] w r
      → (o : Outcome) × (settle net total reduced r ≡ done o) × Served o
  unfolding settle reduced
  settle_found (x, w') v a =
      let index = ((m.rr_index % total + length a.before) % total + 1) % total in
      let (m', run, e) =
        evict-Evicted net (lost a.before a.errors) (record m { rr_index = index })
          (reindex-IsRegistry index v)
          (λ k. prefix_count k a.before a.after a.id a.errors a.order) in
      let reached : x
          ≡ found a.receipts ((m.rr_index % total + length a.before) % total)
              (lost a.before a.errors) =
        rw zero-add at a.result in
      (
        (ok a.receipts, m', w'),
        ground (arith, reached, run),
        record {
          before = a.before;
          id = a.id;
          after = a.after;
          errors = a.errors;
          receipts = a.receipts;
          order = a.order;
          failed = a.failed;
          answer = a.answer;
          result = refl;
          evicted = e;
        },
      )

  settle_exhausted :
      (r : Attempt net × net.World)
      → IsRegistry net m
      → Unanswered net m.peers hashes
          (m.rr_index % total)
          total
          asking_order
          (disconnected 0)
          []
          w
          r
      → (o : Outcome) × (settle net total reduced r ≡ done o) × Unserved o
  unfolding settle reduced
  settle_exhausted (x, w') v u =
      let (m', run, e) =
        evict-Evicted net (lost asking_order u.errors) reduced
          (reindex-IsRegistry (m.rr_index % total) v)
          (λ k. le_trans (count-lost k asking_order u.errors) (le_of_eq (count-asking_order k))) in
      (
        (err (last_error (disconnected 0) u.errors), m', w'),
        ground (arith, u.result, run),
        record {
          errors = u.errors;
          failed = u.failed;
          world = u.world;
          result = refl;
          evicted = e;
        },
      )

  settle_walk :
      (r : Attempt net × net.World)
      → IsRegistry net m
      → Answered net m.peers hashes (m.rr_index % total) total asking_order 0 [] w r
        ⊎ Unanswered net m.peers hashes
            (m.rr_index % total)
            total
            asking_order
            (disconnected 0)
            []
            w
            r
      → (o : Outcome) × (settle net total reduced r ≡ done o) × (Served o ⊎ Unserved o)
  settle_walk r v (inl a) = let (o, e, s) = settle_found r v a in (o, e, inl s)
  settle_walk r v (inr u) = let (o, e, s) = settle_exhausted r v u in (o, e, inr s)

  pub total_lem : total ≡ length m.peers
  unfolding keys
  total_lem = hasher.length-order (stored_keys m.peers) ∙ length-stored_keys m.peers

  -- With a peer registered, a request that any peer may answer never panics and always gets a
  -- result: the receipts of the first peer in the order that answers, or the last error of all.
  pub fetch_from_any-Served :
      IsRegistry net m
      → 0 < length m.peers
      → (o : Outcome) × (fetch_from_any net hasher hashes m w ≡ done o) × (Served o ⊎ Unserved o)
  unfolding fetch_from_any reduced
  fetch_from_any-Served v h =
      let index = m.rr_index % total in
      let ids = keys hasher m.peers in
      let some_peer : 0 < total = omega (arith, total_lem) in
      let walked =
        attempts-scan net m.peers hashes ids index total 0 (disconnected 0) [] w
          (mod-lt m.rr_index some_peer) (add-zero total) in
      let r = scan net m.peers hashes index total asking_order 0 (disconnected 0) [] w in
      let (o, e, s) = settle_walk r v (
        scan-Walked net m.peers hashes index total asking_order 0 (disconnected 0) [] w
          (λ k. le_of_eq (count-asking_order k))) in
      (o, ground (arith, walked, e), s)
