-- ===== src/Manager/Dispatch/Skips.antt =====
-- src/network/manager.rs: the round-robin index after peers were evicted.
use v3_node.Base.{
  ℕ, suc, ◌+◌, ◌%◌, ◌≤◌, ◌<◌, ◌≡◌, refl, ap, ◌∙◌, List, [], ◌∷◌, ◌++◌, append-nil, length,
  length-append, some, ok, done, arith,
}
use native.Mathlib.Nat.{zero-add, add-zero, mod-lt, mod-eq_of_lt}
use native.Mathlib.Numerals.{add-one}
use v3_node.Base.Count.{count, count-append, except, except_all, except_all-append}
use v3_node.Base.HashMap.{Hasher, keys, stored_keys}
use v3_node.Peer.{PeerId, BlockHash, PeerError, disconnected, Net, Receipts}
use v3_node.Manager.State.{PeerManager}
use v3_node.Manager.Registry.Invariant.{IsRegistry}
use v3_node.Manager.Registry.Eviction.{evict-Evicted}
use v3_node.Manager.Dispatch.{found, is_disconnected, ask, settle, fetch_from_any}
use v3_node.Manager.Dispatch.Rotation.{rotate}
use v3_node.Manager.Dispatch.Scan.{scan, attempts-scan}
use v3_node.Manager.Dispatch.Outcome.{world_after, AllFail, lost, scan_ok, scan_err, evict_assoc}
use v3_node.Manager.Dispatch.RoundRobin.{reindex-IsRegistry}

-- An iteration that keeps the order of what is left when a key is removed.
abbrev pub IsStable : Hasher → Type 0
IsStable hasher = (k : ℕ) (ks : List ℕ) → hasher.order (except k ks) ≡ except k (hasher.order ks)

stable_all :
    (hasher : Hasher) (stable : IsStable hasher) (ids ks : List ℕ)
    → hasher.order (except_all ids ks) ≡ except_all ids (hasher.order ks)
stable_all hasher stable [] ks = refl
stable_all hasher stable (id ∷ ids) ks =
    stable_all hasher stable ids (except id ks) ∙ ap (except_all ids) (stable id ks)

module _ (net : Net) (hasher : Hasher) (hashes : List BlockHash) (m : PeerManager net) where
  -- A walk whose first answer is known.
  scan-found :
      (rr total : ℕ) (before after : List PeerId) (errors : List PeerError) (id : PeerId) (pos : ℕ)
      (last_err : PeerError) (to_evict : List PeerId) (w : net.World) (rs : Receipts net)
      → AllFail net m.peers hashes before errors w
      → (ask net m.peers id hashes (world_after net m.peers hashes before w)).0 ≡ some (ok rs)
      → scan net m.peers hashes rr total (before ++ id ∷ after) pos last_err to_evict w ≡ (
        found rs ((rr + (pos + length before)) % total) (to_evict ++ lost before errors),
        (ask net m.peers id hashes (world_after net m.peers hashes before w)).1,
      )
  scan-found rr total [] after [] id pos last_err to_evict w rs f a =
      scan_ok net m.peers hashes rr total id after pos last_err to_evict w rs a
      ∙ rw (add-zero pos, append-nil to_evict) refl
  scan-found rr total [] after (x ∷ errors) id pos last_err to_evict w rs f a = elim f [ ]
  scan-found rr total (b ∷ before) after [] id pos last_err to_evict w rs f a = elim f [ ]
  scan-found rr total (b ∷ before) after (x ∷ errors) id pos last_err to_evict w rs (e, f) a =
      let moved : pos + 1 + length before ≡ pos + suc (length before) = omega arith in
      scan_err net m.peers hashes rr total b (before ++ id ∷ after) pos last_err to_evict w x e
      ∙ scan-found rr total before after errors id (pos + 1) x _ _ rs f a
      ∙ rw (moved, evict_assoc (is_disconnected x) b to_evict (lost before errors)) refl

  -- If the iteration order is stable and the index is at its front, and the peers before the first
  -- one that answers are all disconnected, then a request that any peer may answer gives the receipts
  -- of that one, which is the front of the order afterwards; but the index is the number of the
  -- evicted peers plus one, reduced by the number of peers before the eviction.
  pub fetch_from_any-skip :
      (before after : List PeerId) (errors : List PeerError) (id : PeerId) (w : net.World)
      (rs : Receipts net)
      → IsRegistry net m
      → IsStable hasher
      → m.rr_index % length (keys hasher m.peers) ≡ 0
      → keys hasher m.peers ≡ before ++ id ∷ after
      → AllFail net m.peers hashes before errors w
      → lost before errors ≡ before
      → (ask net m.peers id hashes (world_after net m.peers hashes before w)).0 ≡ some (ok rs)
      → (m' : PeerManager net) × (w' : net.World) × (fetch_from_any net hasher hashes m w
          ≡ done (ok rs, m', w'))
        × (keys hasher m'.peers ≡ id ∷ after)
        × (m'.rr_index ≡ suc (length before) % (length before + suc (length after)))
  unfolding fetch_from_any settle keys
  fetch_from_any-skip before after errors id w rs v stable front order f all a =
      let ids = keys hasher m.peers in
      let total = length ids in
      let size : total ≡ length before + suc (length after) =
        ap length order ∙ length-append before (id ∷ after) in
      let some_peer : 0 < total = omega (arith, size) in
      let r = m.rr_index % total in
      let walked =
        attempts-scan net m.peers hashes ids r total 0 (disconnected 0) [] w
          (mod-lt m.rr_index some_peer) (add-zero total) in
      let rotated : rotate r ids ≡ before ++ id ∷ after = rw front (append-nil ids ∙ order) in
      let ends = scan-found r total before after errors id 0 (disconnected 0) [] w rs f a in
      let index = ((r + (0 + length before)) % total + 1) % total in
      let behind : length before < total = omega (arith, size) in
      let w' = (ask net m.peers id hashes (world_after net m.peers hashes before w)).1 in
      let distinct : (k : PeerId) → count k (before ++ id ∷ after) ≤ 1 = λ k.
        omega
          (arith, ap (count k) order, hasher.count-order (stored_keys m.peers) k, v.distinct k) in
      let (m', run, e) =
        evict-Evicted net before (record m { rr_index = index })
          (reindex-IsRegistry net hasher hashes m w index v)
          (λ k. omega (
            arith,
            count-append k before (id ∷ after),
            ap (count k) order,
            hasher.count-order (stored_keys m.peers) k,
          )) in
      (
        m',
        w',
        ground (arith, walked, rotated, ends, run, all),
        ap hasher.order e.stored
            ∙ stable_all hasher stable before (stored_keys m.peers)
            ∙ ap (except_all before) order
            ∙ except_all-append before (id ∷ after) distinct,
        e.cursor
            ∙ rw
                (
                  front,
                  zero-add (0 + length before),
                  zero-add (length before),
                  mod-eq_of_lt behind,
                  size,
                  add-one (length before),
                )
                refl,
      )
