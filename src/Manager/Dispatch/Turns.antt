-- ===== src/Manager/Dispatch/Turns.antt =====
-- src/network/manager.rs: requests that any peer may answer, one after the other.
use v3_node.Base.{
  ℕ, zero, suc, ◌+◌, ◌%◌, ◌≤◌, ◌<◌, ◌≡◌, refl, ap, ◌∙◌, sym, List, [], ◌∷◌, map, Option, none, some,
  length, get_elem?, get_elem?-lt, Result, ok, Run, panic, done, arith,
}
use native.Mathlib.Numerals.{add-one}
use native.Mathlib.Nat.{add-zero, mod-lt, mod-mod, suc-mod}
use v3_node.Base.Count.{count}
use v3_node.Base.HashMap.{HashMap, Hasher, get, keys, stored_keys, get-of-count}
use v3_node.Peer.{PeerId, BlockHash, PeerError, disconnected, Net, Peer, Receipts, fetch_receipts}
use v3_node.Manager.State.{PeerManager}
use v3_node.Manager.Registry.{evict}
use v3_node.Manager.Dispatch.RoundRobin.{total_lem}
use v3_node.Manager.Dispatch.{
  found, ask, attempts, settle, fetch_from_any, fetch_from, do_fetch_receipts,
}

count-get_elem? : (xs : List ℕ) (i x : ℕ) → get_elem? xs i ≡ some x → 1 ≤ count x xs
count-get_elem? [] i x e = ground arith
count-get_elem? (y ∷ xs) zero x e = ground arith
count-get_elem? (y ∷ xs) (suc i) x e = ground (arith, count-get_elem? xs i x e)

module _ (net : Net) (hasher : Hasher) (hashes : List BlockHash) where
  -- One request after the other, with the results in order.
  unfoldable pub requests :
      ℕ
      → PeerManager net
      → net.World
      → Run (List (Result (Receipts net) PeerError) × PeerManager net × net.World)
  requests zero m w = done ([], m, w)
  requests (suc k) m w = elim (do_fetch_receipts net hasher none hashes m w) [
    | panic ↦ panic
    | done (r, m₁, w₁) ↦ elim (requests k m₁ w₁) [
      | panic ↦ panic
      | done (rs, m₂, w₂) ↦ done (r ∷ rs, m₂, w₂)
    ]
  ]

  module _ (peers : HashMap (Peer net)) where
    -- Every registered peer answers whenever it is asked.
    abbrev pub AllAnswer : Type 0
    AllAnswer =
        (id : PeerId) (p : Peer net) (w : net.World)
        → get id peers ≡ some p
        → (receipts : Receipts net) × ((fetch_receipts net p hashes w).0 ≡ ok receipts)

    -- The peers asked in turn, one at each index modulo their number.
    unfoldable pub turns :
        ℕ → ℕ → net.World → List (Option (Result (Receipts net) PeerError)) × net.World
    turns zero i w = ([], w)
    turns (suc k) i w = elim (get_elem? (keys hasher peers) (i % length (keys hasher peers))) [
      | none ↦ ([], w)
      | some id ↦
          let (asked, w') = ask net peers id hashes w in
          let (more, w'') = turns k (suc i) w' in (asked ∷ more, w'')
    ]

    turns-suc :
        (k i : ℕ) (w : net.World) (id : PeerId)
        → get_elem? (keys hasher peers) (i % length (keys hasher peers)) ≡ some id
        → turns (suc k) i w ≡ (
          (ask net peers id hashes w).0 ∷ (turns k (suc i) (ask net peers id hashes w).1).0,
          (turns k (suc i) (ask net peers id hashes w).1).1,
        )
    unfolding turns
    turns-suc k i w id at = rw (turns, at) refl

  ask_registered :
      (m : PeerManager net) (w : net.World) (index : ℕ) (id : PeerId)
      → AllAnswer m.peers
      → get_elem? (keys hasher m.peers) index ≡ some id
      → (receipts : Receipts net) × ((ask net m.peers id hashes w).0 ≡ some (ok receipts))
  unfolding ask keys
  ask_registered m w index id answers at =
      let listed = count-get_elem? (keys hasher m.peers) index id at in
      let (p, there) =
        get-of-count id m.peers
          (omega (arith, listed, hasher.count-order (stored_keys m.peers) id)) in
      let (receipts, e) = answers id p w there in (receipts, rw (ask, there, e) refl)

  first_answers :
      (m : PeerManager net) (w : net.World) (id : PeerId) (receipts : Receipts net) (total : ℕ)
      → 0 < total
      → total ≡ length (keys hasher m.peers)
      → get_elem? (keys hasher m.peers) (m.rr_index % total) ≡ some id
      → (ask net m.peers id hashes w).0 ≡ some (ok receipts)
      → attempts net m.peers
          (keys hasher m.peers)
          hashes
          total
          0
          (m.rr_index % total)
          (disconnected 0)
          []
          w
        ≡ done (found receipts (m.rr_index % total) [], (ask net m.peers id hashes w).1)
  unfolding attempts
  first_answers m w id receipts zero h n at e = absurd (omega arith)
  first_answers m w id receipts (suc left) h n at e =
      let same : (m.rr_index % suc left + 0) % suc left ≡ m.rr_index % suc left =
        rw (add-zero (m.rr_index % suc left)) (mod-mod m.rr_index (suc left)) in
      rw (attempts, ← n, same, at, e) (rw (← n, same) refl)

  -- One request, if everyone answers.
  request_lem :
      (m : PeerManager net) (w : net.World)
      → AllAnswer m.peers
      → 0 < length m.peers
      → (id : PeerId) × (receipts : Receipts net) × (get_elem?
            (keys hasher m.peers)
            (m.rr_index % length (keys hasher m.peers))
          ≡ some id)
        × ((ask net m.peers id hashes w).0 ≡ some (ok receipts))
        × (do_fetch_receipts net hasher none hashes m w
            ≡ done (
              ok receipts,
              record m {
                rr_index =
                    (m.rr_index % length (keys hasher m.peers) + 1) % length (keys hasher m.peers);
              },
              (ask net m.peers id hashes w).1,
            ))
  unfolding do_fetch_receipts fetch_from fetch_from_any settle evict
  request_lem m w answers h =
      let total = length (keys hasher m.peers) in
      let size = total_lem net hasher hashes m w in
      let some_peer : 0 < total = omega (arith, size, h) in
      let (id, at) =
        get_elem?-lt (keys hasher m.peers) (m.rr_index % total) (mod-lt m.rr_index some_peer) in
      let (receipts, e) = ask_registered m w (m.rr_index % total) id answers at in
      let looped = first_answers m w id receipts total some_peer refl at e in
      (id, receipts, at, e, ground (arith, looped, some_peer, h))

  -- The receipts of some requests, as the peers asked in turn from an index on give them, and the
  -- manager that is left.
  abbrev pub InTurn :
      ℕ
      → ℕ
      → PeerManager net
      → net.World
      → List (Receipts net)
      → PeerManager net
      → net.World
      → Type 0
  InTurn k i m w rs m' w' =
      (requests k m w ≡ done (map ok rs, m', w'))
      × (turns m.peers k i w ≡ (map (λ r. some (ok r)) rs, w'))
      × (m'.peers ≡ m.peers)
      × (m'.event_tx ≡ m.event_tx)
      × (m'.rr_index % length (keys hasher m.peers) ≡ (i + k) % length (keys hasher m.peers))

  next_index : (rr i n : ℕ) → rr % n ≡ i % n → (rr % n + 1) % n % n ≡ suc i % n
  next_index rr i n e =
      mod-mod (rr % n + 1) n ∙ ap (λ x. (x + 1) % n) e ∙ rw add-one (sym (suc-mod i n))

  requests_from :
      (k i : ℕ) (m : PeerManager net) (w : net.World)
      → AllAnswer m.peers
      → 0 < length m.peers
      → m.rr_index % length (keys hasher m.peers) ≡ i % length (keys hasher m.peers)
      → (rs : List (Receipts net)) × (m' : PeerManager net) × (w' : net.World) × InTurn k i m w rs
          m' w'
  unfolding requests turns
  requests_from zero i m w answers h e = ([], m, w, (refl, refl, refl, refl, rw add-zero e))
  requests_from (suc k) i m w answers h e =
      let total = length (keys hasher m.peers) in
      let (id, receipts, at, asked, served) = request_lem m w answers h in
      let m₁ : PeerManager net = record m { rr_index = (m.rr_index % total + 1) % total } in
      let w₁ = (ask net m.peers id hashes w).1 in
      let (rs, m', w', (a, b, c, d, f)) =
        requests_from k (suc i) m₁ w₁ answers h (next_index m.rr_index i total e) in
      (
        receipts ∷ rs,
        m',
        w',
        (
          rw (requests, served, a) refl,
          turns-suc m.peers k i w id (rw (← e) at) ∙ rw (asked, b) refl,
          c,
          d,
          f ∙ ap (λ x. x % total) (omega arith),
        ),
      )

  -- If there are peers and every one answers, requests that any peer may answer take the peers in turn: the
  -- first is the one at the round-robin index, and each next one stands behind it, the first again
  -- after the last. Every request gets the receipts of its peer, and the registry stays as it is.
  pub requests-turns :
      (k : ℕ) (m : PeerManager net) (w : net.World)
      → AllAnswer m.peers
      → 0 < length m.peers
      → (rs : List (Receipts net)) × (m' : PeerManager net) × (w' : net.World) × InTurn k m.rr_index
          m w rs m' w'
  requests-turns k m w answers h = requests_from k m.rr_index m w answers h refl
