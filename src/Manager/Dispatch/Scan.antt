-- ===== src/Manager/Dispatch/Scan.antt =====
-- The loop of `do_fetch_receipts` in src/network/manager.rs, and a walk along the rotated list.
use v3_node.Base.{
  ℕ, zero, suc, ◌+◌, ◌%◌, ◌<◌, ◌≡◌, refl, sym, ◌∙◌, List, [], ◌∷◌, ◌++◌, Option, none, some, length,
  get_elem?, get_elem?-lt, drop, drop-get_elem?, drop-length, Result, ok, err, done, if◌then◌else◌,
  arith,
}
use native.Mathlib.Numerals.{add-one}
use v3_node.Base.HashMap.{HashMap}
use v3_node.Peer.{PeerId, BlockHash, PeerError, Net, Peer, Receipts}
use v3_node.Manager.Dispatch.{Attempt, found, exhausted, is_disconnected, ask, attempts}
use v3_node.Manager.Dispatch.Rotation.{rotate, length-rotate, get_elem?-rotate}

module _ (net : Net) (peers : HashMap (Peer net)) (hashes : List BlockHash) where
  module _ (rr_index total : ℕ) where
    -- The walk along what is left of the rotated list, from a position in it.
    unfoldable pub scan :
        List PeerId → ℕ → PeerError → List PeerId → net.World → Attempt net × net.World
    scan [] pos last_err to_evict w = (exhausted last_err to_evict, w)
    scan (id ∷ ids) pos last_err to_evict w =
        let (asked, w') = ask net peers id hashes w in
        elim asked [
          | none ↦ scan ids (pos + 1) last_err to_evict w'
          | some reply ↦ elim reply [
            | ok receipts ↦ (found receipts ((rr_index + pos) % total) to_evict, w')
            | err e ↦
                scan ids (pos + 1) e (if is_disconnected e then to_evict ++ id ∷ [] else to_evict)
                  w'
          ]
        ]

  -- One round, given the rest of the loop.
  attempts-scan_step :
      (ids rest : List PeerId) (id : PeerId) (rr left attempt : ℕ) (last_err : PeerError)
      (to_evict : List PeerId) (w : net.World)
      → get_elem? ids ((rr + attempt) % length ids) ≡ some id
      → ((e : PeerError) (evicted : List PeerId) (v : net.World)
          → attempts net peers ids hashes left (attempt + 1) rr e evicted v
            ≡ done (scan rr (length ids) rest (attempt + 1) e evicted v))
      → (asked : Option (Result (Receipts net) PeerError)) (w' : net.World)
      → ask net peers id hashes w ≡ (asked, w')
      → attempts net peers ids hashes (suc left) attempt rr last_err to_evict w
        ≡ done (scan rr (length ids) (id ∷ rest) attempt last_err to_evict w)
  unfolding attempts scan
  attempts-scan_step ids rest id rr left attempt last_err to_evict w here ih none w' e =
      ground (arith, ih last_err to_evict w')
  attempts-scan_step ids rest id rr left attempt last_err to_evict w here ih (some (ok r)) w' e =
      ground arith
  attempts-scan_step ids rest id rr left attempt last_err to_evict w here ih (some (err x)) w' e =
      ground (arith, ih x (if is_disconnected x then to_evict ++ id ∷ [] else to_evict) w')

  -- For an index below the number of peers and as many rounds as are left of it, the counted loop is the
  -- walk along what is left of the list rotated by the index; no index is out of range.
  pub attempts-scan :
      (ids : List PeerId) (rr left attempt : ℕ) (last_err : PeerError) (to_evict : List PeerId)
      (w : net.World)
      → rr < length ids
      → left + attempt ≡ length ids
      → attempts net peers ids hashes left attempt rr last_err to_evict w
        ≡ done (scan rr (length ids) (drop attempt (rotate rr ids)) attempt last_err to_evict w)
  unfolding attempts scan
  attempts-scan ids rr zero attempt last_err to_evict w h e =
      let all : attempt ≡ length (rotate rr ids) = omega (arith, length-rotate rr ids) in
      rw (all, drop-length (rotate rr ids))
  attempts-scan ids rr (suc left) attempt last_err to_evict w h e =
      let (id, at) = get_elem?-lt (rotate rr ids) attempt (omega (arith, length-rotate rr ids)) in
      let here : get_elem? ids ((rr + attempt) % length ids) ≡ some id =
        sym (get_elem?-rotate rr attempt ids h (omega arith)) ∙ at in
      rw (drop-get_elem? (rotate rr ids) attempt id at) (
        attempts-scan_step ids (drop (suc attempt) (rotate rr ids)) id rr left attempt last_err
          to_evict w here
          (λ x evicted v.
            rw (← add-one attempt)
              (attempts-scan ids rr left (attempt + 1) x evicted v h (omega arith)))
          (ask net peers id hashes w).0 (ask net peers id hashes w).1 refl)
