-- ===== src/Manager/Dispatch.antt =====
-- src/network/manager.rs: `do_fetch_receipts`, from one peer or from any.
pub mod Rotation
pub mod Scan
pub mod Outcome
pub mod RoundRobin
pub mod Safety
pub mod Turns
pub mod Skips
mod Tests
use v3_node.Base.{
  ℕ, zero, suc, ◌+◌, ◌%◌, Bool, true, false, List, [], ◌∷◌, ◌++◌, Option, none, some, length,
  get_elem?, Result, ok, err, Run, panic, done, ◌>>=◌, ◌==◌, if◌then◌else◌,
}
use v3_node.Base.HashMap.{HashMap, Hasher, get, keys}
use v3_node.Peer.{PeerId, BlockHash, PeerError, disconnected, Net, Peer, Receipts, fetch_receipts}
use v3_node.Manager.State.{PeerManager}
use v3_node.Manager.Registry.{evict}

-- What the loop over the peers comes to: receipts from the peer at an index, or the last error; and
-- the peers to evict.
pub data Attempt (net : Net) : Type 0 where
  found : Receipts net → ℕ → List PeerId → Attempt net
  exhausted : PeerError → List PeerId → Attempt net

-- `matches!(e, PeerError::Disconnected(_))`
unfoldable pub is_disconnected : PeerError → Bool
is_disconnected (disconnected id) = true
is_disconnected _ = false

module _ (net : Net) where
  -- One round: the peer at the index, if it is still there, is asked for the receipts.
  unfoldable pub ask :
      HashMap (Peer net)
      → PeerId
      → List BlockHash
      → net.World
      → Option (Result (Receipts net) PeerError) × net.World
  ask peers id hashes w = elim (get id peers) [
    | none ↦ (none, w)
    | some peer ↦ let (r, w') = fetch_receipts net peer hashes w in (some r, w')
  ]

  module _ (peers : HashMap (Peer net)) (peer_ids : List PeerId) (hashes : List BlockHash) where
    -- `for attempt in 0..total`, with the rounds that are left; `rr_index` is already reduced.
    -- An index out of range would panic.
    unfoldable pub attempts :
        ℕ → ℕ → ℕ → PeerError → List PeerId → net.World → Run (Attempt net × net.World)
    attempts zero attempt rr_index last_err to_evict w = done (exhausted last_err to_evict, w)
    attempts (suc left) attempt rr_index last_err to_evict w =
        let idx = (rr_index + attempt) % length peer_ids in
        elim (get_elem? peer_ids idx) [
          | none ↦ panic
          | some id ↦
              let (asked, w') = ask peers id hashes w in
              elim asked [
                | none ↦ attempts left (attempt + 1) rr_index last_err to_evict w'
                | some reply ↦ elim reply [
                  | ok receipts ↦ done (found receipts idx to_evict, w')
                  | err e ↦
                      attempts left (attempt + 1) rr_index e
                        (if is_disconnected e then to_evict ++ id ∷ [] else to_evict) w'
                ]
              ]
        ]

  unfoldable pub settle :
      ℕ
      → PeerManager net
      → Attempt net × net.World
      → Run (Result (Receipts net) PeerError × PeerManager net × net.World)
  settle total m (found receipts idx to_evict, w) = do
    m' ← evict net to_evict (record m { rr_index = (idx + 1) % total })
    done (ok receipts, m', w)
  settle total m (exhausted last_err to_evict, w) = do
    m' ← evict net to_evict m
    done (err last_err, m', w)

  -- The branch with no target. A remainder by 0 would panic.
  unfoldable pub fetch_from_any :
      Hasher
      → List BlockHash
      → PeerManager net
      → net.World
      → Run (Result (Receipts net) PeerError × PeerManager net × net.World)
  fetch_from_any hasher hashes m w =
      let peer_ids = keys hasher m.peers in
      let total = length peer_ids in
      let m' = record m { rr_index = m.rr_index % total } in
      if total == 0 then panic else do
        outcome ←
            attempts m.peers peer_ids hashes total 0 (m.rr_index % total) (disconnected 0) [] w
        settle total m' outcome

  -- `match target`
  unfoldable pub fetch_from :
      Hasher
      → Option PeerId
      → List BlockHash
      → PeerManager net
      → net.World
      → Run (Result (Receipts net) PeerError × PeerManager net × net.World)
  fetch_from hasher none hashes m w = fetch_from_any hasher hashes m w
  fetch_from hasher (some id) hashes m w = elim (get id m.peers) [
    | none ↦ done (err (disconnected id), m, w)
    | some peer ↦ let (r, w') = fetch_receipts net peer hashes w in done (r, m, w')
  ]

  unfoldable pub do_fetch_receipts :
      Hasher
      → Option PeerId
      → List BlockHash
      → PeerManager net
      → net.World
      → Run (Result (Receipts net) PeerError × PeerManager net × net.World)
  unfolding fetch_from
  do_fetch_receipts hasher target hashes m w =
      if length m.peers == 0
      then done (err (disconnected 0), m, w)
      else fetch_from hasher target hashes m w
