-- ===== src/Manager/Dispatch/Tests.antt =====
-- src/network/manager.rs, the dispatch of several requests, at concrete inputs.
use v3_node.Base.{
  ℕ, some, ok, done, ◌==◌, ◌≡◌, ◌⊎◌, inl, inr, Bool-cases, refl, List, [], ◌∷◌, arith,
}
use v3_node.Base.HashMap.{get, insert, remove, keys, stored_keys}
use v3_node.Peer.{
  Peer, Receipts, disconnected, from_session, fetch_receipts, fetch70, fetch69, send, receive,
  response, strip_blooms,
}
use v3_node.Manager.State.{PeerManager, new}
use v3_node.Manager.Dispatch.Turns.{AllAnswer, InTurn, requests-turns}
use v3_node.Manager.Registry.{on_peer_connected}
use v3_node.Manager.Registry.Invariant.{IsRegistry, new-IsRegistry, on_peer_connected-IsRegistry}
use v3_node.Manager.Dispatch.{ask, fetch_from_any, is_disconnected}
use v3_node.Manager.Dispatch.Skips.{fetch_from_any-skip}
use v3_node.Samples.{network, table, in_order, peer, session}

-- A manager whose peers, 5 and 6, both answer, and whose index is at the second of the order.
abbrev ready : PeerManager network
ready = record { peers = (6, peer 6 69 8) ∷ (5, peer 5 70 9) ∷ []; rr_index = 1; event_tx = [] }

in_ready :
    (id : ℕ) (p : Peer network)
    → get id ready.peers ≡ some p
    → (p ≡ peer 6 69 8) ⊎ (p ≡ peer 5 70 9)
unfolding get
in_ready id p h = elim (Bool-cases (6 == id)) [
  | inl six ↦ inl (ground (arith, six))
  | inr other ↦ elim (Bool-cases (5 == id)) [
    | inl five ↦ inr (ground (arith, other, five))
    | inr none_ ↦ absurd (ground (arith, other, none_))
  ]
]

ready-AllAnswer : AllAnswer network table (77 ∷ []) ready.peers
unfolding fetch_receipts fetch70 fetch69 send receive response strip_blooms
ready-AllAnswer id p w h = elim (in_ready id p h) [
  | inl e ↦ ((8 ∷ []) ∷ [], rw e refl)
  | inr e ↦ ((9 ∷ []) ∷ [], rw e refl)
]

requests-turns_example :
    (rs : List (Receipts network)) × (m' : PeerManager network) × (w' : ℕ × ℕ) × InTurn network
      table
      (77 ∷ [])
      3
      1
      ready
      (0, 0)
      rs
      m'
      w'
requests-turns_example =
    requests-turns network table (77 ∷ []) 3 ready (0, 0) ready-AllAnswer (omega arith)

-- A manager with peers 5 and 7, which answer, behind peer 6, whose session refuses requests.
abbrev behind_lost : PeerManager network
behind_lost =
    let one = (on_peer_connected network (session 7 70) 8 (new network) (0, 0)).0 in
    let two = (on_peer_connected network (session 5 70) 9 one (0, 0)).0 in
    (on_peer_connected network (session 6 70) 0 two (0, 0)).0

behind_lost-IsRegistry : IsRegistry network behind_lost
behind_lost-IsRegistry =
    let one =
      on_peer_connected-IsRegistry network (session 7 70) 8 (new network) (0, 0)
        (new-IsRegistry network) in
    let two = on_peer_connected-IsRegistry network (session 5 70) 9 _ (0, 0) one in
    on_peer_connected-IsRegistry network (session 6 70) 0 _ (0, 0) two

fetch_from_any-skip_example :
    (m' : PeerManager network) × (w' : ℕ × ℕ) × (fetch_from_any network in_order
        (77 ∷ [])
        behind_lost
        (0, 0)
      ≡ done (ok ((9 ∷ []) ∷ []), m', w'))
    × (keys in_order m'.peers ≡ 5 ∷ 7 ∷ [])
    × (m'.rr_index ≡ 2)
unfolding on_peer_connected insert remove from_session keys stored_keys ask get fetch_receipts
    fetch70 send receive response strip_blooms is_disconnected
fetch_from_any-skip_example =
    fetch_from_any-skip network in_order (77 ∷ []) behind_lost (6 ∷ []) (7 ∷ [])
      (disconnected 6 ∷ []) 5 (0, 0) ((9 ∷ []) ∷ []) behind_lost-IsRegistry (λ k ks. refl) refl refl
      (refl, tt) refl refl
