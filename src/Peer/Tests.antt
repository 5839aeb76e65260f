-- ===== src/Peer/Tests.antt =====
-- src/network/peer.rs at concrete inputs.
use v3_node.Base.{◌≡◌, ◌↔◌, refl, false, [], ◌∷◌, ok, err}
use v3_node.Peer.{
  disconnected, request_failed, fetch_receipts, fetch70, fetch69, fetch_legacy, send, receive,
  response, strip_blooms,
}
use v3_node.Peer.Fetch.{Fetched, accepted, peer_of, fetch_receipts-Fetched, fetch_receipts-err}
use v3_node.Samples.{network, peer}

fetch70_run : fetch_receipts network (peer 5 70 9) (1 ∷ []) (0, 0) ≡ (ok ((9 ∷ []) ∷ []), (9, 1))
unfolding fetch_receipts fetch70 send receive response strip_blooms
fetch70_run = refl

fetch_fails :
    fetch_receipts network (peer 5 66 2) (1 ∷ []) (0, 0)
    ≡ (err (request_failed 5 "timeout"), (2, 1))
unfolding fetch_receipts fetch_legacy send receive response
fetch_fails = refl

fetch_receipts-Fetched_example :
    Fetched network
      (peer 5 70 9)
      (1 ∷ [])
      (0, 0)
      (fetch_receipts network (peer 5 70 9) (1 ∷ []) (0, 0))
fetch_receipts-Fetched_example = fetch_receipts-Fetched network (peer 5 70 9) (1 ∷ []) (0, 0)

refused : (fetch_receipts network (peer 5 69 0) (1 ∷ []) (0, 0)).0 ≡ err (disconnected 5)
unfolding fetch_receipts fetch69 send
refused = refl

fetch_receipts-err_example :
    (peer_of (disconnected 5) ≡ 5)
    × ((disconnected 5 ≡ disconnected 5) ↔ (accepted network (peer 5 69 0) (1 ∷ []) (0, 0) ≡ false))
fetch_receipts-err_example =
    fetch_receipts-err network (peer 5 69 0) (1 ∷ []) (0, 0) (disconnected 5) refused
