-- ===== src/Node/Overlap/Finish.antt =====
-- src/node/node.rs: how one task ends, by the reply that it gets.
use v3_node.Base.{◌≡◌, refl, Bool, true, false, List, [], none, some, length, ok, err, done, arith}
use v3_node.Peer.{Net, PeerInfo}
use v3_node.Manager.State.{peer_connected, peer_disconnected, new_block}
use v3_node.Manager.Handle.{list_peers, submit, reply}
use v3_node.Node.{Alloy, lagged, closed, report, handle_peer_event}
use v3_node.Node.Watch.{FullIds, short_id_total}
use v3_node.Node.Events.{wanted_lines}
use v3_node.Node.Overlap.{Event, asks, finish}

module _ (net : Net) (alloy : Alloy net) (full : FullIds net alloy) where
  pub finish-some :
      (list : List (PeerInfo net)) (evt : Event net)
      → (finish net alloy true (some list) evt).1 ≡ done (wanted_lines net alloy (length list) evt)
  unfolding handle_peer_event report list_peers submit reply
  finish-some list (ok (peer_connected peer)) = rw (short_id_total net alloy full peer.id) refl
  finish-some list (ok (peer_disconnected peer none)) =
      rw (short_id_total net alloy full peer.id) refl
  finish-some list (ok (peer_disconnected peer (some reason))) =
      rw (short_id_total net alloy full peer.id) refl
  finish-some list (ok (new_block block)) = refl
  finish-some list (err (lagged n)) = refl
  finish-some list (err closed) = refl

  pub finish-asks :
      (taken : Bool) (evt : Event net)
      → asks net evt ≡ true
      → (finish net alloy taken none evt).1 ≡ done []
  unfolding handle_peer_event report list_peers submit reply
  finish-asks true (ok (peer_connected peer)) h = refl
  finish-asks false (ok (peer_connected peer)) h = refl
  finish-asks true (ok (peer_disconnected peer reason)) h = refl
  finish-asks false (ok (peer_disconnected peer reason)) h = refl
  finish-asks taken (ok (new_block block)) h = ground arith
  finish-asks taken (err e) h = ground arith

  pub finish-quiet :
      (evt : Event net)
      → asks net evt ≡ false
      → (finish net alloy true none evt).1 ≡ done (wanted_lines net alloy 0 evt)
  unfolding handle_peer_event
  finish-quiet (ok (peer_connected peer)) h = ground arith
  finish-quiet (ok (peer_disconnected peer reason)) h = ground arith
  finish-quiet (ok (new_block block)) h = refl
  finish-quiet (err (lagged n)) h = refl
  finish-quiet (err closed) h = refl
