-- ===== src/Manager/Registry/View.antt =====
-- What a subscriber of the manager's events (src/network/manager.rs) knows of the live peers.
use v3_node.Base.{◌==◌, ◌≡◌, refl, List, [], ◌∷◌, ◌++◌, Option, none, some, if◌then◌else◌}
use v3_node.Peer.{PeerId, Net, PeerInfo}
use v3_node.Manager.State.{ManagerEvent, peer_connected, peer_disconnected, new_block}

abbrev pub View : Net → Type 0
View net = PeerId → Option (PeerInfo net)

module _ {net : Net} where
  abbrev pub unseen : View net
  unseen k = none

  -- One event.
  abbrev pub see : View net → ManagerEvent net → View net
  see v (peer_connected info) k = if info.id == k then some info else v k
  see v (peer_disconnected info reason) k = if info.id == k then none else v k
  see v (new_block b) k = v k

  -- All events, oldest first.
  unfoldable pub watch : View net → List (ManagerEvent net) → View net
  watch v [] = v
  watch v (e ∷ es) = watch (see v e) es

  pub watch-append :
      (v : View net) (es : List (ManagerEvent net)) (e : ManagerEvent net) (k : PeerId)
      → watch v (es ++ e ∷ []) k ≡ see (watch v es) e k
  unfolding watch
  watch-append v [] e k = refl
  watch-append v (x ∷ es) e k = watch-append (see v x) es e k
