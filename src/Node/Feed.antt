-- ===== src/Node/Feed.antt =====
-- src/node/node.rs behind src/network/manager.rs: what the node prints of the events that the manager
-- sent on the broadcast channel.
use v3_node.Base.{
  ℕ, suc, ◌+◌, ◌≤◌, List, [], ◌∷◌, ◌++◌, none, some, length, length-append, Result, ok, err, Run,
  panic, done, arith,
}
use v3_node.Peer.{Net}
use v3_node.Manager.State.{ManagerEvent, peer_connected, peer_disconnected, new_block}
use v3_node.Manager.Registry.Balance.{opened, closed, opened-append, closed-append}
use v3_node.Node.{Alloy, RecvError, lagged, Output, connected, disconnected, skipped}
use v3_node.Node.Events.{wanted_lines}

-- What a receiver of a broadcast channel gets of the values sent: each in order, but in place of some
-- that it was too slow for their number.
pub data Delivery (net : Net)
    : List (ManagerEvent net) → List (Result (ManagerEvent net) RecvError) → Type 0 where
  drained : Delivery net [] []
  received :
      (e : ManagerEvent net) (es : List (ManagerEvent net))
      (rs : List (Result (ManagerEvent net) RecvError))
      → Delivery net es rs
      → Delivery net (e ∷ es) (ok e ∷ rs)
  overrun :
      (lost es : List (ManagerEvent net)) (rs : List (Result (ManagerEvent net) RecvError))
      → Delivery net es rs
      → Delivery net (lost ++ es) (err (lagged (length lost)) ∷ rs)

module _ {net : Net} {alloy : Alloy net} where
  -- The lines of each kind, and the number of events that were skipped.
  abbrev pub connections : List (Output net alloy) → ℕ
  connections [] = 0
  connections (connected name version client n ∷ lines) = suc (connections lines)
  connections (line ∷ lines) = connections lines

  abbrev pub disconnections : List (Output net alloy) → ℕ
  disconnections [] = 0
  disconnections (disconnected name version client n reason ∷ lines) = suc (disconnections lines)
  disconnections (line ∷ lines) = disconnections lines

  abbrev pub misses : List (Output net alloy) → ℕ
  misses [] = 0
  misses (skipped n ∷ lines) = n + misses lines
  misses (line ∷ lines) = misses lines

  -- The lines of several tasks. A task that panicked printed none that is counted here.
  abbrev pub printed : List (Run (List (Output net alloy))) → List (Output net alloy)
  printed [] = []
  printed (panic ∷ outcomes) = printed outcomes
  printed (done lines ∷ outcomes) = lines ++ printed outcomes

module _ (net : Net) (alloy : Alloy net) where
  abbrev pub feed : ℕ → List (Result (ManagerEvent net) RecvError) → List (Output net alloy)
  feed n [] = []
  feed n (r ∷ rs) = wanted_lines net alloy n r ++ feed n rs

  pub length-sessions : (es : List (ManagerEvent net)) → opened es + closed es ≤ length es
  length-sessions [] = omega arith
  length-sessions (peer_connected info ∷ es) = omega (arith, length-sessions es)
  length-sessions (peer_disconnected info reason ∷ es) = omega (arith, length-sessions es)
  length-sessions (new_block block ∷ es) = omega (arith, length-sessions es)

  -- The lines count every session that was announced, or that it was missed.
  pub record Accounts (lines : List (Output net alloy)) (es : List (ManagerEvent net))
      : Type 0 where
    pub opens : opened es ≤ connections lines + misses lines
    pub closes : disconnections lines ≤ closed es
    pub least : opened es + closed es ≤ connections lines + disconnections lines + misses lines
    pub most : connections lines + disconnections lines + misses lines ≤ length es

  pub Delivery-Accounts :
      (n : ℕ) (es : List (ManagerEvent net)) (rs : List (Result (ManagerEvent net) RecvError))
      → Delivery net es rs
      → Accounts (feed n rs) es
  Delivery-Accounts n es rs drained = record {
    opens = omega arith;
    closes = omega arith;
    least = omega arith;
    most = omega arith;
  }
  Delivery-Accounts n es rs (received (peer_connected info) es' rs' d) =
      let a = Delivery-Accounts n es' rs' d in
      record {
        opens = omega (arith, a.opens);
        closes = a.closes;
        least = omega (arith, a.least);
        most = omega (arith, a.most);
      }
  Delivery-Accounts n es rs (received (peer_disconnected info none) es' rs' d) =
      let a = Delivery-Accounts n es' rs' d in
      record {
        opens = a.opens;
        closes = omega (arith, a.closes);
        least = omega (arith, a.least);
        most = omega (arith, a.most);
      }
  Delivery-Accounts n es rs (received (peer_disconnected info (some reason)) es' rs' d) =
      let a = Delivery-Accounts n es' rs' d in
      record {
        opens = a.opens;
        closes = omega (arith, a.closes);
        least = omega (arith, a.least);
        most = omega (arith, a.most);
      }
  Delivery-Accounts n es rs (received (new_block block) es' rs' d) =
      let a = Delivery-Accounts n es' rs' d in
      record { opens = a.opens; closes = a.closes; least = a.least; most = omega (arith, a.most) }
  Delivery-Accounts n es rs (overrun lost es' rs' d) =
      let a = Delivery-Accounts n es' rs' d in
      record {
        opens = omega (arith, a.opens, opened-append lost es', length-sessions lost);
        closes = omega (arith, a.closes, closed-append lost es');
        least =
            omega (
              arith,
              a.least,
              opened-append lost es',
              closed-append lost es',
              length-sessions lost,
            );
        most = omega (arith, a.most, length-append lost es');
      }
