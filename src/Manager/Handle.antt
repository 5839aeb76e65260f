-- ===== src/Manager/Handle.antt =====
-- src/network/manager.rs: the handle by which other tasks talk to the manager.
pub mod Live
pub mod Gone
use v3_node.Base.{
  ℕ, ◌≡◌, String, Bool, true, false, List, Option, none, some, length, Result, ok, err,
  if◌then◌else◌,
}
use v3_node.Base.Action.{Action, pure, lift, ◌>>=◌}
use v3_node.AppError.{AppError, network}
use v3_node.Peer.{
  PeerId, BlockHash, PeerError, disconnected, response_channel_closed, Net, PeerInfo, Receipts,
}
use v3_node.Manager.State.{Command, fetch_receipts_from, connected_peers}

-- The command channel and the reply channels, seen by a caller: `send` fails if the manager is gone,
-- and a reply is missing if it dropped the channel.
pub record Mailbox (net : Net) : Type 1 where
  pub State : Type 0
  pub Io : Type 0
  pub error_text : PeerError → String
  pub oneshot : State → ℕ × State
  pub send : Command → State → Bool × State
  pub await_receipts : ℕ → State → Option (Result (Receipts net) PeerError) × State
  pub await_peers : ℕ → State → Option (List (PeerInfo net)) × State

module _ (net : Net) (mailbox : Mailbox net) where
  open mailbox use {State}

  -- `.send(command).await.map_err(…)?`
  unfoldable pub submit : {E : Type 0} → Command → E → Action State (Unit {0}) E
  submit c error s = let (sent, s') = mailbox.send c s in (if sent then ok tt else err error, s')

  -- `rx.await.map_err(…)?`
  unfoldable pub reply : {A E : Type 0} → Option A × State → E → Result A E × State
  reply (none, s) error = (err error, s)
  reply (some a, s) error = (ok a, s)

  -- The method `fetch_receipts_from`.
  unfoldable pub request_from : PeerId → List BlockHash → Action State (Receipts net) PeerError
  request_from id hashes = do
    channel ← lift mailbox.oneshot
    sent ← submit (fetch_receipts_from (some id) hashes channel) (disconnected id)
    result ← (λ s. reply (mailbox.await_receipts channel s) (response_channel_closed id))
    (λ s. (result, s))

  -- `.map_err(|e| AppError::Network(e.to_string()))`
  unfoldable pub as_app_error :
      Result (Receipts net) PeerError → Result (Receipts net) (AppError mailbox.Io)
  as_app_error (ok receipts) = ok receipts
  as_app_error (err e) = err (network (mailbox.error_text e))

  -- The method `fetch_receipts`.
  unfoldable pub request_any : List BlockHash → Action State (Receipts net) (AppError mailbox.Io)
  request_any hashes = do
    channel ← lift mailbox.oneshot
    sent ← submit (fetch_receipts_from none hashes channel) (network "manager task is gone")
    result ←
        (λ s. reply (mailbox.await_receipts channel s) (network "receipt reply channel dropped"))
    (λ s. (as_app_error result, s))

  -- The method `connected_peers`.
  unfoldable pub list_peers : Action State (List (PeerInfo net)) (AppError mailbox.Io)
  list_peers = do
    channel ← lift mailbox.oneshot
    sent ← submit (connected_peers channel) (network "manager task is gone")
    (λ s. reply (mailbox.await_peers channel s) (network "peer list reply channel dropped"))

  unfoldable pub peer_count : Action State ℕ (AppError mailbox.Io)
  peer_count = do peers ← list_peers; pure (length peers)
