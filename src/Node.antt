-- ===== src/Node.antt =====
-- src/node/node.rs: what the node does with transactions and with the manager's events.
pub mod Watch
pub mod Checksum
pub mod Events
pub mod Schedule
pub mod Feed
pub mod Overlap
mod Tests
use v3_node.Base.{
  ℕ, ◌-◌, String, List, [], ◌∷◌, ◌++◌, Option, none, some, length, ltb, Result, ok, err, Run, panic,
  done, ◌>>=◌, if◌then◌else◌,
}
use v3_node.AppError.{AppError}
use v3_node.Peer.{PeerId, Net, PeerInfo}
use v3_node.Pool.{PoolCall, slice, decode_pool_calldata}
use v3_node.Manager.State.{ManagerEvent, peer_connected, peer_disconnected, new_block}
use v3_node.Manager.Handle.{Mailbox, list_peers}
use v3_node.Config.{PoolConfig}
use v3_node.Db.Models.{text_eq}
use v3_node.Db.Text.{Text}

-- What the node takes from alloy and reth. `to` is none for a transaction that creates a contract;
-- `address_to_string` is the text of an address, `id_lower_hex` the one of a PeerId.
pub record Alloy (net : Net) : Type 1 where
  pub Tx : Type 0
  pub Signer : Type 0
  pub to : Tx → Option ℕ
  pub hash : Tx → ℕ
  pub recover_signer : Tx → Signer
  pub input : Tx → List ℕ
  pub address_to_string : ℕ → Text
  pub id_lower_hex : PeerId → Text
  pub default_reason : net.Reason

pub data RecvError : Type 0 where
  lagged : ℕ → RecvError
  closed : RecvError

-- `.iter().find(|p| p.address == to.to_string())`
unfoldable pub find_pool : Text → List PoolConfig → Option PoolConfig
find_pool address [] = none
find_pool address (p ∷ pools) =
    let rest = find_pool address pools in if text_eq p.address address then some p else rest

module _ (net : Net) (alloy : Alloy net) where
  open alloy use {Tx, Signer}

  -- The announced hashes count only by their number; the last argument of a request is the channel
  -- on which the response is awaited.
  pub data TransactionEvent : Type 0 where
    incoming_transactions : PeerId → List Tx → TransactionEvent
    incoming_hashes : PeerId → List ℕ → TransactionEvent
    get_pooled_transactions : PeerId → List ℕ → ℕ → TransactionEvent
    get_transactions_handle : TransactionEvent

  -- A printed line, by its parts, or a response.
  pub data Output : Type 0 where
    interaction : Text → ℕ → Signer → Output
    decoded_call : PoolCall → Output
    announced : ℕ → Text → Output
    connected : Text → ℕ → String → ℕ → Output
    disconnected : Text → ℕ → String → ℕ → net.Reason → Output
    skipped : ℕ → Output
    stopped : Output
    responded : ℕ → List Tx → Output

  -- `format!("{}…{}", &s[..8], &s[s.len() - 8..])`; a text of hex digits has one byte to a digit.
  unfoldable pub short_id : PeerId → Run Text
  short_id id =
      let s = alloy.id_lower_hex id in
      if ltb (length s) 8 then panic else do
        front ← slice s 0 8
        back ← slice s (length s - 8) (length s)
        done (front ++ 0x2026 ∷ back)

  module _ (pool_config : List PoolConfig) where
    abbrev pub call_line : Option PoolCall → List Output
    call_line none = []
    call_line (some call) = decoded_call call ∷ []

    -- The body of the loop over transactions.
    unfoldable pub scan_tx : Tx → Run (List Output)
    scan_tx tx = elim (alloy.to tx) [
      | none ↦ done []
      | some to ↦ elim (find_pool (alloy.address_to_string to) pool_config) [
        | none ↦ done []
        | some pool ↦ do
          call ← decode_pool_calldata (alloy.input tx)
          done (interaction pool.address (alloy.hash tx) (alloy.recover_signer tx) ∷ call_line call)
      ]
    ]

    unfoldable pub scan_txs : List Tx → Run (List Output)
    scan_txs [] = done []
    scan_txs (tx ∷ txs) = do lines ← scan_tx tx; more ← scan_txs txs; done (lines ++ more)

    unfoldable pub handle_tx_event : TransactionEvent → Run (List Output)
    handle_tx_event (incoming_transactions id txs) = scan_txs txs
    handle_tx_event (incoming_hashes id hashes) = do
      name ← short_id id
      done (announced (length hashes) name ∷ [])
    handle_tx_event (get_pooled_transactions id request response) =
        done (responded response [] ∷ [])
    handle_tx_event get_transactions_handle = done []

  module _ (mailbox : Mailbox net) where
    abbrev unwrap_or_default : Option net.Reason → net.Reason
    unwrap_or_default none = alloy.default_reason
    unwrap_or_default (some reason) = reason

    -- `Ok(peers) => peers.len(), Err(_) => return`, and the line that is printed then
    unfoldable pub report :
        PeerId
        → (Text → ℕ → Output)
        → Result (List (PeerInfo net)) (AppError mailbox.Io) × mailbox.State
        → Run (List Output) × mailbox.State
    report id line (err e, s) = (done [], s)
    report id line (ok peers, s) =
        ((do name ← short_id id; done (line name (length peers) ∷ [])), s)

    unfoldable pub handle_peer_event :
        Result (ManagerEvent net) RecvError → mailbox.State → Run (List Output) × mailbox.State
    handle_peer_event (ok (peer_connected peer)) s =
        report peer.id (λ name n. connected name peer.eth_version peer.client_version n)
          (list_peers net mailbox s)
    handle_peer_event (ok (peer_disconnected peer reason)) s =
        report peer.id
          (λ name n.
            disconnected name peer.eth_version peer.client_version n (unwrap_or_default reason))
          (list_peers net mailbox s)
    handle_peer_event (ok (new_block block)) s = (done [], s)
    handle_peer_event (err (lagged n)) s = (done (skipped n ∷ []), s)
    handle_peer_event (err closed) s = (done (stopped ∷ []), s)

  -- What one round of `select!` takes from the two channels, and the tasks that are spawned.
  pub data Round : Type 0 where
    peer_evt : Result (ManagerEvent net) RecvError → Round
    tx_evt : Option TransactionEvent → Round

  pub data Spawned : Type 0 where
    peer_task : Result (ManagerEvent net) RecvError → Spawned
    tx_task : TransactionEvent → Spawned

  unfoldable pub spawn : Round → List Spawned
  spawn (peer_evt evt) = peer_task evt ∷ []
  spawn (tx_evt none) = []
  spawn (tx_evt (some evt)) = tx_task evt ∷ []

  -- The loop has no break: it goes on for as many rounds as there are.
  unfoldable pub start : List Round → List Spawned
  start [] = []
  start (round ∷ rounds) = spawn round ++ start rounds

  module _ (pool_config : List PoolConfig) (mailbox : Mailbox net) where
    unfoldable pub run_task : Spawned → mailbox.State → Run (List Output) × mailbox.State
    run_task (peer_task evt) s = handle_peer_event mailbox evt s
    run_task (tx_task evt) s = (handle_tx_event pool_config evt, s)

    -- The spawned tasks one after the other. A panic ends only the task that panics.
    unfoldable pub run_tasks :
        List Spawned → mailbox.State → List (Run (List Output)) × mailbox.State
    run_tasks [] s = ([], s)
    run_tasks (task ∷ tasks) s =
        let (outcome, s') = run_task task s in
        let (outcomes, s'') = run_tasks tasks s' in (outcome ∷ outcomes, s'')
