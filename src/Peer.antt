-- ===== src/Peer.antt =====
-- src/network/peer.rs: one session with a remote peer, and the request for receipts.
pub mod Fetch
mod Access
mod Tests
use v3_node.Base.{ℕ, ◌==◌, String, Bool, true, false, List, map, Result, ok, err, if◌then◌else◌}
use v3_node.Base.Action.{Action, pure, lift, ◌>>=◌}

-- PeerId is a 512-bit number, B256 a 256-bit one; `PeerId::default()` is 0.
abbrev pub PeerId : Type 0
PeerId = ℕ

abbrev pub BlockHash : Type 0
BlockHash = ℕ

pub data PeerError : Type 0 where
  disconnected : PeerId → PeerError
  request_failed : PeerId → String → PeerError
  response_channel_closed : PeerId → PeerError

-- The requests that are sent. The last argument is the channel on which the response comes back.
pub data PeerRequest : Type 0 where
  get_receipts70 : ℕ → List BlockHash → ℕ → PeerRequest
  get_receipts69 : List BlockHash → ℕ → PeerRequest
  get_receipts : List BlockHash → ℕ → PeerRequest

-- What `rx.await` gives: the sender was dropped, or the session's answer.
pub data Reply {ℓ} (T E : Type ℓ) : Type ℓ where
  dropped : Reply T E
  failed : E → Reply T E
  replied : T → Reply T E

-- What the program takes from the network stack, the async runtime and the clock.
pub record Net : Type 1 where
  pub Addr : Type 0
  pub Capabilities : Type 0
  pub Instant : Type 0
  pub Reason : Type 0
  pub NewBlock : Type 0
  pub Receipt : Type 0
  pub Bloom : Type 0
  pub Receipts70 : Type 0
  pub RequestError : Type 0
  pub Sender : Type 0
  pub World : Type 0
  -- `Receipts70` into the older response: the receipts of each block, with their blooms
  pub into_receipts : Receipts70 → List (List (Receipt × Bloom))
  pub error_text : RequestError → String
  pub now : World → Instant × World
  pub oneshot : World → ℕ × World
  -- true if the session took the request
  pub try_send : Sender → PeerRequest → World → Bool × World
  pub await70 : ℕ → World → Reply Receipts70 RequestError × World
  pub await69 : ℕ → World → Reply (List (List Receipt)) RequestError × World
  pub await_legacy : ℕ → World → Reply (List (List (Receipt × Bloom))) RequestError × World

pub record SessionInfo (net : Net) : Type 0 where
  pub peer_id : PeerId
  pub remote_addr : net.Addr
  pub version : ℕ
  pub client_version : String
  pub capabilities : net.Capabilities

pub record PeerInfo (net : Net) : Type 0 where
  pub id : PeerId
  pub remote_addr : net.Addr
  -- the number of the protocol's version, 66 to 70
  pub eth_version : ℕ
  pub client_version : String
  pub capabilities : net.Capabilities
  pub connected_at : net.Instant

pub record Peer (net : Net) : Type 0 where
  pub info : PeerInfo net
  pub sender : net.Sender

abbrev pub Receipts : Net → Type 0
Receipts net = List (List net.Receipt)

-- `.map_err(|_| …)?.map_err(|e| …)?` on an awaited response
unfoldable pub response : {T E : Type 0} → PeerId → (E → String) → Reply T E → Result T PeerError
response id text dropped = err (response_channel_closed id)
response id text (failed e) = err (request_failed id (text e))
response id text (replied t) = ok t

module _ (net : Net) where
  unfoldable pub from_session : SessionInfo net → net.Sender → net.World → Peer net × net.World
  from_session info sender w =
      let (connected_at, w') = net.now w in
      (
        record {
          info = record {
            id = info.peer_id;
            remote_addr = info.remote_addr;
            eth_version = info.version;
            client_version = info.client_version;
            capabilities = info.capabilities;
            connected_at = connected_at;
          };
          sender = sender;
        },
        w',
      )

  -- `sender.try_send(…).map_err(|_| PeerError::Disconnected(peer_id))?`
  unfoldable pub send : Peer net → PeerRequest → Action net.World (Unit {0}) PeerError
  send peer request w =
      let (sent, w') = net.try_send peer.sender request w in
      (if sent then ok tt else err (disconnected peer.info.id), w')

  -- `rx.await`, with the errors of the two layers.
  unfoldable pub receive :
      {T : Type 0}
      → Peer net
      → (ℕ → net.World → Reply T net.RequestError × net.World)
      → ℕ
      → Action net.World T PeerError
  receive peer await channel w =
      let (reply, w') = await channel w in (response peer.info.id net.error_text reply, w')

  -- `block.into_iter().map(|rwb| rwb.receipt)` for every block
  unfoldable pub strip_blooms : List (List (net.Receipt × net.Bloom)) → Receipts net
  strip_blooms = map (map (λ r. r.0))

  unfoldable pub fetch70 : Peer net → List BlockHash → Action net.World (Receipts net) PeerError
  fetch70 peer block_hashes = do
    channel ← lift net.oneshot
    sent ← send peer (get_receipts70 0 block_hashes channel)
    receipts70 ← receive peer net.await70 channel
    pure (strip_blooms (net.into_receipts receipts70))

  unfoldable pub fetch69 : Peer net → List BlockHash → Action net.World (Receipts net) PeerError
  fetch69 peer block_hashes = do
    channel ← lift net.oneshot
    sent ← send peer (get_receipts69 block_hashes channel)
    receive peer net.await69 channel

  unfoldable pub fetch_legacy :
      Peer net → List BlockHash → Action net.World (Receipts net) PeerError
  fetch_legacy peer block_hashes = do
    channel ← lift net.oneshot
    sent ← send peer (get_receipts block_hashes channel)
    receipts ← receive peer net.await_legacy channel
    pure (strip_blooms receipts)

  unfoldable pub fetch_receipts :
      Peer net → List BlockHash → Action net.World (Receipts net) PeerError
  fetch_receipts peer block_hashes =
      if peer.info.eth_version == 70
      then fetch70 peer block_hashes
      else if peer.info.eth_version == 69
      then fetch69 peer block_hashes
      else fetch_legacy peer block_hashes
