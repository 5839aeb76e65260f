-- ===== src/Manager/Handle/Gone.antt =====
-- src/network/manager.rs: the handle when the manager's task is gone, or drops a reply.
use v3_node.Base.{ℕ, ◌≡◌, true, false, List, none, some, err, arith}
use v3_node.AppError.{AppError, network}
use v3_node.Peer.{PeerId, BlockHash, PeerError, disconnected, response_channel_closed, Net}
use v3_node.Manager.State.{Command, fetch_receipts_from, connected_peers}
use v3_node.Manager.Handle.{
  Mailbox, submit, reply, request_from, request_any, list_peers, peer_count,
}

module _ (net : Net) (mailbox : Mailbox net) (s : mailbox.State) where
  -- Why no call comes back with a result: the command channel is closed, or it takes the command but
  -- the reply's sender is dropped.
  abbrev pub Refuses : Type 0
  Refuses = (c : Command) (t : mailbox.State) → (mailbox.send c t).0 ≡ false

  abbrev pub Drops : Type 0
  Drops =
      ((c : Command) (t : mailbox.State) → (mailbox.send c t).0 ≡ true)
      × ((channel : ℕ) (t : mailbox.State) → (mailbox.await_receipts channel t).0 ≡ none)
      × ((channel : ℕ) (t : mailbox.State) → (mailbox.await_peers channel t).0 ≡ none)

  -- The errors of the three kinds of calls.
  abbrev pub Fails :
      PeerError → AppError mailbox.Io → AppError mailbox.Io → PeerId → List BlockHash → Type 0
  Fails one any listing id hashes =
      ((request_from net mailbox id hashes s).0 ≡ err one)
      × ((request_any net mailbox hashes s).0 ≡ err any)
      × ((list_peers net mailbox s).0 ≡ err listing)
      × ((peer_count net mailbox s).0 ≡ err listing)

  listing_fails :
      (e : AppError mailbox.Io)
      → (list_peers net mailbox s).0 ≡ err e
      → (peer_count net mailbox s).0 ≡ err e
  unfolding peer_count
  listing_fails e h = ground (arith, h)

  -- If the manager is gone, every call fails: a request to one peer says that the peer is disconnected,
  -- and the others say that the manager is gone.
  pub calls-gone :
      (id : PeerId) (hashes : List BlockHash)
      → Refuses
      → Fails
          (disconnected id)
          (network "manager task is gone")
          (network "manager task is gone")
          id
          hashes
  unfolding request_from request_any list_peers submit
  calls-gone id hashes h =
      let (channel, t) = mailbox.oneshot s in
      let listing : (list_peers net mailbox s).0 ≡ err (network "manager task is gone") =
        ground (arith, h (connected_peers channel) t) in
      (
        ground (arith, h (fetch_receipts_from (some id) hashes channel) t),
        ground (arith, h (fetch_receipts_from none hashes channel) t),
        listing,
        listing_fails (network "manager task is gone") listing,
      )

  -- If the manager takes the commands but drops the replies, every call fails: a request to one peer
  -- says that the response channel was closed, and the others say which reply was dropped.
  pub calls-dropped :
      (id : PeerId) (hashes : List BlockHash)
      → Drops
      → Fails
          (response_channel_closed id)
          (network "receipt reply channel dropped")
          (network "peer list reply channel dropped")
          id
          hashes
  unfolding request_from request_any list_peers submit reply
  calls-dropped id hashes (takes, no_receipts, no_peers) =
      let (channel, t) = mailbox.oneshot s in
      let one = fetch_receipts_from (some id) hashes channel in
      let any = fetch_receipts_from none hashes channel in
      let all = connected_peers channel in
      let listing : (list_peers net mailbox s).0 ≡ err (network "peer list reply channel dropped") =
        ground (arith, takes all t, no_peers channel (mailbox.send all t).1) in
      (
        ground (arith, takes one t, no_receipts channel (mailbox.send one t).1),
        ground (arith, takes any t, no_receipts channel (mailbox.send any t).1),
        listing,
        listing_fails (network "peer list reply channel dropped") listing,
      )
