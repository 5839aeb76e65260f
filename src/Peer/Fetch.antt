-- ===== src/Peer/Fetch.antt =====
-- src/network/peer.rs: what a receipt request does, whatever the version of the session.
use v3_node.Base.{
  ℕ, ◌==◌, ◌≡◌, ◌≢◌, ◌↔◌, ◌⊎◌, inl, inr, refl, Bool, true, false, Bool-cases, List, [], ◌∷◌, map,
  Result, ok, err, if◌then◌else◌, arith,
}
use v3_node.Base.Action.{Action, lift, ◌>>=◌}
use v3_node.Peer.{
  PeerId, BlockHash, PeerError, disconnected, request_failed, response_channel_closed, PeerRequest,
  get_receipts70, get_receipts69, get_receipts, Reply, dropped, failed, replied, Net, Peer,
  Receipts, response, send, receive, strip_blooms, fetch70, fetch69, fetch_legacy, fetch_receipts,
}

-- The peer that an error is about.
abbrev pub peer_of : PeerError → PeerId
peer_of (disconnected id) = id
peer_of (request_failed id text) = id
peer_of (response_channel_closed id) = id

-- The request for a version: one with the index of the first receipt, one for eth/69, and the old one.
abbrev pub request_for : ℕ → List BlockHash → ℕ → PeerRequest
request_for version hashes channel =
    if version == 70
    then get_receipts70 0 hashes channel
    else if version == 69
    then get_receipts69 hashes channel
    else get_receipts hashes channel

abbrev pub map_reply : {T U E : Type 0} → (T → U) → Reply T E → Reply U E
map_reply f dropped = dropped
map_reply f (failed e) = failed e
map_reply f (replied t) = replied (f t)

module _ (net : Net) where
  -- The response, with the blooms off, whatever its version.
  abbrev await_plain : ℕ → ℕ → net.World → Reply (Receipts net) net.RequestError × net.World
  await_plain version channel w =
      if version == 70
      then (let (r, w') = net.await70 channel w in
          (map_reply (λ t. strip_blooms net (net.into_receipts t)) r, w'))
      else if version == 69
      then net.await69 channel w
      else (let (r, w') = net.await_legacy channel w in (map_reply (strip_blooms net) r, w'))

  -- A request as the protocol sees it: open a channel, hand over the request, wait for the answer.
  abbrev exchange : Peer net → List BlockHash → Action net.World (Receipts net) PeerError
  exchange peer hashes = do
    channel ← lift net.oneshot
    sent ← send net peer (request_for peer.info.eth_version hashes channel)
    receive net peer (await_plain peer.info.eth_version) channel

  fetch_receipts-exchange :
      (peer : Peer net) (hashes : List BlockHash) (w : net.World)
      → fetch_receipts net peer hashes w ≡ exchange peer hashes w
  unfolding fetch_receipts fetch70 fetch69 fetch_legacy send receive response
  fetch_receipts-exchange peer hashes w = ground arith

  -- The receipts of some blocks are those that came with blooms, one for one and in order.
  abbrev pub SameReceipts : List (net.Receipt × net.Bloom) → List net.Receipt → Type 0
  SameReceipts [] [] = Unit {0}
  SameReceipts [] (s ∷ block) = ⊥
  SameReceipts (r ∷ bloomed) [] = ⊥
  SameReceipts (r ∷ bloomed) (s ∷ block) = (s ≡ r.0) × SameReceipts bloomed block

  abbrev pub SameBlocks : List (List (net.Receipt × net.Bloom)) → Receipts net → Type 0
  SameBlocks [] [] = Unit {0}
  SameBlocks [] (b ∷ blocks) = ⊥
  SameBlocks (a ∷ bloomed) [] = ⊥
  SameBlocks (a ∷ bloomed) (b ∷ blocks) = SameReceipts a b × SameBlocks bloomed blocks

  same_block : (a : List (net.Receipt × net.Bloom)) → SameReceipts a (map (λ r. r.0) a)
  same_block [] = tt
  same_block (r ∷ a) = (refl, same_block a)

  strip_blooms-SameBlocks :
      (bs : List (List (net.Receipt × net.Bloom))) → SameBlocks bs (strip_blooms net bs)
  unfolding strip_blooms
  strip_blooms-SameBlocks [] = tt
  strip_blooms-SameBlocks (a ∷ bs) = (same_block a, strip_blooms-SameBlocks bs)

  -- What a caller gets of a reply: an error for a response that was lost or that reports one, else the
  -- receipts that fit the response.
  abbrev pub Tells :
      {T : Type 0}
      → PeerId
      → (T → Receipts net → Type 0)
      → Reply T net.RequestError
      → Result (Receipts net) PeerError
      → Type 0
  Tells id Fits dropped r = r ≡ err (response_channel_closed id)
  Tells id Fits (failed e) r = r ≡ err (request_failed id (net.error_text e))
  Tells id Fits (replied t) r = (receipts : Receipts net) × (r ≡ ok receipts) × Fits t receipts

  -- The wait for the response of a version, from the world in which the request was taken.
  abbrev pub Waited :
      ℕ → PeerId → ℕ → net.World → Result (Receipts net) PeerError × net.World → Type 0
  Waited version id channel w r =
      ((version ≡ 70)
        × Tells id (λ t blocks. SameBlocks (net.into_receipts t) blocks) (net.await70 channel w).0
            r.0
        × (r.1 ≡ (net.await70 channel w).1))
      ⊎ ((version ≡ 69)
          × Tells id (λ t blocks. blocks ≡ t) (net.await69 channel w).0 r.0
          × (r.1 ≡ (net.await69 channel w).1))
      ⊎ ((version ≢ 70)
          × (version ≢ 69)
          × Tells id (λ t blocks. SameBlocks t blocks) (net.await_legacy channel w).0 r.0
          × (r.1 ≡ (net.await_legacy channel w).1))

  -- A fetch, told by what the session and the channels do.
  abbrev pub Fetched :
      Peer net → List BlockHash → net.World → Result (Receipts net) PeerError × net.World → Type 0
  Fetched peer hashes w r =
      let (channel, w₁) = net.oneshot w in
      let (taken, w₂) =
        net.try_send peer.sender (request_for peer.info.eth_version hashes channel) w₁ in
      ((taken ≡ false) × (r ≡ (err (disconnected peer.info.id), w₂)))
      ⊎ ((taken ≡ true) × Waited peer.info.eth_version peer.info.id channel w₂ r)

  response-Tells_bloomed :
      {T : Type 0} (id : PeerId) (f : T → List (List (net.Receipt × net.Bloom)))
      (reply : Reply T net.RequestError)
      → Tells id
          (λ t blocks. SameBlocks (f t) blocks)
          reply
          (response id net.error_text (map_reply (λ t. strip_blooms net (f t)) reply))
  unfolding response
  response-Tells_bloomed id f dropped = refl
  response-Tells_bloomed id f (failed e) = refl
  response-Tells_bloomed id f (replied t) =
      (strip_blooms net (f t), refl, strip_blooms-SameBlocks (f t))

  response-Tells :
      (id : PeerId) (reply : Reply (Receipts net) net.RequestError)
      → Tells id (λ t blocks. blocks ≡ t) reply (response id net.error_text reply)
  unfolding response
  response-Tells id dropped = refl
  response-Tells id (failed e) = refl
  response-Tells id (replied t) = (t, refl, refl)

  receive-Waited :
      (peer : Peer net) (channel : ℕ) (w : net.World)
      → Waited peer.info.eth_version peer.info.id channel w
          (receive net peer (await_plain peer.info.eth_version) channel w)
  unfolding receive
  receive-Waited peer channel w = elim (Bool-cases (peer.info.eth_version == 70)) [
    | inl new ↦ inl (
      ground (arith, new),
      rw new (response-Tells_bloomed peer.info.id net.into_receipts (net.await70 channel w).0),
      rw new refl,
    )
    | inr old ↦ elim (Bool-cases (peer.info.eth_version == 69)) [
      | inl plain ↦ inr (
          inl (
            ground (arith, plain),
            rw (old, plain) (response-Tells peer.info.id (net.await69 channel w).0),
            rw (old, plain) refl,
          ))
      | inr older ↦ inr (
          inr (
            (λ e. ground (arith, e, old)),
            (λ e. ground (arith, e, older)),
            rw (old, older)
                (response-Tells_bloomed peer.info.id (λ t. t) (net.await_legacy channel w).0),
            rw (old, older) refl,
          ))
    ]
  ]

  exchange-Fetched :
      (peer : Peer net) (hashes : List BlockHash) (w : net.World)
      → Fetched peer hashes w (exchange peer hashes w)
  unfolding send
  exchange-Fetched peer hashes w =
      let (channel, w₁) = net.oneshot w in
      let (taken, w₂) =
        net.try_send peer.sender (request_for peer.info.eth_version hashes channel) w₁ in
      elim (Bool-cases taken) [
        | inl takes ↦ inr (takes, rw takes (receive-Waited peer channel w₂))
        | inr refuses ↦ inl (refuses, rw refuses refl)
      ]

  -- A fetch over any version of the protocol opens a channel and hands the version's request to the
  -- session. If that is refused, the peer is reported as disconnected. Else the version's response is
  -- awaited on the channel: one that was lost, or that reports an error, gives the error for it, with
  -- the peer's id; any other gives its receipts, one for one and in order, without the blooms.
  pub fetch_receipts-Fetched :
      (peer : Peer net) (hashes : List BlockHash) (w : net.World)
      → Fetched peer hashes w (fetch_receipts net peer hashes w)
  fetch_receipts-Fetched peer hashes w =
      rw (fetch_receipts-exchange peer hashes w) (exchange-Fetched peer hashes w)

  -- Whether the session takes the request that a fetch sends.
  abbrev pub accepted : Peer net → List BlockHash → net.World → Bool
  accepted peer hashes w =
      let (channel, w') = net.oneshot w in
      (net.try_send peer.sender (request_for peer.info.eth_version hashes channel) w').0

  exchange-err :
      (peer : Peer net) (hashes : List BlockHash) (w : net.World) (e : PeerError)
      → (exchange peer hashes w).0 ≡ err e
      → (peer_of e ≡ peer.info.id)
        × ((e ≡ disconnected peer.info.id) ↔ (accepted peer hashes w ≡ false))
  unfolding send receive response
  exchange-err peer hashes w e h = (ground arith, (λ d. ground arith, λ r. ground arith))

  -- A failed fetch reports the peer that was asked, and says that it is disconnected exactly if the
  -- session refused the request; a lost or failed response never counts as a disconnection.
  pub fetch_receipts-err :
      (peer : Peer net) (hashes : List BlockHash) (w : net.World) (e : PeerError)
      → (fetch_receipts net peer hashes w).0 ≡ err e
      → (peer_of e ≡ peer.info.id)
        × ((e ≡ disconnected peer.info.id) ↔ (accepted peer hashes w ≡ false))
  fetch_receipts-err peer hashes w e h =
      exchange-err peer hashes w e (rw (fetch_receipts-exchange peer hashes w) at h)
