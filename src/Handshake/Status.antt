-- ===== src/Handshake/Status.antt =====
-- src/network/handshake.rs: what a finished handshake says of the status and of the peer.
use v3_node.Base.{
  ℕ, ◌≤◌, ◌<◌, ◌≡◌, ◌↔◌, ◌⊎◌, lt→ltb, inl, inr, refl, List, Option, none, some, Result, ok, err,
  Run, panic, done, ltb, arith, Bool-cases,
}
use v3_node.Upgrade.{UpgradeStatus, Rlp, decode, into_rlpx}
use v3_node.Handshake.{
  DisconnectReason, EthStreamError, Session, hang_up, judge, receive_upgrade, upgrade_msg,
  exchange_upgrade, upgrade_status, negotiate, handshake,
}

module _ (rlp : Rlp) (session : Session) where
  open session use {Status, Error, Stream}

  -- The node's message was sent, and the peer's was received and decoded.
  pub record Exchanged (s s' : Stream) : Type 0 where
    pub sent : Stream
    pub message : List ℕ
    pub decoded : UpgradeStatus × List ℕ
    pub sends : session.start_send (into_rlpx rlp (upgrade_msg rlp session)) s ≡ (ok tt, sent)
    pub receives : session.next sent ≡ (some (ok message), s')
    pub decodes : decode rlp message ≡ done (ok decoded)

  hang_up-ne-ok :
      (reason : DisconnectReason) (error : EthStreamError Error) (r : Status) (s s' : Stream)
      → hang_up rlp session reason error s ≡ done (ok r, s')
      → ⊥
  unfolding hang_up
  hang_up-ne-ok reason error r s s' h = ground arith

  judge-ok :
      (status r : Status) (d : Run (Result (UpgradeStatus × List ℕ) rlp.Error)) (s s' : Stream)
      → judge rlp session status d s ≡ done (ok r, s')
      → (x : UpgradeStatus × List ℕ) × (d ≡ done (ok x)) × (r ≡ status) × (s' ≡ s)
  unfolding judge
  judge-ok status r panic s s' h = ground arith
  judge-ok status r (done (ok x)) s s' h = (x, refl, ground arith, ground arith)
  judge-ok status r (done (err e)) s s' h = absurd (hang_up-ne-ok _ _ r s s' h)

  receive_upgrade-ok :
      (status r : Status) (received : Option (Result (List ℕ) Error)) (s s' : Stream)
      → receive_upgrade rlp session status received s ≡ done (ok r, s')
      → (message : List ℕ) × (x : UpgradeStatus × List ℕ) × (received ≡ some (ok message))
        × (decode rlp message ≡ done (ok x))
        × (r ≡ status)
        × (s' ≡ s)
  unfolding receive_upgrade
  receive_upgrade-ok status r none s s' h = absurd (hang_up-ne-ok _ _ r s s' h)
  receive_upgrade-ok status r (some (err e)) s s' h = ground arith
  receive_upgrade-ok status r (some (ok message)) s s' h =
      let (x, e, same, still) = judge-ok status r (decode rlp message) s s' h in
      (message, x, refl, e, same, still)

  exchange_upgrade-ok :
      (status r : Status) (s s' s₁ s₂ : Stream) (sent : Result (Unit {0}) Error)
      (received : Option (Result (List ℕ) Error))
      → session.start_send (into_rlpx rlp (upgrade_msg rlp session)) s ≡ (sent, s₁)
      → session.next s₁ ≡ (received, s₂)
      → exchange_upgrade rlp session status s ≡ done (ok r, s')
      → (r ≡ status) × Exchanged s s'
  unfolding exchange_upgrade
  exchange_upgrade-ok status r s s' s₁ s₂ (err e) received p q h = ground arith
  exchange_upgrade-ok status r s s' s₁ s₂ (ok u) received p q h =
      let (message, x, e, d, same, still) =
        receive_upgrade-ok status r received s₂ s' (ground arith) in
      (
        same,
        record {
          sent = s₁;
          message = message;
          decoded = x;
          sends = p;
          receives = ground arith;
          decodes = d;
        },
      )

  -- A handshake over the version limit succeeds only with the status that it was given, and only
  -- after both messages; at eth/66 or below it succeeds at once, and touches no stream.
  pub upgrade_status-ok :
      (status r : Status) (s s' : Stream)
      → upgrade_status rlp session status s ≡ done (ok r, s')
      → (r ≡ status)
        × (((session.version status ≤ 66) × (s' ≡ s))
            ⊎ (66 < session.version status) × Exchanged s s')
  unfolding upgrade_status
  upgrade_status-ok status r s s' h = elim (Bool-cases (ltb 66 (session.version status))) [
    | inl over ↦
        let (sent, s₁) = session.start_send (into_rlpx rlp (upgrade_msg rlp session)) s in
        let (received, s₂) = session.next s₁ in
        let (same, x) =
          exchange_upgrade-ok status r s s' s₁ s₂ sent received refl refl (ground arith) in
        (same, inr (ground arith, x))
    | inr under ↦ (ground arith, inl (ground arith, ground arith))
  ]

  abbrev pub Finished : Status → Status → session.ForkFilter → ℕ → Stream → Stream → Type 0
  Finished status r fork_filter timeout_limit s s' =
      (s₀ : Stream) × (session.expires timeout_limit s ≡ none)
      × (session.eth_handshake status fork_filter s ≡ (ok r, s₀))
      × (((session.version r ≤ 66) × (s' ≡ s₀)) ⊎ (66 < session.version r) × Exchanged s₀ s')

  handshake_parts :
      (status r : Status) (fork_filter : session.ForkFilter) (timeout_limit : ℕ) (s s' s₀ : Stream)
      (timer : Option Stream) (negotiated : Result Status (EthStreamError Error))
      → session.expires timeout_limit s ≡ timer
      → session.eth_handshake status fork_filter s ≡ (negotiated, s₀)
      → handshake rlp session status fork_filter timeout_limit s ≡ done (ok r, s')
      → Finished status r fork_filter timeout_limit s s'
  unfolding handshake negotiate
  handshake_parts status r fork_filter timeout_limit s s' s₀ (some t) negotiated p q h =
      ground arith
  handshake_parts status r fork_filter timeout_limit s s' s₀ none (err e) p q h = ground arith
  handshake_parts status r fork_filter timeout_limit s s' s₀ none (ok n) p q h =
      let (same, x) = upgrade_status-ok n r s₀ s' (ground arith) in (s₀, p, ground arith, rw same x)

  Finished-ok :
      (status r : Status) (fork_filter : session.ForkFilter) (timeout_limit : ℕ) (s s' : Stream)
      → Finished status r fork_filter timeout_limit s s'
      → handshake rlp session status fork_filter timeout_limit s ≡ done (ok r, s')
  unfolding handshake negotiate upgrade_status exchange_upgrade receive_upgrade judge
  Finished-ok status r fork_filter timeout_limit s s' (s₀, quiet, negotiated, inl (low, same)) =
      ground (arith, quiet, negotiated, same)
  Finished-ok status r fork_filter timeout_limit s s' (s₀, quiet, negotiated, inr (over, x)) =
      ground (
        arith,
        quiet,
        negotiated,
        x.sends,
        x.receives,
        x.decodes,
        lt→ltb 66 (session.version r) over,
      )

  -- A handshake succeeds exactly if it is not cut off by the timer, with the status that the Ethereum
  -- handshake negotiates; and either the version is at most eth/66 and nothing else is exchanged, or it
  -- is above and the own upgrade message is sent and the peer answers with one that decodes.
  pub handshake-ok :
      (status r : Status) (fork_filter : session.ForkFilter) (timeout_limit : ℕ) (s s' : Stream)
      → (handshake rlp session status fork_filter timeout_limit s ≡ done (ok r, s'))
        ↔ Finished status r fork_filter timeout_limit s s'
  handshake-ok status r fork_filter timeout_limit s s' = (
    λ h.
        let (negotiated, s₀) = session.eth_handshake status fork_filter s in
        handshake_parts status r fork_filter timeout_limit s s' s₀ (session.expires timeout_limit s)
          negotiated refl refl h,
    Finished-ok status r fork_filter timeout_limit s s',
  )
