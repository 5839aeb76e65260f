-- ===== src/Handshake/Crash.antt =====
-- src/network/handshake.rs: when the exchange of upgrade messages panics.
use v3_node.Base.{
  ℕ, ◌<◌, ◌≡◌, ◌↔◌, inl, inr, refl, List, [], Option, none, some, Result, ok, err, Run, panic, done,
  ltb, lt→ltb, arith, Bool-cases,
}
use v3_node.Upgrade.{UpgradeStatus, Rlp, decode, into_rlpx}
use v3_node.Upgrade.Wire.{decode_panic}
use v3_node.Handshake.{
  DisconnectReason, EthStreamError, Session, hang_up, judge, receive_upgrade, upgrade_msg,
  exchange_upgrade, upgrade_status,
}

module _ (rlp : Rlp) (session : Session) where
  open session use {Status, Error, Stream}

  -- The peer's message is read as the id 0x0b and nothing behind it.
  pub record Bare (status : Status) (s : Stream) : Type 0 where
    pub sent : Stream
    pub received : Stream
    pub message : List ℕ
    pub over : 66 < session.version status
    pub sends : session.start_send (into_rlpx rlp (upgrade_msg rlp session)) s ≡ (ok tt, sent)
    pub receives : session.next sent ≡ (some (ok message), received)
    pub bare : rlp.decode_u8 message ≡ ok (0x0b, [])

  hang_up-ne-panic :
      (reason : DisconnectReason) (error : EthStreamError Error) (s : Stream)
      → hang_up rlp session reason error s ≡ panic
      → ⊥
  unfolding hang_up
  hang_up-ne-panic reason error s h = ground arith

  judge-panic :
      (status : Status) (d : Run (Result (UpgradeStatus × List ℕ) rlp.Error)) (s : Stream)
      → judge rlp session status d s ≡ panic
      → d ≡ panic
  unfolding judge
  judge-panic status panic s h = refl
  judge-panic status (done (ok x)) s h = ground arith
  judge-panic status (done (err e)) s h = absurd (hang_up-ne-panic _ _ s h)

  receive_upgrade-panic :
      (status : Status) (received : Option (Result (List ℕ) Error)) (s : Stream)
      → receive_upgrade rlp session status received s ≡ panic
      → (message : List ℕ) × (received ≡ some (ok message))
        × (rlp.decode_u8 message ≡ ok (0x0b, []))
  unfolding receive_upgrade
  receive_upgrade-panic status none s h = absurd (hang_up-ne-panic _ _ s h)
  receive_upgrade-panic status (some (err e)) s h = ground arith
  receive_upgrade-panic status (some (ok message)) s h =
      (message, refl, (decode_panic rlp message).0 (judge-panic status (decode rlp message) s h))

  exchange_upgrade-panic :
      (status : Status) (s s₁ s₂ : Stream) (sent : Result (Unit {0}) Error)
      (received : Option (Result (List ℕ) Error))
      → 66 < session.version status
      → session.start_send (into_rlpx rlp (upgrade_msg rlp session)) s ≡ (sent, s₁)
      → session.next s₁ ≡ (received, s₂)
      → exchange_upgrade rlp session status s ≡ panic
      → Bare status s
  unfolding exchange_upgrade
  exchange_upgrade-panic status s s₁ s₂ (err e) received over p q h = ground arith
  exchange_upgrade-panic status s s₁ s₂ (ok u) received over p q h =
      let (message, r, bare) = receive_upgrade-panic status received s₂ (ground arith) in
      record {
        sent = s₁;
        received = s₂;
        message = message;
        over = over;
        sends = p;
        receives = ground arith;
        bare = bare;
      }

  Bare-panic :
      (status : Status) (s : Stream) → Bare status s → upgrade_status rlp session status s ≡ panic
  unfolding upgrade_status exchange_upgrade receive_upgrade judge
  Bare-panic status s b = ground (
    arith,
    b.sends,
    b.receives,
    (decode_panic rlp b.message).1 b.bare,
    lt→ltb 66 (session.version status) b.over,
  )

  -- The exchange panics exactly if the version is over eth/66, the own message is sent, and the peer
  -- answers with the bare message id: then the decoder skips a byte that is not there.
  pub upgrade_status-panic :
      (status : Status) (s : Stream) → (upgrade_status rlp session status s ≡ panic) ↔ Bare status s
  unfolding upgrade_status
  upgrade_status-panic status s = (
    λ h. elim (Bool-cases (ltb 66 (session.version status))) [
      | inl over ↦
          let (sent, s₁) = session.start_send (into_rlpx rlp (upgrade_msg rlp session)) s in
          let (received, s₂) = session.next s₁ in
          exchange_upgrade-panic status s s₁ s₂ sent received (ground arith) refl refl
            (ground arith)
      | inr under ↦ ground arith
    ],
    Bare-panic status s,
  )
