-- ===== src/Handshake/Kin.antt =====
-- src/network/handshake.rs: the exchange with a peer that runs the same code.
use v3_node.Base.{ℕ, ◌≡◌, ◌<◌, List, some, ok, err, done, lt→ltb, arith}
use v3_node.Upgrade.{UpgradeStatus, Rlp, RlpLaws, into_rlpx}
use v3_node.Upgrade.Wire.{decode-into_rlpx}
use v3_node.Handshake.{
  protocol_breach, non_status_message, Session, hang_up, judge, receive_upgrade, upgrade_msg,
  exchange_upgrade, upgrade_status,
}

module _ (rlp : Rlp) (laws : RlpLaws rlp) (session : Session) where
  open session use {Status, Stream}

  -- Over eth/66 the own message is sent and the peer's message arrives.
  pub record Arrives (status : Status) (message : List ℕ) (s s' : Stream) : Type 0 where
    pub sent : Stream
    pub over : 66 < session.version status
    pub sends : session.start_send (into_rlpx rlp (upgrade_msg rlp session)) s ≡ (ok tt, sent)
    pub receives : session.next sent ≡ (some (ok message), s')

  -- Under the laws of RLP and over eth/66: if the own upgrade message is sent, the peer's is one that
  -- this program makes, and the peer is then told of a breach of the protocol, the exchange fails.
  pub upgrade_status-into_rlpx :
      (status : Status) (theirs : UpgradeStatus) (s s' s'' : Stream)
      → Arrives status (into_rlpx rlp theirs) s s'
      → session.disconnect protocol_breach s' ≡ (ok tt, s'')
      → upgrade_status rlp session status s ≡ done (err non_status_message, s'')
  unfolding upgrade_status exchange_upgrade receive_upgrade judge hang_up
  upgrade_status-into_rlpx status theirs s s' s'' a told =
      let (x, refused) = decode-into_rlpx rlp laws theirs in
      ground (arith, a.sends, a.receives, refused, told, lt→ltb 66 (session.version status) a.over)
