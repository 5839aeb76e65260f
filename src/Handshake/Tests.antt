-- ===== src/Handshake/Tests.antt =====
-- src/network/handshake.rs at concrete inputs.
use v3_node.Base.{
  ℕ, arith, ◌≡◌, ◌↔◌, refl, List, [], ◌∷◌, ◌++◌, Option, false, none, some, Result, ok, err, panic,
  done,
}
use v3_node.Upgrade.{encode, into_rlpx, decode}
use v3_node.Handshake.{
  DisconnectReason, protocol_breach, non_status_message, Session, hang_up, judge, receive_upgrade,
  exchange_upgrade, upgrade_status, negotiate, handshake,
}
use v3_node.Handshake.Status.{Finished, handshake-ok}
use v3_node.Handshake.Crash.{Bare, upgrade_status-panic}
use v3_node.Handshake.Kin.{upgrade_status-into_rlpx}
use v3_node.Samples.Wire.{codec, codec-RlpLaws}

-- The stream is what the peer will say, and what it was told: messages and reasons.
abbrev Stream : Type 0
Stream = List (List ℕ) × List (List ℕ) × List DisconnectReason

abbrev next_message :
    List (List ℕ) → List (List ℕ) → List DisconnectReason → Option (Result (List ℕ) ℕ) × Stream
next_message [] sent reasons = (none, ([], sent, reasons))
next_message (m ∷ ms) sent reasons = (some (ok m), (ms, sent, reasons))

-- A status is its version; the Ethereum handshake accepts it.
abbrev accepting : Session
accepting = record {
  Status = ℕ;
  version = λ v. v;
  ForkFilter = ℕ;
  Error = ℕ;
  Stream = Stream;
  start_send = λ bytes s. (ok tt, (s.0, s.1 ++ bytes ∷ [], s.2));
  next = λ s. next_message s.0 s.1 s.2;
  disconnect = λ reason s. (ok tt, (s.0, s.1, s.2 ++ reason ∷ []));
  eth_handshake = λ status filter s. (ok status, s);
  expires = λ limit s. none;
}

abbrev nested : List ℕ
nested = 0x0b ∷ 0xc2 ∷ 0xc1 ∷ 0x80 ∷ []

succeeds :
    handshake codec accepting 68 0 10 (nested ∷ [], [], [])
    ≡ done (ok 68, ([], (0x0b ∷ 0xc1 ∷ 0x80 ∷ []) ∷ [], []))
unfolding handshake negotiate upgrade_status exchange_upgrade receive_upgrade judge into_rlpx encode
    decode
succeeds = refl

-- The peer that sends another message is told of a breach.
breach :
    upgrade_status codec accepting 68 ((0x10 ∷ []) ∷ [], [], [])
    ≡ done (err non_status_message, ([], (0x0b ∷ 0xc1 ∷ 0x80 ∷ []) ∷ [], protocol_breach ∷ []))
unfolding upgrade_status exchange_upgrade receive_upgrade judge hang_up into_rlpx encode decode
breach = refl

abbrev opened : Stream
opened = (nested ∷ [], [], [])

abbrev finished : Stream
finished = ([], (0x0b ∷ 0xc1 ∷ 0x80 ∷ []) ∷ [], [])

handshake-ok_example :
    (handshake codec accepting 68 0 10 opened ≡ done (ok 68, finished))
    ↔ Finished codec accepting 68 68 0 10 opened finished
handshake-ok_example = handshake-ok codec accepting 68 68 0 10 opened finished

upgrade_status-panic_example :
    (upgrade_status codec accepting 68 ((0x0b ∷ []) ∷ [], [], []) ≡ panic)
    ↔ Bare codec accepting 68 ((0x0b ∷ []) ∷ [], [], [])
upgrade_status-panic_example = upgrade_status-panic codec accepting 68 ((0x0b ∷ []) ∷ [], [], [])

-- The peer's message is the node's own.
upgrade_status-into_rlpx_example :
    upgrade_status codec accepting 68 ((0x0b ∷ 0xc1 ∷ 0x80 ∷ []) ∷ [], [], [])
    ≡ done (err non_status_message, ([], (0x0b ∷ 0xc1 ∷ 0x80 ∷ []) ∷ [], protocol_breach ∷ []))
unfolding into_rlpx encode
upgrade_status-into_rlpx_example =
    upgrade_status-into_rlpx codec codec-RlpLaws accepting 68
      (record { extension = record { disable_peer_tx_broadcast = false } })
      ((0x0b ∷ 0xc1 ∷ 0x80 ∷ []) ∷ [], [], []) ([], (0x0b ∷ 0xc1 ∷ 0x80 ∷ []) ∷ [], [])
      ([], (0x0b ∷ 0xc1 ∷ 0x80 ∷ []) ∷ [], protocol_breach ∷ [])
      (record {
        sent = ((0x0b ∷ 0xc1 ∷ 0x80 ∷ []) ∷ [], (0x0b ∷ 0xc1 ∷ 0x80 ∷ []) ∷ [], []);
        over = omega arith;
        sends = refl;
        receives = refl;
      })
      refl
