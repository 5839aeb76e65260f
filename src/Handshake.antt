-- ===== src/Handshake.antt =====
-- src/network/handshake.rs: the BSC handshake, after the Ethereum one.
pub mod Status
pub mod Crash
pub mod Kin
mod Tests
use v3_node.Base.{
  ℕ, ◌≡◌, ◌<◌, Bool, true, false, List, [], ◌∷◌, Option, none, some, Result, ok, err, map_err, Run,
  panic, done, ltb, if◌then◌else◌,
}
use v3_node.Upgrade.{UpgradeStatus, Rlp, decode, into_rlpx}

pub data DisconnectReason : Type 0 where
  disconnect_requested protocol_breach : DisconnectReason

-- EthStreamError, as far as the handshake makes it; `stream` is an error of the stream below.
pub data EthStreamError (E : Type 0) : Type 0 where
  no_response : EthStreamError E
  non_status_message : EthStreamError E
  stream_timeout : EthStreamError E
  stream : E → EthStreamError E

-- What the handshake takes from elsewhere: the unauthenticated stream, with its state; the Ethereum
-- handshake; and the timer, which may cut a computation off and then leaves the stream in some state.
pub record Session : Type 1 where
  pub Status : Type 0
  pub version : Status → ℕ
  pub ForkFilter : Type 0
  pub Error : Type 0
  pub Stream : Type 0
  pub start_send : List ℕ → Stream → Result (Unit {0}) Error × Stream
  pub next : Stream → Option (Result (List ℕ) Error) × Stream
  pub disconnect : DisconnectReason → Stream → Result (Unit {0}) Error × Stream
  pub eth_handshake : Status → ForkFilter → Stream → Result Status (EthStreamError Error) × Stream
  pub expires : ℕ → Stream → Option Stream

module _ (rlp : Rlp) (session : Session) where
  open session use {Status, Error, Stream}

  -- A step that talks to the peer: it may panic, and the stream is left in a new state.
  abbrev pub Talk : Type 0 → Type 0
  Talk A = Stream → Run (Result A (EthStreamError Error) × Stream)

  -- `unauth.disconnect(reason).await?; return Err(error)`
  unfoldable pub hang_up : DisconnectReason → EthStreamError Error → Talk Status
  hang_up reason error s =
      let (r, s') = session.disconnect reason s in
      elim r [ ok u ↦ done (err error, s') | err e ↦ done (err (stream e), s') ]

  -- The answer that the peer's message gets.
  unfoldable pub judge : Status → Run (Result (UpgradeStatus × List ℕ) rlp.Error) → Talk Status
  judge status panic s = panic
  judge status (done (ok decoded)) s = done (ok status, s)
  judge status (done (err x)) s = hang_up protocol_breach non_status_message s

  -- `match unauth.next().await`
  unfoldable pub receive_upgrade : Status → Option (Result (List ℕ) Error) → Talk Status
  receive_upgrade status none s = hang_up disconnect_requested no_response s
  receive_upgrade status (some (err e)) s = done (err (stream e), s)
  receive_upgrade status (some (ok msg)) s = judge status (decode rlp msg) s

  abbrev pub upgrade_msg : UpgradeStatus
  upgrade_msg = record { extension = record { disable_peer_tx_broadcast = false } }

  unfoldable pub exchange_upgrade : Status → Talk Status
  exchange_upgrade status s =
      let (sent, s₁) = session.start_send (into_rlpx rlp upgrade_msg) s in
      elim sent [
        | err e ↦ done (err (stream e), s₁)
        | ok u ↦ let (received, s₂) = session.next s₁ in receive_upgrade status received s₂
      ]

  -- Versions up to eth/66 exchange nothing.
  unfoldable pub upgrade_status : Status → Talk Status
  upgrade_status status s =
      if ltb 66 (session.version status) then exchange_upgrade status s else done (ok status, s)

  -- The future that the timer guards.
  unfoldable pub negotiate : Status → session.ForkFilter → Talk Status
  negotiate status fork_filter s =
      let (r, s') = session.eth_handshake status fork_filter s in
      elim r [ err e ↦ done (err e, s') | ok negotiated ↦ upgrade_status negotiated s' ]

  unfoldable pub handshake : Status → session.ForkFilter → ℕ → Talk Status
  handshake status fork_filter timeout_limit s = elim (session.expires timeout_limit s) [
    | some s' ↦ done (err stream_timeout, s')
    | none ↦ negotiate status fork_filter s
  ]
