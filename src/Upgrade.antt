-- ===== src/Upgrade.antt =====
-- src/network/upgrade.rs: the upgrade status message of the BSC handshake.
pub mod Wire
mod Tests
use v3_node.Base.{
  ℕ, ◌≡◌, ◌<◌, ◌+◌, String, Bool, true, false, List, [], ◌∷◌, ◌++◌, Result, ok, err, Run, panic,
  done, ◌==◌, if◌then◌else◌,
}

abbrev pub upgrade_status_message_id : ℕ
upgrade_status_message_id = 0x0b

pub record UpgradeStatusExtension : Type 0 where
  pub disable_peer_tx_broadcast : Bool

pub record UpgradeStatus : Type 0 where
  pub extension : UpgradeStatusExtension

-- What the message takes from alloy's RLP: the codec of a byte, the derived codec of the extension.
-- A decoder gives the value and the rest of the buffer.
pub record Rlp : Type 1 where
  pub Error : Type 0
  pub custom : String → Error
  pub encode_u8 : ℕ → List ℕ
  pub decode_u8 : List ℕ → Result (ℕ × List ℕ) Error
  pub encode_extension : UpgradeStatusExtension → List ℕ
  pub decode_extension : List ℕ → Result (UpgradeStatusExtension × List ℕ) Error

-- What RLP says of them: a byte below 128 is its own encoding, a struct is a list, whose encoding
-- begins with a byte from 0xc0 on, and the encoding of a flag alone does not.
pub record RlpLaws (rlp : Rlp) : Type 0 where
  pub encode_u8-small : (n : ℕ) → 0 < n → n < 128 → rlp.encode_u8 n ≡ n ∷ []
  pub decode_u8-small :
      (n : ℕ) (rest : List ℕ) → 0 < n → n < 128 → rlp.decode_u8 (n ∷ rest) ≡ ok (n, rest)
  pub extension_list :
      (e : UpgradeStatusExtension)
      → rlp.encode_extension e ≡ 0xc1 ∷ (if e.disable_peer_tx_broadcast then 0x01 else 0x80) ∷ []
  pub decode-encode :
      (e : UpgradeStatusExtension) (rest : List ℕ)
      → rlp.decode_extension (rlp.encode_extension e ++ rest) ≡ ok (e, rest)
  pub decode_string :
      (b : ℕ) (rest : List ℕ)
      → b < 0xc0
      → (x : rlp.Error) × (rlp.decode_extension (b ∷ rest) ≡ err x)

-- `buf.advance(1)` panics on an empty buffer.
unfoldable pub advance_one : List ℕ → Run (List ℕ)
advance_one [] = panic
advance_one (b ∷ rest) = done rest

module _ (rlp : Rlp) where
  unfoldable pub encode : UpgradeStatus → List ℕ
  encode s = rlp.encode_u8 upgrade_status_message_id ++ rlp.encode_extension s.extension

  unfoldable pub into_rlpx : UpgradeStatus → List ℕ
  into_rlpx s = encode s

  -- `Ok(Self { extension })`, with the rest of the buffer.
  unfoldable pub wrap :
      Result (UpgradeStatusExtension × List ℕ) rlp.Error → Result (UpgradeStatus × List ℕ) rlp.Error
  wrap (ok (e, rest)) = ok (record { extension = e }, rest)
  wrap (err x) = err x

  unfoldable pub decode_after :
      Result (ℕ × List ℕ) rlp.Error → Run (Result (UpgradeStatus × List ℕ) rlp.Error)
  unfolding wrap advance_one
  decode_after (err x) = done (err x)
  decode_after (ok (message_id, buf)) =
      if message_id == upgrade_status_message_id
      then (elim (advance_one buf) [
        | panic ↦ panic
        | done rest ↦ done (wrap (rlp.decode_extension rest))
      ])
      else done (err (rlp.custom "Invalid message ID"))

  unfoldable pub decode : List ℕ → Run (Result (UpgradeStatus × List ℕ) rlp.Error)
  unfolding decode_after
  decode buf = decode_after (rlp.decode_u8 buf)
