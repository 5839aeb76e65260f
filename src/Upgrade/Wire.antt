-- ===== src/Upgrade/Wire.antt =====
-- src/network/upgrade.rs on the wire: what is read, what is refused, and what panics.
use v3_node.Base.{
  ℕ, ◌≡◌, ◌↔◌, List, [], ◌∷◌, ◌++◌, Result, ok, err, panic, done, if◌then◌else◌, arith,
}
use v3_node.Upgrade.{
  UpgradeStatus, UpgradeStatusExtension, Rlp, RlpLaws, encode, into_rlpx, decode, decode_after,
}

module _ (rlp : Rlp) where
  after_panic :
      (r : Result (ℕ × List ℕ) rlp.Error) → (decode_after rlp r ≡ panic) ↔ (r ≡ ok (0x0b, []))
  unfolding decode_after
  after_panic (err x) = (λ h. ground arith, λ h. ground arith)
  after_panic (ok (id, [])) = (λ h. ground arith, λ h. ground arith)
  after_panic (ok (id, b ∷ rest)) = (λ h. ground arith, λ h. ground arith)

  -- Decoding panics exactly on a message that ends right after the id 0x0b.
  pub decode_panic : (buf : List ℕ) → (decode rlp buf ≡ panic) ↔ (rlp.decode_u8 buf ≡ ok (0x0b, []))
  unfolding decode
  decode_panic buf = after_panic (rlp.decode_u8 buf)

module _ (rlp : Rlp) (laws : RlpLaws rlp) where
  -- Under the laws of RLP a message that has one byte between the id and the extension decodes to that extension, with the
  -- rest of the buffer, whatever the byte is.
  pub decode_skips :
      (header : ℕ) (e : UpgradeStatusExtension) (rest : List ℕ)
      → decode rlp (0x0b ∷ header ∷ (rlp.encode_extension e ++ rest))
        ≡ done (ok (record { extension = e }, rest))
  unfolding decode
  decode_skips header e rest = rw (
    laws.decode_u8-small 0x0b (header ∷ (rlp.encode_extension e ++ rest)) (omega arith)
        (omega arith),
    laws.decode-encode e rest,
  )

  -- Under the laws of RLP no message that the node itself encodes can be decoded by it: each is refused
  -- with an error.
  pub decode-into_rlpx :
      (s : UpgradeStatus) → (x : rlp.Error) × (decode rlp (into_rlpx rlp s) ≡ done (err x))
  unfolding decode into_rlpx encode
  decode-into_rlpx s =
      let flag : ℕ = if s.extension.disable_peer_tx_broadcast then 0x01 else 0x80 in
      let (x, refused) = laws.decode_string flag [] (ground arith) in
      (
        x,
        rw (
          laws.encode_u8-small 0x0b (omega arith) (omega arith),
          laws.extension_list s.extension,
          laws.decode_u8-small 0x0b (0xc1 ∷ flag ∷ []) (omega arith) (omega arith),
          refused,
        ),
      )

  -- Under the laws of RLP no message that the encoder makes is decoded, while one that has any one byte
  -- between the id and the extension is, with the rest of the buffer.
  pub decode-layout :
      (s : UpgradeStatus) (header : ℕ) (rest : List ℕ)
      → (x : rlp.Error) × (decode rlp (into_rlpx rlp s) ≡ done (err x))
        × (decode rlp (0x0b ∷ header ∷ (rlp.encode_extension s.extension ++ rest))
            ≡ done (ok (s, rest)))
  decode-layout s header rest =
      let (x, refused) = decode-into_rlpx s in (x, refused, decode_skips header s.extension rest)
