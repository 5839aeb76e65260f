-- ===== src/Samples/Wire.antt =====
-- A small RLP codec for the tests of src/network/upgrade.rs and src/network/handshake.rs.
use v3_node.Base.{
  ℕ, ◌≡◌, ◌<◌, refl, Bool, true, false, List, [], ◌∷◌, ◌++◌, Result, ok, err, ◌==◌, ltb,
  if◌then◌else◌, arith,
}
use v3_node.Upgrade.{UpgradeStatusExtension, Rlp, RlpLaws}

abbrev pub extension : Bool → UpgradeStatusExtension
extension b = record { disable_peer_tx_broadcast = b }

abbrev pub read_u8 : List ℕ → Result (ℕ × List ℕ) ℕ
read_u8 [] = err 0
read_u8 (b ∷ rest) = if b == 0x80 then ok (0, rest) else if ltb b 0x80 then ok (b, rest) else err 1

abbrev pub read_flag : ℕ → List ℕ → Result (UpgradeStatusExtension × List ℕ) ℕ
read_flag b rest =
    if b == 0x01
    then ok (extension true, rest)
    else if b == 0x80
    then ok (extension false, rest)
    else err 2

abbrev pub read_extension : List ℕ → Result (UpgradeStatusExtension × List ℕ) ℕ
read_extension [] = err 3
read_extension (b ∷ []) = err 4
read_extension (b ∷ flag ∷ rest) = if b == 0xc1 then read_flag flag rest else err 5

abbrev pub codec : Rlp
codec = record {
  Error = ℕ;
  custom = λ text. 6;
  encode_u8 = λ n. n ∷ [];
  decode_u8 = read_u8;
  encode_extension = λ e. 0xc1 ∷ (if e.disable_peer_tx_broadcast then 0x01 else 0x80) ∷ [];
  decode_extension = read_extension;
}

small_byte : (n : ℕ) (rest : List ℕ) → 0 < n → n < 128 → read_u8 (n ∷ rest) ≡ ok (n, rest)
small_byte n rest h k = ground arith

reads_back :
    (e : UpgradeStatusExtension) (rest : List ℕ)
    → read_extension (codec.encode_extension e ++ rest) ≡ ok (e, rest)
reads_back e rest = ground arith

refuses_strings : (b : ℕ) (rest : List ℕ) → b < 0xc0 → (x : ℕ) × (read_extension (b ∷ rest) ≡ err x)
refuses_strings b [] h = (4, refl)
refuses_strings b (f ∷ rest) h = (5, ground arith)

pub codec-RlpLaws : RlpLaws codec
codec-RlpLaws = record {
  encode_u8-small = λ n h k. refl;
  decode_u8-small = small_byte;
  extension_list = λ e. refl;
  decode-encode = reads_back;
  decode_string = refuses_strings;
}
