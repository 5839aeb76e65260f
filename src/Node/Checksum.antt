-- ===== src/Node/Checksum.antt =====
-- src/node/node.rs: addresses with letters in two cases.
use v3_node.Base.{
  ℕ, ◌≡◌, inl, inr, Bool, true, false, ◌&&◌, ◌||◌, List, [], ◌∷◌, some, done, leb, Bool-cases, ap,
  refl, arith,
}
use v3_node.Peer.{Net}
use v3_node.Config.{PoolConfig}
use v3_node.Db.Models.{text_eq}
use v3_node.Db.Models.Kind.{text_eq_lem}
use v3_node.Db.Text.{Text}
use v3_node.Node.{Alloy, scan_tx}
use v3_node.Node.Watch.{is_listed, find_pool-is_listed}

-- Whether a letter from A to Z occurs.
abbrev pub has_upper : Text → Bool
has_upper [] = false
has_upper (c ∷ s) = (leb b'A' c && leb c b'Z') || has_upper s

-- No configured address has one, as in data/pools.json.
abbrev pub LowerCase : List PoolConfig → Type 0
LowerCase [] = Unit {0}
LowerCase (p ∷ pools) = (has_upper p.address ≡ false) × LowerCase pools

unlisted_upper :
    (address : Text) (pools : List PoolConfig)
    → LowerCase pools
    → has_upper address ≡ true
    → is_listed address pools ≡ false
unlisted_upper address [] low upper = refl
unlisted_upper address (p ∷ pools) (low, lows) upper =
    elim (Bool-cases (text_eq p.address address)) [
      | inl same ↦
          let e = ap has_upper (text_eq_lem p.address address same) in
          absurd (ground (arith, e, low, upper))
      | inr differs ↦ rw differs (unlisted_upper address pools lows upper)
    ]

module _ (net : Net) (alloy : Alloy net) (pools : List PoolConfig) where
  -- If every configured address is in lower case, nothing is reported of a transaction whose `to` is
  -- printed with a letter in upper case.
  pub scan_tx-has_upper :
      (tx : alloy.Tx) (to : ℕ)
      → LowerCase pools
      → alloy.to tx ≡ some to
      → has_upper (alloy.address_to_string to) ≡ true
      → scan_tx net alloy pools tx ≡ done []
  unfolding scan_tx
  scan_tx-has_upper tx to low e upper =
      elim (find_pool-is_listed (alloy.address_to_string to) pools) [
        | inl (missing, unlisted) ↦ rw (scan_tx, e, missing) refl
        | inr (p, finds, listed, same) ↦
            absurd
              (ground (arith, listed, unlisted_upper (alloy.address_to_string to) pools low upper))
      ]
