-- ===== src/Chain.antt =====
-- src/network/chainspec.rs: the hard forks of BSC and the head that the node announces.
pub mod Forks
pub mod Spec
mod Tests
use v3_node.Base.{ℕ, List, [], ◌∷◌}

-- The Ethereum forks that the table names.
pub data EthereumHardfork : Type 0 where
  frontier homestead tangerine spurious_dragon byzantium constantinople petersburg istanbul
        muir_glacier berlin london shanghai cancun :
      EthereumHardfork

pub data BscHardfork : Type 0 where
  ramanujan niels mirror_sync bruno euler nano moran gibbs planck luban plato hertz hertz_fix kepler
        feynman feynman_fix haber haber_fix bohr pascal prague :
      BscHardfork

-- `boxed()` forgets which of the two enumerations a fork is from.
pub data Hardfork : Type 0 where
  ethereum : EthereumHardfork → Hardfork
  bsc : BscHardfork → Hardfork

-- The conditions that the table uses.
pub data ForkCondition : Type 0 where
  block : ℕ → ForkCondition
  timestamp : ℕ → ForkCondition

unfoldable pub bsc_mainnet : List (Hardfork × ForkCondition)
bsc_mainnet =
    (ethereum frontier, block 0)
    ∷ (ethereum homestead, block 0)
    ∷ (ethereum tangerine, block 0)
    ∷ (ethereum spurious_dragon, block 0)
    ∷ (ethereum byzantium, block 0)
    ∷ (ethereum constantinople, block 0)
    ∷ (ethereum petersburg, block 0)
    ∷ (ethereum istanbul, block 0)
    ∷ (ethereum muir_glacier, block 0)
    ∷ (bsc ramanujan, block 0)
    ∷ (bsc niels, block 0)
    ∷ (bsc mirror_sync, block 5184000)
    ∷ (bsc bruno, block 13082000)
    ∷ (bsc euler, block 18907621)
    ∷ (bsc nano, block 21962149)
    ∷ (bsc moran, block 22107423)
    ∷ (bsc gibbs, block 23846001)
    ∷ (bsc planck, block 27281024)
    ∷ (bsc luban, block 29020050)
    ∷ (bsc plato, block 30720096)
    ∷ (ethereum berlin, block 31302048)
    ∷ (ethereum london, block 31302048)
    ∷ (bsc hertz, block 31302048)
    ∷ (bsc hertz_fix, block 34140700)
    ∷ (ethereum shanghai, timestamp 1705996800)
    ∷ (bsc kepler, timestamp 1705996800)
    ∷ (bsc feynman, timestamp 1713419340)
    ∷ (bsc feynman_fix, timestamp 1713419340)
    ∷ (ethereum cancun, timestamp 1718863500)
    ∷ (bsc haber, timestamp 1718863500)
    ∷ (bsc haber_fix, timestamp 1727316120)
    ∷ (bsc bohr, timestamp 1727317200)
    ∷ (bsc pascal, timestamp 1742436600)
    ∷ (bsc prague, timestamp 1742436600)
    ∷ []

-- The fields of `Head` that are set; the others have their defaults.
pub record Head : Type 0 where
  pub number : ℕ
  pub timestamp : ℕ

abbrev pub head : Head
head = record { number = 40_000_000; timestamp = 1742436600 }
