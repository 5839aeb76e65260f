-- ===== src/Chain/Tests.antt =====
-- src/network/chainspec.rs at concrete inputs.
use v3_node.Base.{ℕ, ◌≡◌, refl, some, get_elem?, arith}
use v3_node.Chain.{
  ethereum, bsc, plato, pascal, shanghai, ForkCondition, block, timestamp, bsc_mainnet, Head, head,
}
use v3_node.Chain.Forks.{Reached, bsc_mainnet-Reached, head-Reached}

abbrev at_shanghai : Head
at_shanghai = record { number = 35_000_000; timestamp = 1705996800 }

bsc_mainnet-Reached_example : Reached at_shanghai (block 30720096)
unfolding bsc_mainnet
bsc_mainnet-Reached_example =
    bsc_mainnet-Reached at_shanghai 19 24 (bsc plato, block 30720096)
      (ethereum shanghai, timestamp 1705996800) (λ late. omega arith) (omega arith) refl refl
      (omega arith)

head-Reached_example :
    (i : ℕ) × (c : ForkCondition) × (get_elem? bsc_mainnet i ≡ some (bsc pascal, c))
    × Reached head c
head-Reached_example = head-Reached pascal head (omega arith) (omega arith)
