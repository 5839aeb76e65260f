-- ===== src/Db/Schema/Bounds.antt =====
-- src/db/models.rs: the numbers of the rows against those that they are made from.
use v3_node.Base.{ℕ, ◌<◌, ◌≡◌, ◌↔◌, refl, ◌^◌, arith}
use v3_node.Base.Int.{ℤ, pos, signed}
use v3_node.Db.Models.{Alloy, SwapArgs, swap_row, LiquidityChangeArgs, liquidity_change_row}

-- A number is stored as itself exactly if it is below a bound.
abbrev pub Exact : ℕ → ℤ → ℕ → Type 0
Exact half z n = (z ≡ pos n) ↔ (n < half)

signed-Exact : (half n : ℕ) → Exact half (signed half n) n
unfolding signed
signed-Exact half n = (λ e. ground arith, λ h. ground arith)

module _ (alloy : Alloy) where
  -- A row holds the number of its block and its timestamp as they are exactly if they are below 2^63,
  -- and the index of its log exactly if it is below 2^31; else the cell holds another number. The
  -- ticks are always held as they are.
  pub rows-Exact :
      (a : SwapArgs) (b : LiquidityChangeArgs)
      → Exact (2 ^ 63) (swap_row alloy a).block_number a.block
        × Exact (2 ^ 63) (swap_row alloy a).block_timestamp a.ts
        × Exact (2 ^ 31) (swap_row alloy a).log_index a.log_idx
        × ((swap_row alloy a).tick ≡ a.tick)
        × Exact (2 ^ 63) (liquidity_change_row alloy b).block_number b.block
        × Exact (2 ^ 63) (liquidity_change_row alloy b).block_timestamp b.ts
        × Exact (2 ^ 31) (liquidity_change_row alloy b).log_index b.log_idx
        × ((liquidity_change_row alloy b).tick_lower ≡ b.tick_lower)
        × ((liquidity_change_row alloy b).tick_upper ≡ b.tick_upper)
  unfolding swap_row liquidity_change_row
  rows-Exact a b = (
    signed-Exact (2 ^ 63) a.block,
    signed-Exact (2 ^ 63) a.ts,
    signed-Exact (2 ^ 31) a.log_idx,
    refl,
    signed-Exact (2 ^ 63) b.block,
    signed-Exact (2 ^ 63) b.ts,
    signed-Exact (2 ^ 31) b.log_idx,
    refl,
    refl,
  )
