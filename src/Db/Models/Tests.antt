-- ===== src/Db/Models/Tests.antt =====
-- src/db/models.rs at concrete events.
use v3_node.Base.{◌≡◌, refl, arith}
use v3_node.Base.Int.{negsuc}
use v3_node.Db.Models.{burn, sign}
use v3_node.Db.Models.Lossless.{
  SwapInRange, LiquidityChangeInRange, swap_row-injective, liquidity_change_row-injective,
}
use v3_node.Samples.Storage.{printers, printers-AlloyLaws, a_swap, a_burn}

burn_is_negative : sign burn ≡ negsuc 0
unfolding sign
burn_is_negative = refl

in_range : SwapInRange a_swap
in_range = omega arith

swap_row-injective_example : a_swap ≡ a_swap
swap_row-injective_example =
    swap_row-injective printers printers-AlloyLaws a_swap a_swap in_range in_range refl

burn_in_range : LiquidityChangeInRange a_burn
burn_in_range = record {
  pool = omega arith;
  block = omega arith;
  ts = omega arith;
  tx = omega arith;
  log_idx = omega arith;
  owner = omega arith;
  sender = λ s e. ground arith;
}

liquidity_change_row-injective_example : a_burn ≡ a_burn
liquidity_change_row-injective_example =
    liquidity_change_row-injective printers printers-AlloyLaws a_burn a_burn burn_in_range
      burn_in_range refl
