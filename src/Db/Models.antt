-- ===== src/Db/Models.antt =====
-- src/db/models.rs: the rows of the tables, built from the fields of decoded events.
pub mod Kind
pub mod Lossless
mod Tests
use v3_node.Base.{
  ℕ, zero, ◌+◌, ◌^◌, Bool, true, false, ◌&&◌, List, [], ◌∷◌, Option, none, some, ◌==◌,
  if◌then◌else◌,
}
use v3_node.Base.Int.{ℤ, pos, negsuc, signed}
use v3_node.Db.Text.{Text, codes, u128_to_hex, u256_to_hex, i128_to_str}

-- What the rows take from alloy: how a U256, an address and a hash are printed.
pub record Alloy : Type 0 where
  pub u256_lower_hex : ℕ → Text
  pub debug_address : ℕ → Text
  pub debug_hash : ℕ → Text

abbrev pub text_eq : Text → Text → Bool
text_eq [] [] = true
text_eq [] (y ∷ ys) = false
text_eq (x ∷ xs) [] = false
text_eq (x ∷ xs) (y ∷ ys) = x == y && text_eq xs ys

pub data LiquidityChangeKind : Type 0 where
  mint burn : LiquidityChangeKind

unfoldable pub as_str : LiquidityChangeKind → Text
as_str mint = codes "mint"
as_str burn = codes "burn"

unfoldable pub from_str : Text → Option LiquidityChangeKind
from_str s =
    if text_eq s (codes "mint")
    then some mint
    else if text_eq s (codes "burn")
    then some burn
    else none

unfoldable pub sign : LiquidityChangeKind → ℤ
sign mint = pos 1
sign burn = negsuc 0

-- `x as i64` of a u64, and `x as i32` of a u32.
abbrev pub as_i64 : ℕ → ℤ
as_i64 x = signed (2 ^ 63) x

abbrev pub as_i32 : ℕ → ℤ
as_i32 x = signed (2 ^ 31) x

-- The arguments of `SwapRow::new`.
pub record SwapArgs : Type 0 where
  pub pool : ℕ
  pub block : ℕ
  pub ts : ℕ
  pub tx : ℕ
  pub log_idx : ℕ
  pub sender : ℕ
  pub recipient : ℕ
  pub amount0 : ℤ
  pub amount1 : ℤ
  pub sqrt_price : ℕ
  pub liquidity : ℕ
  pub tick : ℤ

pub record SwapRow : Type 0 where
  pub pool_address : Text
  pub block_number : ℤ
  pub tx_hash : Text
  pub log_index : ℤ
  pub block_timestamp : ℤ
  pub sender : Text
  pub recipient : Text
  pub amount0 : Text
  pub amount1 : Text
  pub sqrt_price_x96 : Text
  pub liquidity : Text
  pub tick : ℤ

unfoldable pub swap_row : Alloy → SwapArgs → SwapRow
swap_row alloy a = record {
  pool_address = alloy.debug_address a.pool;
  block_number = as_i64 a.block;
  block_timestamp = as_i64 a.ts;
  tx_hash = alloy.debug_hash a.tx;
  log_index = as_i32 a.log_idx;
  sender = alloy.debug_address a.sender;
  recipient = alloy.debug_address a.recipient;
  amount0 = i128_to_str a.amount0;
  amount1 = i128_to_str a.amount1;
  sqrt_price_x96 = u256_to_hex alloy.u256_lower_hex a.sqrt_price;
  liquidity = u128_to_hex a.liquidity;
  tick = a.tick;
}

-- The arguments of `LiquidityChangeRow::new`.
pub record LiquidityChangeArgs : Type 0 where
  pub kind : LiquidityChangeKind
  pub pool : ℕ
  pub block : ℕ
  pub ts : ℕ
  pub tx : ℕ
  pub log_idx : ℕ
  pub owner : ℕ
  pub sender : Option ℕ
  pub tick_lower : ℤ
  pub tick_upper : ℤ
  pub amount : ℕ
  pub amount0 : ℕ
  pub amount1 : ℕ

pub record LiquidityChangeRow : Type 0 where
  pub event_type : Text
  pub pool_address : Text
  pub block_number : ℤ
  pub tx_hash : Text
  pub log_index : ℤ
  pub block_timestamp : ℤ
  pub owner : Text
  pub sender : Option Text
  pub tick_lower : ℤ
  pub tick_upper : ℤ
  pub amount : Text
  pub amount0 : Text
  pub amount1 : Text

abbrev pub map_sender : (ℕ → Text) → Option ℕ → Option Text
map_sender f none = none
map_sender f (some a) = some (f a)

unfoldable pub liquidity_change_row : Alloy → LiquidityChangeArgs → LiquidityChangeRow
liquidity_change_row alloy a = record {
  event_type = as_str a.kind;
  pool_address = alloy.debug_address a.pool;
  block_number = as_i64 a.block;
  block_timestamp = as_i64 a.ts;
  tx_hash = alloy.debug_hash a.tx;
  log_index = as_i32 a.log_idx;
  owner = alloy.debug_address a.owner;
  sender = map_sender alloy.debug_address a.sender;
  tick_lower = a.tick_lower;
  tick_upper = a.tick_upper;
  amount = u128_to_hex a.amount;
  amount0 = u128_to_hex a.amount0;
  amount1 = u128_to_hex a.amount1;
}
