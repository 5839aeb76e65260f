-- ===== src/Db/Models/Lossless.antt =====
-- src/db/models.rs: rows against the events that they were built from.
use v3_node.Base.{ℕ, ◌^◌, ◌<◌, ◌≡◌, refl, ap, Option, none, some, arith}
use v3_node.Base.Int.{ℤ, signed-injective}
use v3_node.Db.Text.{lower_hex, u128_to_hex, u256_to_hex, i128_to_str}
use v3_node.Db.Text.RoundTrip.{
  read_hex, read_int, read_hex-u128_to_hex, read_hex-u256_to_hex, read_int-i128_to_str,
}
use v3_node.Db.Models.{
  Alloy, LiquidityChangeKind, as_str, from_str, SwapArgs, SwapRow, swap_row, LiquidityChangeArgs,
  LiquidityChangeRow, liquidity_change_row, map_sender,
}
use v3_node.Db.Models.Kind.{from_str-as_str}

-- What alloy documents of its printers: a U256 prints as a number does, and different addresses and
-- hashes print differently.
pub record AlloyLaws (alloy : Alloy) : Type 0 where
  pub u256_lower_hex-number : (n : ℕ) → alloy.u256_lower_hex n ≡ lower_hex n
  pub debug_address-injective :
      (a b : ℕ) → a < 2 ^ 160 → b < 2 ^ 160 → alloy.debug_address a ≡ alloy.debug_address b → a ≡ b
  pub debug_hash-injective :
      (a b : ℕ) → a < 2 ^ 256 → b < 2 ^ 256 → alloy.debug_hash a ≡ alloy.debug_hash b → a ≡ b

-- The ranges of the arguments' types that the conversions depend on.
pub record SwapInRange (a : SwapArgs) : Type 0 where
  pub pool : a.pool < 2 ^ 160
  pub block : a.block < 2 ^ 64
  pub ts : a.ts < 2 ^ 64
  pub tx : a.tx < 2 ^ 256
  pub log_idx : a.log_idx < 2 ^ 32
  pub sender : a.sender < 2 ^ 160
  pub recipient : a.recipient < 2 ^ 160

u128_to_hex-injective : (a b : ℕ) → u128_to_hex a ≡ u128_to_hex b → a ≡ b
u128_to_hex-injective a b e = cc (read_hex-u128_to_hex a, read_hex-u128_to_hex b, ap read_hex e)

i128_to_str-injective : (a b : ℤ) → i128_to_str a ≡ i128_to_str b → a ≡ b
i128_to_str-injective a b e = cc (read_int-i128_to_str a, read_int-i128_to_str b, ap read_int e)

module _ (alloy : Alloy) (laws : AlloyLaws alloy) where
  u256_to_hex-injective :
      (a b : ℕ) → u256_to_hex alloy.u256_lower_hex a ≡ u256_to_hex alloy.u256_lower_hex b → a ≡ b
  u256_to_hex-injective a b e = cc (
    read_hex-u256_to_hex alloy.u256_lower_hex a (laws.u256_lower_hex-number a),
    read_hex-u256_to_hex alloy.u256_lower_hex b (laws.u256_lower_hex-number b),
    ap read_hex e,
  )

  -- Under the laws of alloy's printers (distinct addresses and hashes are distinct texts, a U256 is
  -- printed as a number is), two swaps in the range of their types with equal rows are the same swap.
  pub swap_row-injective :
      (a b : SwapArgs) → SwapInRange a → SwapInRange b → swap_row alloy a ≡ swap_row alloy b → a ≡ b
  unfolding swap_row
  swap_row-injective a b ra rb e =
      let pool =
        laws.debug_address-injective a.pool b.pool ra.pool rb.pool
          (ap (λ (r : SwapRow). r.pool_address) e) in
      let block =
        signed-injective (2 ^ 63) a.block b.block ra.block rb.block
          (ap (λ (r : SwapRow). r.block_number) e) in
      let ts =
        signed-injective (2 ^ 63) a.ts b.ts ra.ts rb.ts
          (ap (λ (r : SwapRow). r.block_timestamp) e) in
      let tx =
        laws.debug_hash-injective a.tx b.tx ra.tx rb.tx (ap (λ (r : SwapRow). r.tx_hash) e) in
      let log_idx =
        signed-injective (2 ^ 31) a.log_idx b.log_idx ra.log_idx rb.log_idx
          (ap (λ (r : SwapRow). r.log_index) e) in
      let sender =
        laws.debug_address-injective a.sender b.sender ra.sender rb.sender
          (ap (λ (r : SwapRow). r.sender) e) in
      let recipient =
        laws.debug_address-injective a.recipient b.recipient ra.recipient rb.recipient
          (ap (λ (r : SwapRow). r.recipient) e) in
      let amount0 = i128_to_str-injective a.amount0 b.amount0 (ap (λ (r : SwapRow). r.amount0) e) in
      let amount1 = i128_to_str-injective a.amount1 b.amount1 (ap (λ (r : SwapRow). r.amount1) e) in
      let sqrt_price =
        u256_to_hex-injective a.sqrt_price b.sqrt_price
          (ap (λ (r : SwapRow). r.sqrt_price_x96) e) in
      let liquidity =
        u128_to_hex-injective a.liquidity b.liquidity (ap (λ (r : SwapRow). r.liquidity) e) in
      let tick = ap (λ (r : SwapRow). r.tick) e in
      λ i. record {
        pool = pool i;
        block = block i;
        ts = ts i;
        tx = tx i;
        log_idx = log_idx i;
        sender = sender i;
        recipient = recipient i;
        amount0 = amount0 i;
        amount1 = amount1 i;
        sqrt_price = sqrt_price i;
        liquidity = liquidity i;
        tick = tick i;
      }

pub record LiquidityChangeInRange (a : LiquidityChangeArgs) : Type 0 where
  pub pool : a.pool < 2 ^ 160
  pub block : a.block < 2 ^ 64
  pub ts : a.ts < 2 ^ 64
  pub tx : a.tx < 2 ^ 256
  pub log_idx : a.log_idx < 2 ^ 32
  pub owner : a.owner < 2 ^ 160
  pub sender : (s : ℕ) → a.sender ≡ some s → s < 2 ^ 160

as_str-injective : (k j : LiquidityChangeKind) → as_str k ≡ as_str j → k ≡ j
as_str-injective k j e =
    cc ((from_str-as_str (as_str k) k).1 refl, (from_str-as_str (as_str j) j).1 refl, ap from_str e)

module _ (alloy : Alloy) (laws : AlloyLaws alloy) where
  map_sender-injective :
      (a b : Option ℕ)
      → ((s : ℕ) → a ≡ some s → s < 2 ^ 160)
      → ((s : ℕ) → b ≡ some s → s < 2 ^ 160)
      → map_sender alloy.debug_address a ≡ map_sender alloy.debug_address b
      → a ≡ b
  map_sender-injective none none ra rb e = refl
  map_sender-injective none (some b) ra rb e = cc
  map_sender-injective (some a) none ra rb e = cc
  map_sender-injective (some a) (some b) ra rb e =
      ap some (laws.debug_address-injective a b (ra a refl) (rb b refl) (ground arith))

  -- Under the same laws two liquidity changes in the range of their types with equal rows are the same
  -- change, its kind and the absence of a sender included.
  pub liquidity_change_row-injective :
      (a b : LiquidityChangeArgs)
      → LiquidityChangeInRange a
      → LiquidityChangeInRange b
      → liquidity_change_row alloy a ≡ liquidity_change_row alloy b
      → a ≡ b
  unfolding liquidity_change_row
  liquidity_change_row-injective a b ra rb e =
      let kind = as_str-injective a.kind b.kind (ap (λ (r : LiquidityChangeRow). r.event_type) e) in
      let pool =
        laws.debug_address-injective a.pool b.pool ra.pool rb.pool
          (ap (λ (r : LiquidityChangeRow). r.pool_address) e) in
      let block =
        signed-injective (2 ^ 63) a.block b.block ra.block rb.block
          (ap (λ (r : LiquidityChangeRow). r.block_number) e) in
      let ts =
        signed-injective (2 ^ 63) a.ts b.ts ra.ts rb.ts
          (ap (λ (r : LiquidityChangeRow). r.block_timestamp) e) in
      let tx =
        laws.debug_hash-injective a.tx b.tx ra.tx rb.tx
          (ap (λ (r : LiquidityChangeRow). r.tx_hash) e) in
      let log_idx =
        signed-injective (2 ^ 31) a.log_idx b.log_idx ra.log_idx rb.log_idx
          (ap (λ (r : LiquidityChangeRow). r.log_index) e) in
      let owner =
        laws.debug_address-injective a.owner b.owner ra.owner rb.owner
          (ap (λ (r : LiquidityChangeRow). r.owner) e) in
      let sender =
        map_sender-injective a.sender b.sender ra.sender rb.sender
          (ap (λ (r : LiquidityChangeRow). r.sender) e) in
      let amount =
        u128_to_hex-injective a.amount b.amount (ap (λ (r : LiquidityChangeRow). r.amount) e) in
      let amount0 =
        u128_to_hex-injective a.amount0 b.amount0 (ap (λ (r : LiquidityChangeRow). r.amount0) e) in
      let amount1 =
        u128_to_hex-injective a.amount1 b.amount1 (ap (λ (r : LiquidityChangeRow). r.amount1) e) in
      let tick_lower = ap (λ (r : LiquidityChangeRow). r.tick_lower) e in
      let tick_upper = ap (λ (r : LiquidityChangeRow). r.tick_upper) e in
      λ i. record {
        kind = kind i;
        pool = pool i;
        block = block i;
        ts = ts i;
        tx = tx i;
        log_idx = log_idx i;
        owner = owner i;
        sender = sender i;
        tick_lower = tick_lower i;
        tick_upper = tick_upper i;
        amount = amount i;
        amount0 = amount0 i;
        amount1 = amount1 i;
      }
