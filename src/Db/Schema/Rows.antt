-- ===== src/Db/Schema/Rows.antt =====
-- src/db: the rows of models.rs against the tables of schema.rs.
use v3_node.Base.{
  ℕ, ◌^◌, ◌<◌, ◌≡◌, ◌↔◌, refl, ap, sym, ◌∙◌, map, Bool, true, false, not, ◌&&◌, ◌||◌, List, [], ◌∷◌,
  Option, none, some, if◌then◌else◌,
}
use v3_node.Base.Int.{ℤ, pos, signed, signed-injective}
use v3_node.Db.Text.{Text, codes}
use v3_node.Db.Models.{
  Alloy, text_eq, LiquidityChangeKind, mint, burn, as_str, SwapArgs, SwapRow, swap_row,
  LiquidityChangeArgs, LiquidityChangeRow, liquidity_change_row,
}
use v3_node.Db.Models.Lossless.{AlloyLaws}
use v3_node.Db.Schema.{integer, text, Column, unique_key, swaps_columns, liquidity_changes_columns}

-- A value in a column.
pub data Value : Type 0 where
  int : ℤ → Value
  txt : Text → Value
  null : Value

abbrev pub Cells : Type 0
Cells = List (Text × Value)

unfoldable pub cell : Text → Cells → Value
cell name [] = null
cell name ((n, v) ∷ cells) = if text_eq n name then v else cell name cells

unfoldable pub allows : List Text → Text → Bool
allows [] t = false
allows (a ∷ as_) t = text_eq a t || allows as_ t

-- Whether a value of the column's type may stand in the column.
unfoldable pub fits : Column → Value → Bool
unfolding allows
fits c null = not c.not_null
fits c (int z) = elim c.column_type [ integer ↦ true | text ↦ false ]
fits c (txt t) = elim c.column_type [
  | integer ↦ false
  | text ↦ elim c.allowed [ [] ↦ true | a ∷ more ↦ allows (a ∷ more) t ]
]

unfoldable pub accepts : List Column → Cells → Bool
unfolding cell fits
accepts [] cells = true
accepts (c ∷ columns) cells = fits c (cell c.name cells) && accepts columns cells

abbrev opt : Option Text → Value
opt none = null
opt (some t) = txt t

-- The columns that the fields of a row stand for, under the fields' names.
unfoldable pub swap_cells : SwapRow → Cells
swap_cells r =
    (codes "pool_address", txt r.pool_address)
    ∷ (codes "block_number", int r.block_number)
    ∷ (codes "tx_hash", txt r.tx_hash)
    ∷ (codes "log_index", int r.log_index)
    ∷ (codes "block_timestamp", int r.block_timestamp)
    ∷ (codes "sender", txt r.sender)
    ∷ (codes "recipient", txt r.recipient)
    ∷ (codes "amount0", txt r.amount0)
    ∷ (codes "amount1", txt r.amount1)
    ∷ (codes "sqrt_price_x96", txt r.sqrt_price_x96)
    ∷ (codes "liquidity", txt r.liquidity)
    ∷ (codes "tick", int r.tick)
    ∷ []

unfoldable pub liquidity_change_cells : LiquidityChangeRow → Cells
liquidity_change_cells r =
    (codes "event_type", txt r.event_type)
    ∷ (codes "pool_address", txt r.pool_address)
    ∷ (codes "block_number", int r.block_number)
    ∷ (codes "tx_hash", txt r.tx_hash)
    ∷ (codes "log_index", int r.log_index)
    ∷ (codes "block_timestamp", int r.block_timestamp)
    ∷ (codes "owner", txt r.owner)
    ∷ (codes "sender", opt r.sender)
    ∷ (codes "tick_lower", int r.tick_lower)
    ∷ (codes "tick_upper", int r.tick_upper)
    ∷ (codes "amount", txt r.amount)
    ∷ (codes "amount0", txt r.amount0)
    ∷ (codes "amount1", txt r.amount1)
    ∷ []

module _ (alloy : Alloy) where
  swap_accepted : (a : SwapArgs) → accepts swaps_columns (swap_cells (swap_row alloy a)) ≡ true
  unfolding accepts swap_cells swap_row swaps_columns
  swap_accepted a = refl

  change_accepted :
      (kind : LiquidityChangeKind) (sender : Option ℕ) (a : LiquidityChangeArgs)
      → accepts liquidity_changes_columns (
          liquidity_change_cells
            (liquidity_change_row alloy (record a { kind = kind; sender = sender })))
        ≡ true
  unfolding accepts liquidity_change_cells liquidity_change_row liquidity_changes_columns as_str
  change_accepted mint none a = refl
  change_accepted mint (some s) a = refl
  change_accepted burn none a = refl
  change_accepted burn (some s) a = refl

  -- Every row that `new` builds meets the column types, the NOT NULL and the CHECK constraints of its
  -- table, the sender of a liquidity change missing or not.
  pub rows_accepted :
      (a : SwapArgs) (b : LiquidityChangeArgs)
      → (accepts swaps_columns (swap_cells (swap_row alloy a)) ≡ true)
        × (accepts liquidity_changes_columns (liquidity_change_cells (liquidity_change_row alloy b))
            ≡ true)
  rows_accepted a b = (swap_accepted a, change_accepted b.kind b.sender b)

-- What the UNIQUE constraint of a table compares: the values in the columns of its key.
abbrev pub key_of : Cells → List Value
key_of cells = map (λ name. cell name cells) unique_key

-- The place of a log: the transaction's hash and the index in it are of their types.
abbrev pub LogInRange : ℕ → ℕ → Type 0
LogInRange tx log = (tx < 2 ^ 256) × (log < 2 ^ 32)

swap_key : (r : SwapRow) → key_of (swap_cells r) ≡ txt r.tx_hash ∷ int r.log_index ∷ []
unfolding swap_cells cell
swap_key r = refl

change_key :
    (r : LiquidityChangeRow)
    → key_of (liquidity_change_cells r) ≡ txt r.tx_hash ∷ int r.log_index ∷ []
unfolding liquidity_change_cells cell
change_key r = refl

abbrev hash_in : List Value → Text
hash_in (txt t ∷ values) = t
hash_in _ = []

abbrev index_in : List Value → ℤ
index_in (value ∷ int z ∷ values) = z
index_in _ = pos 0

module _ (alloy : Alloy) (laws : AlloyLaws alloy) where
  key-log :
      (tx log tx' log' : ℕ)
      → LogInRange tx log
      → LogInRange tx' log'
      → txt (alloy.debug_hash tx) ∷ int (signed (2 ^ 31) log) ∷ []
        ≡ txt (alloy.debug_hash tx') ∷ int (signed (2 ^ 31) log') ∷ []
      → (tx ≡ tx') × (log ≡ log')
  key-log tx log tx' log' r r' e = (
    laws.debug_hash-injective tx tx' r.0 r'.0 (ap hash_in e),
    signed-injective (2 ^ 31) log log' r.1 r'.1 (ap index_in e),
  )

  -- If alloy prints distinct hashes as distinct texts, two rows of a table, of logs in the range of
  -- their types, agree on its unique key exactly if they are of the same log of the same transaction.
  pub unique_key-log :
      (a b : SwapArgs) (c d : LiquidityChangeArgs)
      → LogInRange a.tx a.log_idx
      → LogInRange b.tx b.log_idx
      → LogInRange c.tx c.log_idx
      → LogInRange d.tx d.log_idx
      → ((key_of (swap_cells (swap_row alloy a)) ≡ key_of (swap_cells (swap_row alloy b)))
          ↔ ((a.tx ≡ b.tx) × (a.log_idx ≡ b.log_idx)))
        × ((key_of (liquidity_change_cells (liquidity_change_row alloy c))
              ≡ key_of (liquidity_change_cells (liquidity_change_row alloy d)))
            ↔ ((c.tx ≡ d.tx) × (c.log_idx ≡ d.log_idx)))
  unfolding swap_row liquidity_change_row
  unique_key-log a b c d ra rb rc rd =
      let swap_a = swap_key (swap_row alloy a) in
      let swap_b = swap_key (swap_row alloy b) in
      let change_c = change_key (liquidity_change_row alloy c) in
      let change_d = change_key (liquidity_change_row alloy d) in
      (
        (
          λ e. key-log a.tx a.log_idx b.tx b.log_idx ra rb (sym swap_a ∙ e ∙ swap_b),
          λ (tx, log). swap_a ∙ cc (tx, log) ∙ sym swap_b,
        ),
        (
          λ e. key-log c.tx c.log_idx d.tx d.log_idx rc rd (sym change_c ∙ e ∙ change_d),
          λ (tx, log). change_c ∙ cc (tx, log) ∙ sym change_d,
        ),
      )
