-- ===== src/Db/Schema.antt =====
-- src/db/schema.rs: the tables, the indices, and the migrations.
pub mod Rows
pub mod Migrate
pub mod Bounds
mod Tests
use v3_node.Base.{
  ℕ, Bool, true, false, not, ◌&&◌, ◌||◌, List, [], ◌∷◌, Option, none, some, Result, ok, err, String,
  if◌then◌else◌,
}
use v3_node.Base.Int.{ℤ}
use v3_node.Db.Text.{Text, codes}
use v3_node.Db.Models.{text_eq, SwapRow, LiquidityChangeRow}

pub data ColumnType : Type 0 where
  integer text : ColumnType

-- A column: its type, whether it is NOT NULL, and the texts that a CHECK allows, if there is one.
pub record Column : Type 0 where
  pub name : Text
  pub column_type : ColumnType
  pub not_null : Bool
  pub allowed : List Text

-- CREATE TABLE and CREATE INDEX; the first argument says whether there is an IF NOT EXISTS. Each table
-- has, in front of its columns, an `id INTEGER PRIMARY KEY AUTOINCREMENT`.
pub data Statement : Type 0 where
  create_table : Bool → Text → List Column → List Text → Statement
  create_index : Bool → Text → Text → List Text → Statement

abbrev required : String → ColumnType → Column
required name t = record { name = codes name; column_type = t; not_null = true; allowed = [] }

abbrev pub names : List String → List Text
names [] = []
names (s ∷ ss) = codes s ∷ names ss

unfoldable pub swaps_columns : List Column
swaps_columns =
    required "pool_address" text
    ∷ required "block_number" integer
    ∷ required "block_timestamp" integer
    ∷ required "tx_hash" text
    ∷ required "log_index" integer
    ∷ required "sender" text
    ∷ required "recipient" text
    ∷ required "amount0" text
    ∷ required "amount1" text
    ∷ required "sqrt_price_x96" text
    ∷ required "liquidity" text
    ∷ required "tick" integer
    ∷ []

unfoldable pub liquidity_changes_columns : List Column
liquidity_changes_columns =
    record {
      name = codes "event_type";
      column_type = text;
      not_null = true;
      allowed = codes "mint" ∷ codes "burn" ∷ [];
    }
    ∷ required "pool_address" text
    ∷ required "block_number" integer
    ∷ required "block_timestamp" integer
    ∷ required "tx_hash" text
    ∷ required "log_index" integer
    ∷ required "owner" text
    ∷ record { name = codes "sender"; column_type = text; not_null = false; allowed = [] }
    ∷ required "tick_lower" integer
    ∷ required "tick_upper" integer
    ∷ required "amount" text
    ∷ required "amount0" text
    ∷ required "amount1" text
    ∷ []

-- UNIQUE (tx_hash, log_index), of both tables.
abbrev pub unique_key : List Text
unique_key = names ("tx_hash" ∷ "log_index" ∷ [])

unfoldable pub migrations : List Statement
migrations =
    create_table true (codes "swaps") swaps_columns unique_key
    ∷ create_index true (codes "idx_swaps_pool_block") (codes "swaps")
        (names ("pool_address" ∷ "block_number" ∷ []))
    ∷ create_table true (codes "liquidity_changes") liquidity_changes_columns unique_key
    ∷ create_index true (codes "idx_lc_pool_block") (codes "liquidity_changes")
        (names ("pool_address" ∷ "block_number" ∷ []))
    ∷ create_index true (codes "idx_lc_pool_owner_ticks") (codes "liquidity_changes")
        (names ("pool_address" ∷ "owner" ∷ "tick_lower" ∷ "tick_upper" ∷ []))
    ∷ []

-- The table or the index that a statement creates.
abbrev pub name_of : Statement → Text
name_of (create_table guarded name columns unique) = name
name_of (create_index guarded name table columns) = name

-- Whether it says IF NOT EXISTS.
abbrev pub if_not_exists : Statement → Bool
if_not_exists (create_table guarded name columns unique) = guarded
if_not_exists (create_index guarded name table columns) = guarded

-- What the migrations take from rusqlite: a connection's state, and the execution of one statement.
pub record Sqlite : Type 1 where
  pub Connection : Type 0
  pub Error : Type 0
  pub execute_batch : Statement → Connection → Result (Unit {0}) Error × Connection

module _ (sqlite : Sqlite) where
  unfoldable pub execute_all :
      List Statement → sqlite.Connection → Result (Unit {0}) sqlite.Error × sqlite.Connection
  execute_all [] conn = (ok tt, conn)
  execute_all (sql ∷ rest) conn =
      let (r, conn') = sqlite.execute_batch sql conn in
      elim r [ ok u ↦ execute_all rest conn' | err e ↦ (err e, conn') ]

  unfoldable pub run_migrations :
      sqlite.Connection → Result (Unit {0}) sqlite.Error × sqlite.Connection
  run_migrations conn = execute_all migrations conn
