-- ===== src/Db/Schema/Tests.antt =====
-- src/db/schema.rs at concrete databases.
use v3_node.Base.{ℕ, ◌^◌, ◌≡◌, ◌↔◌, refl, true, List, [], ◌∷◌, err, arith}
use v3_node.Base.Int.{pos, negsuc}
use v3_node.Db.Text.{Text, codes}
use v3_node.Db.Models.{swap_row, liquidity_change_row}
use v3_node.Db.Schema.{
  Sqlite, swaps_columns, liquidity_changes_columns, migrations, execute_all, run_migrations,
}
use v3_node.Db.Schema.Rows.{
  accepts, swap_cells, liquidity_change_cells, rows_accepted, unique_key-log, key_of,
}
use v3_node.Db.Schema.Bounds.{Exact, rows-Exact}
use v3_node.Db.Schema.Migrate.{FailedAt, run_migrations-err}
use v3_node.Samples.Storage.{printers, printers-AlloyLaws, a_swap, a_burn}

abbrev migrated : List Text
migrated =
    codes "idx_lc_pool_owner_ticks"
    ∷ codes "idx_lc_pool_block"
    ∷ codes "liquidity_changes"
    ∷ codes "idx_swaps_pool_block"
    ∷ codes "swaps"
    ∷ []

-- A connection that is closed refuses everything.
abbrev closed : Sqlite
closed = record { Connection = ℕ; Error = ℕ; execute_batch = λ s conn. (err 21, conn) }

refuses : run_migrations closed 5 ≡ (err 21, 5)
unfolding run_migrations execute_all migrations
refuses = refl

run_migrations-err_example : FailedAt closed migrations 5 21 5
run_migrations-err_example = run_migrations-err closed 5 5 21 refuses

rows_accepted_example :
    (accepts swaps_columns (swap_cells (swap_row printers a_swap)) ≡ true)
    × (accepts liquidity_changes_columns
          (liquidity_change_cells (liquidity_change_row printers a_burn))
        ≡ true)
rows_accepted_example = rows_accepted printers a_swap a_burn

unique_key-log_example :
    ((key_of (swap_cells (swap_row printers a_swap))
        ≡ key_of (swap_cells (swap_row printers a_swap)))
      ↔ ((a_swap.tx ≡ a_swap.tx) × (a_swap.log_idx ≡ a_swap.log_idx)))
    × ((key_of (liquidity_change_cells (liquidity_change_row printers a_burn))
          ≡ key_of (liquidity_change_cells (liquidity_change_row printers a_burn)))
        ↔ ((a_burn.tx ≡ a_burn.tx) × (a_burn.log_idx ≡ a_burn.log_idx)))
unique_key-log_example =
    unique_key-log printers printers-AlloyLaws a_swap a_swap a_burn a_burn
      (omega arith, omega arith) (omega arith, omega arith) (omega arith, omega arith)
      (omega arith, omega arith)

rows-Exact_example :
    Exact (2 ^ 63) (swap_row printers a_swap).block_number 30_000_000
    × Exact (2 ^ 63) (swap_row printers a_swap).block_timestamp 1_700_000_000
    × Exact (2 ^ 31) (swap_row printers a_swap).log_index 3
    × ((swap_row printers a_swap).tick ≡ negsuc 2)
    × Exact (2 ^ 63) (liquidity_change_row printers a_burn).block_number 30_000_000
    × Exact (2 ^ 63) (liquidity_change_row printers a_burn).block_timestamp 1_700_000_000
    × Exact (2 ^ 31) (liquidity_change_row printers a_burn).log_index 0
    × ((liquidity_change_row printers a_burn).tick_lower ≡ negsuc 59)
    × ((liquidity_change_row printers a_burn).tick_upper ≡ pos 60)
rows-Exact_example = rows-Exact printers a_swap a_burn
