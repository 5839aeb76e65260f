-- ===== src/Boot/Tests.antt =====
-- src/main.rs on a platform that starts, and on one whose disk is full.
use v3_node.Base.{ℕ}
use v3_node.Boot.{Node}
use v3_node.Boot.Started.{Started}
use v3_node.Samples.Ledger.{watched}

abbrev node : Node ℕ ℕ
node = record { pool_config = watched; db = 3; tx_events = 1 }
