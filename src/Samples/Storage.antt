-- ===== src/Samples/Storage.antt =====
-- Printers and a database for the tests of src/db.
use v3_node.Base.{
  ℕ, ◌≡◌, refl, ap, ◌^◌, true, List, ◌∷◌, none, Result, ok, err, if◌then◌else◌, arith,
}
use v3_node.Base.Int.{pos, negsuc}
use v3_node.Db.Text.{Text, lower_hex, u128_to_hex}
use v3_node.Db.Text.RoundTrip.{read_hex, read_hex-u128_to_hex}
use v3_node.Db.Models.{Alloy, SwapArgs, LiquidityChangeArgs, burn}
use v3_node.Db.Models.Kind.{text_eq_self}
use v3_node.Db.Models.Lossless.{AlloyLaws}
use v3_node.Db.Schema.{Statement, name_of, if_not_exists, Sqlite}
use v3_node.Db.Schema.Rows.{allows}
use v3_node.Db.Schema.Migrate.{Catalog}

-- Addresses and hashes printed as plain numbers in hexadecimal.
abbrev pub printers : Alloy
printers = record {
  u256_lower_hex = lower_hex;
  debug_address = u128_to_hex;
  debug_hash = u128_to_hex;
}

hex-injective : (a b : ℕ) → u128_to_hex a ≡ u128_to_hex b → a ≡ b
hex-injective a b e = cc (read_hex-u128_to_hex a, read_hex-u128_to_hex b, ap read_hex e)

pub printers-AlloyLaws : AlloyLaws printers
printers-AlloyLaws = record {
  u256_lower_hex-number = λ n. refl;
  debug_address-injective = λ a b h k e. hex-injective a b e;
  debug_hash-injective = λ a b h k e. hex-injective a b e;
}

abbrev pub a_swap : SwapArgs
a_swap = record {
  pool = 1;
  block = 30_000_000;
  ts = 1_700_000_000;
  tx = 77;
  log_idx = 3;
  sender = 4;
  recipient = 5;
  amount0 = pos 10;
  amount1 = negsuc 8;
  sqrt_price = 2 ^ 96;
  liquidity = 1000;
  tick = negsuc 2;
}

abbrev pub a_burn : LiquidityChangeArgs
a_burn = record {
  kind = burn;
  pool = 1;
  block = 30_000_000;
  ts = 1_700_000_000;
  tx = 78;
  log_idx = 0;
  owner = 4;
  sender = none;
  tick_lower = negsuc 59;
  tick_upper = pos 60;
  amount = 500;
  amount0 = 3;
  amount1 = 4;
}

-- A database is the names of its tables and indices.
abbrev pub create : Statement → List Text → Result (Unit {0}) ℕ × List Text
create s there =
    if allows there (name_of s)
    then (if if_not_exists s then ok tt else err 1, there)
    else (ok tt, name_of s ∷ there)

abbrev pub database : Sqlite
database = record { Connection = List Text; Error = ℕ; execute_batch = create }

create_self :
    (s : Statement) (there there' : List Text)
    → create s there ≡ (ok tt, there')
    → allows there' (name_of s) ≡ true
unfolding allows
create_self s there there' h = ground (arith, text_eq_self (name_of s))

create-keeps :
    (s : Statement) (there there' : List Text) (name : Text)
    → create s there ≡ (ok tt, there')
    → allows there name ≡ true
    → allows there' name ≡ true
unfolding allows
create-keeps s there there' name h k = ground arith

pub database-Catalog : Catalog database
database-Catalog = record {
  has = λ name conn. allows conn name;
  creates = create_self;
  keeps = create-keeps;
  exists = λ s conn g h. ground arith;
}
