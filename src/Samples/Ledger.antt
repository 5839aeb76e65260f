-- ===== src/Samples/Ledger.antt =====
-- Concrete transactions, addresses and pools, used by the tests only.
use v3_node.Base.{ℕ, zero, suc, List, [], ◌∷◌, Option, ◌==◌, if◌then◌else◌}
use v3_node.Config.{PoolConfig, TokenConfig}
use v3_node.Db.Text.{Text, codes}
use v3_node.Node.{Alloy}
use v3_node.Samples.{network}

abbrev zeros : ℕ → Text
zeros zero = []
zeros (suc n) = b'0' ∷ zeros n

-- The receiver of a transaction, its hash, and its input.
abbrev pub Transfer : Type 0
Transfer = Option ℕ × ℕ × List ℕ

-- Address 7 is printed with letters in two cases.
abbrev pub ledger : Alloy network
ledger = record {
  Tx = Transfer;
  Signer = ℕ;
  to = λ tx. tx.0;
  hash = λ tx. tx.1;
  recover_signer = λ tx. 3;
  input = λ tx. tx.2;
  address_to_string = λ a. (if a == 7 then codes "0xAb" else codes "0x12");
  id_lower_hex = λ id. zeros 128;
  default_reason = 0;
}

abbrev token : TokenConfig
token = record { decimals = 18; address = codes "0x55"; symbol = codes "USDT" }

abbrev pub pool_at : Text → PoolConfig
pool_at address = record {
  fee_tier = 500;
  address = address;
  token0 = token;
  token1 = token;
  router = codes "0x13";
  exchange = codes "PancakeSwap V3";
  creation_block = 26970848;
}

abbrev pub watched : List PoolConfig
watched = pool_at (codes "0xab") ∷ pool_at (codes "0x12") ∷ []
