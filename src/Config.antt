-- ===== src/Config.antt =====
-- src/config/mod.rs: the pools to watch, and their file.
use v3_node.Base.{ℕ, List, Result, ok, err}
use v3_node.Db.Text.{Text}

pub record TokenConfig : Type 0 where
  pub decimals : ℕ
  pub address : Text
  pub symbol : Text

pub record PoolConfig : Type 0 where
  pub fee_tier : ℕ
  pub address : Text
  pub token0 : TokenConfig
  pub token1 : TokenConfig
  pub router : Text
  pub exchange : Text
  pub creation_block : ℕ

-- `Box<dyn Error>`: the file could not be read, or its text is no list of pools.
pub data LoadError (Io Json : Type 0) : Type 0 where
  unreadable : Io → LoadError Io Json
  malformed : Json → LoadError Io Json

-- The file system and serde_json are parameters.
module _ {Path' Io Json : Type 0} where
  unfoldable pub load_pools :
      (Path' → Result Text Io)
      → (Text → Result (List PoolConfig) Json)
      → Path'
      → Result (List PoolConfig) (LoadError Io Json)
  load_pools read_to_string from_str path = elim (read_to_string path) [
    | err e ↦ err (unreadable e)
    | ok contents ↦ elim (from_str contents) [ err e ↦ err (malformed e) | ok pools ↦ ok pools ]
  ]
