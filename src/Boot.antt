-- ===== src/Boot.antt =====
-- src/main.rs, with the bootstrap of the network in src/network/manager.rs.
pub mod Started
mod Tests
use v3_node.Base.{
  ℕ, Bool, true, String, List, Option, none, some, Result, ok, err, Run, panic, done,
}
use v3_node.Base.HashMap.{Hasher}
use v3_node.AppError.{AppError, network}
use v3_node.Peer.{Net}
use v3_node.Manager.System.{System, launched}
use v3_node.Chain.{Head, head}
use v3_node.Chain.Spec.{SpecCodec, ChainSpec, bsc_chain_spec, bootnodes}
use v3_node.Config.{PoolConfig, LoadError, load_pools}
use v3_node.Db.Text.{Text}
use v3_node.Db.Schema.{Statement, Sqlite, run_migrations}

-- The paths on the command line, and their defaults.
pub record Cli : Type 0 where
  pub db : String
  pub pools : String

abbrev pub default_cli : Cli
default_cli = record { db = "data/v3_node.db"; pools = "data/pools.json" }

-- `BscHandshake::default()`
pub data HandshakeKind : Type 0 where
  bsc_handshake : HandshakeKind

-- What is given to the builder of the network.
pub record NetworkConfig (codec : SpecCodec) (Key : Type 0) : Type 0 where
  pub secret_key : Key
  pub boot_nodes : List codec.NodeRecord
  pub head : Head
  pub pow : Bool
  pub rlpx_handshake : HandshakeKind
  pub chain_spec : ChainSpec codec

-- What the start takes from clap, the file system, serde_json, rusqlite and reth.
pub record Platform (net : Net) (codec : SpecCodec) : Type 1 where
  pub Connection : Type 0
  pub DbError : Type 0
  pub Key : Type 0
  pub Network : Type 0
  pub TxEvents : Type 0
  pub NetworkError : Type 0
  pub Io : Type 0
  pub Json : Type 0
  -- none if the arguments are wrong and the program ends
  pub parse_args : Cli → net.World → Option Cli × net.World
  pub read_to_string : net.World → String → Result Text Io
  pub pools_from_str : Text → Result (List PoolConfig) Json
  pub open_connection : String → net.World → Result Connection DbError × net.World
  -- what a statement does to the database is in the world, since a connection is only read
  pub execute_batch : Connection → Statement → net.World → Result (Unit {0}) DbError × net.World
  pub rng_secret_key : net.World → Key × net.World
  pub connect :
      NetworkConfig codec Key → net.World → Result (Network × TxEvents) NetworkError × net.World
  pub error_text : NetworkError → String

-- The node with its pools and its database; its handle and its subscription are to the manager of the
-- `System` that runs beside it.
pub record Node (Connection TxEvents : Type 0) : Type 0 where
  pub pool_config : List PoolConfig
  pub db : Connection
  pub tx_events : TxEvents

module _ (net : Net) (hasher : Hasher) (codec : SpecCodec) (platform : Platform net codec) where
  open platform use {Connection, DbError, Key, Network, TxEvents, Io}

  abbrev pub config_with : Key → ChainSpec codec → NetworkConfig codec Key
  config_with key spec = record {
    secret_key = key;
    boot_nodes = bootnodes codec;
    head = head;
    pow = true;
    rlpx_handshake = bsc_handshake;
    chain_spec = spec;
  }

  -- `.map_err(|e| AppError::Network(e.to_string()))?`
  abbrev pub connected :
      Result (Network × TxEvents) platform.NetworkError → Result (Network × TxEvents) (AppError Io)
  connected (ok parts) = ok parts
  connected (err e) = err (network (platform.error_text e))

  unfoldable pub start_network :
      net.World → Run (Result (Network × TxEvents) (AppError Io)) × net.World
  start_network w =
      let (key, w') = platform.rng_secret_key w in
      elim (bsc_chain_spec codec) [
        | panic ↦ (panic, w')
        | done spec ↦
            let (r, w'') = platform.connect (config_with key spec) w' in (done (connected r), w'')
      ]

  -- How the program goes: it never starts, or the node and the manager run.
  pub data Exit : Type 0 where
    usage : Exit
    panicked : Exit
    failed_database : DbError → Exit
    failed_network : AppError Io → Exit
    started : Node Connection TxEvents → System net → Exit

  -- SQLite through one connection.
  abbrev pub sqlite_on : Connection → Sqlite
  sqlite_on conn = record {
    Connection = net.World;
    Error = DbError;
    execute_batch = platform.execute_batch conn;
  }

  unfoldable pub with_database : List PoolConfig → Connection → net.World → Exit × net.World
  with_database pools conn w =
      let (migrated, w₁) = run_migrations (sqlite_on conn) w in
      elim migrated [
        | err e ↦ (failed_database e, w₁)
        | ok u ↦
            let (joined, w') = start_network w₁ in
            elim joined [
              | panic ↦ (panicked, w')
              | done (err e) ↦ (failed_network e, w')
              | done (ok (handle, tx_events)) ↦ (
                started (record { pool_config = pools; db = conn; tx_events = tx_events })
                    (launched net hasher w'),
                w',
              )
            ]
      ]

  unfoldable pub with_args : Cli → net.World → Exit × net.World
  with_args cli w =
      elim (load_pools (platform.read_to_string w) platform.pools_from_str cli.pools) [
        | err e ↦ (panicked, w)
        | ok pools ↦
            let (opened, w') = platform.open_connection cli.db w in
            elim opened [ err e ↦ (failed_database e, w') | ok conn ↦ with_database pools conn w' ]
      ]

  unfoldable pub main : net.World → Exit × net.World
  main w =
      let (parsed, w') = platform.parse_args default_cli w in
      elim parsed [ none ↦ (usage, w') | some cli ↦ with_args cli w' ]
