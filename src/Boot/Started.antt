-- ===== src/Boot/Started.antt =====
-- src/main.rs: what is behind a node that started, and behind a start that failed.
use v3_node.Base.{Option-cases, Run-cases, Result-cases, ◌≡◌, inl, inr, List, some, ok, done, arith}
use v3_node.Base.HashMap.{Hasher}
use v3_node.Peer.{Net}
use v3_node.Manager.System.{System, launched}
use v3_node.Chain.Spec.{SpecCodec, ChainSpec, bsc_chain_spec}
use v3_node.Config.{PoolConfig, load_pools}
use v3_node.Db.Schema.{run_migrations}
use v3_node.Db.Schema.Migrate.{Catalog, AllThere, objects, run_migrations_twice}
use v3_node.Boot.{
  Cli, default_cli, Platform, Node, sqlite_on, config_with, start_network, Exit, started,
  with_database, with_args, main,
}

module _ (net : Net) (hasher : Hasher) (codec : SpecCodec) (platform : Platform net codec) where
  abbrev Ends : Type 0
  Ends = Exit net hasher codec platform × net.World

  -- The network that a node is on: its spec, and the parts that the network stack gave.
  pub record Joined (w : net.World) (tx_events : platform.TxEvents) (w' : net.World) : Type 0 where
    pub spec : ChainSpec codec
    pub handle : platform.Network
    pub reads : bsc_chain_spec codec ≡ done spec
    pub joins :
        platform.connect
          (config_with net hasher codec platform (platform.rng_secret_key w).0 spec)
          (platform.rng_secret_key w).1
        ≡ (ok (handle, tx_events), w')

  start_network-Joined :
      (w w' : net.World) (handle : platform.Network) (tx_events : platform.TxEvents)
      → start_network net hasher codec platform w ≡ (done (ok (handle, tx_events)), w')
      → Joined w tx_events w'
  unfolding start_network
  start_network-Joined w w' handle tx_events e = elim (Run-cases (bsc_chain_spec codec)) [
    | inl stops ↦ absurd (ground (arith, stops))
    | inr (spec, reads) ↦
        let (key, w₁) = platform.rng_secret_key w in
        let config = config_with net hasher codec platform key spec in
        elim (Result-cases (platform.connect config w₁).0) [
          | inl ((h, t), joins) ↦ record {
            spec = spec;
            handle = handle;
            reads = reads;
            joins = ground (arith, reads, joins);
          }
          | inr (x, refused) ↦ absurd (ground (arith, reads, refused))
        ]
  ]

  with_database-started :
      (pools : List PoolConfig) (conn : platform.Connection) (w w' : net.World)
      (node : Node platform.Connection platform.TxEvents) (system : System net)
      → with_database net hasher codec platform pools conn w ≡ (started node system, w')
      → (node.pool_config ≡ pools)
        × (node.db ≡ conn)
        × (w₁ : net.World) × (run_migrations (sqlite_on net hasher codec platform conn) w
            ≡ (ok tt, w₁))
        × (handle : platform.Network) × (start_network net hasher codec platform w₁
            ≡ (done (ok (handle, node.tx_events)), w'))
        × (system ≡ launched net hasher w')
  unfolding with_database
  with_database-started pools conn w w' node system e =
      let w₁ = (run_migrations (sqlite_on net hasher codec platform conn) w).1 in
      elim (Result-cases (run_migrations (sqlite_on net hasher codec platform conn) w).0) [
        | inl (u, migrated) ↦ elim (Run-cases (start_network net hasher codec platform w₁).0) [
          | inl stops ↦ absurd (ground (arith, migrated, stops))
          | inr (joined, runs) ↦ elim (Result-cases joined) [
            | inl ((handle, tx_events), good) ↦ (
              ground (arith, migrated, runs, good),
              ground (arith, migrated, runs, good),
              w₁,
              ground (arith, migrated),
              handle,
              ground (arith, migrated, runs, good),
              ground (arith, migrated, runs, good),
            )
            | inr (x, bad) ↦ absurd (ground (arith, migrated, runs, bad))
          ]
        ]
        | inr (x, refused) ↦ absurd (ground (arith, refused))
      ]

  -- A node that started, from its beginning.
  pub record Started (w : net.World) (node : Node platform.Connection platform.TxEvents)
      (system : System net) (w' : net.World) : Type 0 where
    pub cli : Cli
    pub migrated : net.World
    pub loads :
        load_pools
          (platform.read_to_string (platform.parse_args default_cli w).1)
          platform.pools_from_str
          cli.pools
        ≡ ok node.pool_config
    pub parses : (platform.parse_args default_cli w).0 ≡ some cli
    pub opens :
        (platform.open_connection cli.db (platform.parse_args default_cli w).1).0 ≡ ok node.db
    pub migrates :
        run_migrations
          (sqlite_on net hasher codec platform node.db)
          (platform.open_connection cli.db (platform.parse_args default_cli w).1).1
        ≡ (ok tt, migrated)
    pub joined : Joined migrated node.tx_events w'
    pub launches : system ≡ launched net hasher w'

  pub main-Started :
      (w w' : net.World) (node : Node platform.Connection platform.TxEvents) (system : System net)
      → main net hasher codec platform w ≡ (started node system, w')
      → Started w node system w'
  unfolding main with_args
  main-Started w w' node system e = elim (Option-cases (platform.parse_args default_cli w).0) [
    | inl missing ↦ absurd (ground (arith, missing))
    | inr (cli, parses) ↦
        let w₁ = (platform.parse_args default_cli w).1 in
        elim (Result-cases
          (load_pools (platform.read_to_string w₁) platform.pools_from_str cli.pools)) [
            | inl (pools, loads) ↦
                let w₂ = (platform.open_connection cli.db w₁).1 in
                elim (Result-cases (platform.open_connection cli.db w₁).0) [
                  | inl (conn, opens) ↦
                      let (same, db, w₃, migrates, handle, joins, launches) =
                        with_database-started pools conn w₂ w' node system
                          (ground (arith, parses, loads, opens)) in
                      record {
                        cli = cli;
                        migrated = w₃;
                        loads = ground (arith, loads, same);
                        parses = parses;
                        opens = ground (arith, opens, db);
                        migrates = ground (arith, migrates, db);
                        joined = start_network-Joined w₃ w' handle node.tx_events joins;
                        launches = launches;
                      }
                  | inr (x, closed) ↦ absurd (ground (arith, parses, loads, closed))
                ]
            | inr (x, unread) ↦ absurd (ground (arith, parses, unread))
          ]
  ]

  -- If SQLite does as it documents, the database of a node that started has every table and index,
  -- at the time when the network is joined.
  pub main-AllThere :
      (w w' : net.World) (node : Node platform.Connection platform.TxEvents) (system : System net)
      (catalog : Catalog (sqlite_on net hasher codec platform node.db))
      → main net hasher codec platform w ≡ (started node system, w')
      → (w₁ : net.World) × AllThere (sqlite_on net hasher codec platform node.db) catalog objects w₁
        × Joined w₁ node.tx_events w'
  main-AllThere w w' node system catalog e =
      let s = main-Started w w' node system e in
      let (there, again) =
        run_migrations_twice (sqlite_on net hasher codec platform node.db) catalog _ s.migrated
          s.migrates in
      (s.migrated, there, s.joined)
