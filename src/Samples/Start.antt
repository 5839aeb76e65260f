-- ===== src/Samples/Start.antt =====
-- A platform that starts, and one whose disk is full, used by the tests only.
use v3_node.Base.{ℕ, ◌+◌, [], ◌∷◌, some, length, Result, ok, err}
use v3_node.Chain.Spec.{SpecCodec}
use v3_node.Boot.{Platform}
use v3_node.Samples.{network}
use v3_node.Samples.Ledger.{watched}

abbrev pub codec : SpecCodec
codec = record {
  Genesis = ℕ;
  Header = ℕ;
  BlockHash = ℕ;
  NodeRecord = ℕ;
  genesis_json = "{}";
  parse_genesis = λ s. some 1;
  parse_block_hash = λ s. some 2;
  make_genesis_header = λ g forks. length forks;
  parse_nodes = λ urls. length urls ∷ [];
}

-- The opening of the database and the execution of a statement are the parameters.
abbrev platform_with :
    (ℕ × ℕ → Result ℕ ℕ × (ℕ × ℕ))
    → (ℕ × ℕ → Result (Unit {0}) ℕ × (ℕ × ℕ))
    → Platform network codec
platform_with open_it execute_it = record {
  Connection = ℕ;
  DbError = ℕ;
  Key = ℕ;
  Network = ℕ;
  TxEvents = ℕ;
  NetworkError = ℕ;
  Io = ℕ;
  Json = ℕ;
  parse_args = λ defaults w. (some defaults, w);
  read_to_string = λ w path. ok [];
  pools_from_str = λ text. ok watched;
  open_connection = λ path w. open_it w;
  execute_batch = λ conn statement w. execute_it w;
  rng_secret_key = λ w. (7, w);
  connect = λ config w. (ok (0, 1), w);
  error_text = λ e. "no route";
}

-- The world counts the statements, beside the channels.
abbrev pub working : Platform network codec
working = platform_with (λ w. (ok 3, w)) (λ w. (ok tt, (w.0, w.1 + 1)))

-- The disk is full.
abbrev pub no_room : Platform network codec
no_room = platform_with (λ w. (ok 3, w)) (λ w. (err 13, (w.0, w.1 + 1)))
