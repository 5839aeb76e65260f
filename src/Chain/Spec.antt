-- ===== src/Chain/Spec.antt =====
-- src/network/chainspec.rs: the chain spec and the bootnodes.
use v3_node.Base.{ℕ, String, List, [], ◌∷◌, Option, none, some, Run, panic, done}
use v3_node.Chain.{Hardfork, ForkCondition, bsc_mainnet}

pub data NamedChain : Type 0 where
  binance_smart_chain : NamedChain

-- What the spec takes from serde_json, alloy and reth; `genesis_json` is the text of data/genesis.json.
pub record SpecCodec : Type 1 where
  pub Genesis : Type 0
  pub Header : Type 0
  pub BlockHash : Type 0
  pub NodeRecord : Type 0
  pub genesis_json : String
  pub parse_genesis : String → Option Genesis
  pub parse_block_hash : String → Option BlockHash
  pub make_genesis_header : Genesis → List (Hardfork × ForkCondition) → Header
  pub parse_nodes : List String → List NodeRecord

abbrev pub genesis_hash : String
genesis_hash = "0x0d21840abff46b96c84b2ac9e10e4f5cdaeb5693cb665db62a2f3b02d2d57b5b"

abbrev pub bootnode_urls : List String
bootnode_urls =
    "enode://433c8bfdf53a3e2268ccb1b829e47f629793291cbddf0c76ae626da802f90532251fc558e2e0d10d6725e759088439bf1cd4714716b03a259a35d4b2e4acfa7f@52.69.102.73:30311"
    ∷ "enode://571bee8fb902a625942f10a770ccf727ae2ba1bab2a2b64e121594a99c9437317f6166a395670a00b7d93647eacafe598b6bbcef15b40b6d1a10243865a3e80f@35.73.84.120:30311"
    ∷ "enode://fac42fb0ba082b7d1eebded216db42161163d42e4f52c9e47716946d64468a62da4ba0b1cac0df5e8bf1e5284861d757339751c33d51dfef318be5168803d0b5@18.203.152.54:30311"
    ∷ "enode://3063d1c9e1b824cfbb7c7b6abafa34faec6bb4e7e06941d218d760acdd7963b274278c5c3e63914bd6d1b58504c59ec5522c56f883baceb8538674b92da48a96@34.250.32.100:30311"
    ∷ "enode://ad78c64a4ade83692488aa42e4c94084516e555d3f340d9802c2bf106a3df8868bc46eae083d2de4018f40e8d9a9952c32a0943cd68855a9bc9fd07aac982a6d@34.204.214.24:30311"
    ∷ "enode://5db798deb67df75d073f8e2953dad283148133acb520625ea804c9c4ad09a35f13592a762d8f89056248f3889f6dcc33490c145774ea4ff2966982294909b37a@107.20.191.97:30311"
    ∷ []

module _ (codec : SpecCodec) where
  open codec use {Genesis, Header, BlockHash, NodeRecord}

  -- The fields that are set; the others have their defaults.
  pub record ChainSpec : Type 0 where
    pub chain : NamedChain
    pub genesis : Genesis
    pub paris_block_and_final_difficulty : Option (ℕ × ℕ)
    pub hardforks : List (Hardfork × ForkCondition)
    pub deposit_contract : Option ℕ
    pub base_fee_params : ℕ × ℕ
    pub prune_delete_limit : ℕ
    pub genesis_header : Header × BlockHash

  -- `expect` and `unwrap` panic.
  unfoldable pub bsc_chain_spec : Run ChainSpec
  bsc_chain_spec = elim (codec.parse_genesis codec.genesis_json) [
    | none ↦ panic
    | some genesis ↦ elim (codec.parse_block_hash genesis_hash) [
      | none ↦ panic
      | some hash ↦ done (record {
        chain = binance_smart_chain;
        genesis = genesis;
        paris_block_and_final_difficulty = some (0, 0);
        hardforks = bsc_mainnet;
        deposit_contract = none;
        base_fee_params = (1, 1);
        prune_delete_limit = 3500;
        genesis_header = (codec.make_genesis_header genesis bsc_mainnet, hash);
      })
    ]
  ]

  unfoldable pub bootnodes : List NodeRecord
  bootnodes = codec.parse_nodes bootnode_urls
