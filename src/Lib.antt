-- ===== src/Lib.antt =====
-- Verification of v3-node, a node that joins the peer-to-peer network of BSC, keeps a registry of the
-- peers it has sessions with, fetches receipts from them, and reports transactions to watched pools.
--
-- The parts, and the files that model them:
-- - src/network/manager.rs, the manager of peers. Manager/State has its state, events and commands;
--   Manager/Registry the handlers `on_peer_connected`, `on_peer_removed` and `handle_network_event`, and
--   the eviction loop; Manager/Dispatch `do_fetch_receipts`; Manager/Loop `handle_command` and `run`;
--   Manager/Handle the handle `PeerManagerHandle`; Manager/System the task among its callers and the
--   network, as a step relation. A state is passed in and out, the events sent are a list in the
--   state, and so are the replies. `run` takes the list of the rounds that `select!` comes to, so every
--   order of events and commands is some list. A panic is a value (`Run`).
-- - src/network/peer.rs, a session with a peer: Peer, with `fetch_receipts` over the three versions of
--   the protocol.
-- - src/network/handshake.rs and src/network/upgrade.rs, what BSC adds to the handshake of Ethereum:
--   Handshake and Upgrade.
-- - src/network/chainspec.rs, the table of hard forks and the announced head: Chain; the spec around
--   them and the bootnodes: Chain/Spec.
-- - src/main.rs and `start_network`, the start of the program: Boot.
-- - src/node/node.rs, the loop that prints what happens: Node. The tasks that `start` spawns are a list,
--   run one after the other; Node/Overlap has those of the manager's events as a step relation, where
--   a task waits for room in the channel and for its reply while the others go on. It starts from any
--   state that the manager can be in, since `resubscribe` comes after `run` is spawned: what the
--   manager sent before is not received. Node/Feed has what the broadcast channel delivers, with the lags.
-- - src/pool/decoder.rs, the decoder of calldata: Pool.
-- - src/db/models.rs and src/db/schema.rs, rows, tables and migrations: Db/Text, Db/Models, Db/Schema.
--   A statement is data, with its IF NOT EXISTS, its columns and its constraints.
-- - src/config/mod.rs and src/error.rs: Config and AppError.
-- Base has what they share: tests and lists over native numbers, results and panics, actions with a
-- state, hash maps, two's complement. Samples has concrete parameters for the tests, which stand in the
-- modules named Tests.
--
-- The manager uses Peer, the handle uses the manager, and the node uses the handle and the decoder;
-- Manager/Handle/Live and Node/Schedule put them together: a caller sends a command, the manager handles
-- it, and the caller reads its reply. Node/Overlap lets all of them take their steps in any order.
--
-- Parameters. Code of other libraries is an argument of the definitions, in a record: the network stack,
-- the runtime and the clock (Net, of Peer), the iteration order of a hash map (Hasher), the stream, the
-- Ethereum handshake and the timer (Session), RLP (Rlp), the texts that alloy prints (Alloy, one for the
-- rows and one for the node), SQLite (Sqlite), a file system and serde_json (Config), and all that the
-- start takes (SpecCodec, Platform: the command line, the connection to SQLite, the network). The start
-- threads one world through all of them, so their order shows in it. What a theorem assumes of them is
-- a record of laws among its hypotheses, and Samples has an instance of each.
--
-- Bounds. The loop over the peers has a counter that starts at their number, as in the code, and
-- structural recursion needs no fuel. The command channel holds 128 commands, as in the code. The
-- digits of a number are found by well-founded recursion. Machine integers are numbers, with their
-- ranges as hypotheses and two's complement written out where a conversion depends on them. The index
-- of the round robin is reduced by the number of peers before it is used, and its increment is below
-- that number plus one.
--
-- Not modelled: the capacity of the broadcast channel, so that any event may be lost to a lag; the
-- empty method `handle_pool_sync`; and the files that are empty (sync, db/queries, pool/events,
-- pool/math, pool/state) or only list modules.
pub mod Base
pub mod Pool
pub mod Peer
pub mod Manager
pub mod Samples
pub mod Upgrade
pub mod Handshake
pub mod Db
pub mod AppError
pub mod Node
pub mod Chain
pub mod Boot
pub mod Config
