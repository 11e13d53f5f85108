-- ===== src/Lib.antt =====
-- go-norn: a model of the node's core logic, translated from the Go sources, with the theorems that
-- make it correct.
--
-- The program is a blockchain node. Blocks that arrive from peers enter a buffer (core/buffer.go), which
-- keeps for each height above the last confirmed block the best candidate, and confirms a block once the
-- view is 12 heights ahead. A block enters the view only with a verified output of the VDF calculator
-- (crypto/calculator.go), whose seeds the blocks carry on. Transactions wait in a pool (core/txpool.go), and a
-- block commits to its transactions by a Merkle root (core/merkle.go). A node takes part once its clock is
-- near those of its peers (node/time_syncer.go) and the blocks
-- it lacks are fetched (node/block_syncer.go). Data commands in transactions change a key-value store
-- (core/data.go), and subscribers are told (pubsub). The confirmed blocks are stored in a database behind caches
-- (core/blockchain.go); a verifiable random function decides who may package a block (crypto/vrf.go); and messages
-- travel as frames on streams (p2p/peer.go) to the handlers of the node (node/handler_funcs.go,
-- node/manager.go). Clients read the chain and submit signed transactions by RPC (rpc).
--
-- Files:
-- Common: the structs of common/common_km.go and the accessors of common/block.go.
-- Calculator: crypto/calculator.go. `calculate`, `verify`, `verify_block_vdf`, `append_new_seed` and
--   `get_seed_params` are the methods of those names, the former for channels with room; the flag `changed` is read through
--   a function of the round. Power holds the arithmetic, Protocol the acceptance of seeds. Routines is a step relation for
--   AppendNewSeed, run and GetSeedParams, each send and receive a step, over channels of 32 and changeLock; Balance holds
--   its invariant, Deadlock a state without a step, Sends the relation of `append_new_seed` to its steps.
-- Buffer: core/buffer.go. The state and the view stand in Buffer, `Process` and `secondProcess` in
--   Buffer/Handlers; each runs under the lock, so it is a function of the state into Outcome, which tells a
--   result from a panic, a blocked send and an endless loop. A run is a list of events.
-- Merkle: core/merkle.go, over any hash function.
-- TimeSync: node/time_syncer.go and the two handlers of node/handler_funcs.go.
-- TxPool: core/txpool.go. sync.Map is an association list, the order of Range an argument, the chain a
--   function.
-- BlockSync: node/block_syncer.go; its rounds over the peers stand in Node/Rounds.
-- DataProcessor: core/data.go and the keys of utils/dbtools.go, over an interface of encoding/json.
-- Chain: core/blockchain.go. The database is a function, the ledger of Chain/Ledger the list of blocks that a chain
--   represents. Lookups and Storage relate the two, Insert holds insertBlock, AppendBlockTask and NewBlockchain, and
--   Packaging holds PackageNewBlock and NewGenesisBlock.
-- Vrf: crypto/vrf.go, crypto/ecdsa.go and crypto/convertor.go.
-- Peer: p2p/peer.go, the queues of a peer and the stream between two.
-- Node: node/handler_funcs.go and node/manager.go: the handlers (Node/Handlers) and gossip (Node/Gossip), over the
--   chain, the block syncer, the VRF and the peer. Node/Streams: the set of peers of node/manager.go.
--   Node/Production: one turn of packageBlockRoutine. Node/Rounds: one tick of the block syncer's run, and AddPeer.
--   Node/Dispatch: the table of handlers and Peer.Handle of node/peer.go. Node/Broadcast: broadcastBlock,
--   broadcastTransaction, the datagrams and NewP2PManager; what rand.Intn draws and which peers the network reaches
--   are arguments. Node/Queues: the queues of node/peer.go, which nothing reads at present. Node/Streams/Discovery:
--   what Discover does with the peers that it finds.
-- Serializer: utils/serializer.go and utils/deseralizer.go.
-- Signing: Transaction.Verify of common/transaction.go, and the address of crypto/convertor.go.
-- Wire: the generated encoders of common/common_km.go and p2p/message_km.go. A struct is a list of cells, the fields at
--   their places in its table; Params, Headers, Messages, Clocks and Blocks hold the structs.
-- Rpc: rpc/blockchain.go, rpc/transaction.go and utils/km_pb.go. A handler returns a reply or panics; Queries reads the
--   chain, Submission hands transactions to the node.
-- Router: pubsub/publisher.go, pubsub/router.go and pubsub/request.go; whether a write to a connection succeeds is
--   an argument.
-- Prelude: numbers, int64, byte strings, lists, maps, outcomes, and the interface of the LRU cache.
--
-- An int64 is a number below 2 ^ 64 that stands for the integer 2 ^ 63 below it, and its operations wrap.
-- big.Int values are natural numbers. Loops with a bound in the source are recursion on the rounds left: the
-- rounds of `calculate` are timeParam, those of Package 10000, and those of the Merkle tree the height,
-- which suffices. The loop of updateTreeView gets two rounds, which decide whether it ends at all. readLoop has a
-- bound on its turns: one for each message and one for the end of the stream suffice.
--
-- Parameters, since they are not part of the repository: the LRU caches and the karmem runtime (records of operations
-- and laws), base64, the elliptic curve (a group of prime order), SHA-1, SHA-256, ECDSA, and the clocks. The encoders
-- of common/common_km.go and p2p/message_km.go are modelled in Wire; the chain, the node, the peers and the signatures
-- take an encoding as an interface whose laws hold for structs with arrays of their lengths, signatures of at most 73
-- bytes, and few enough bytes for offsets of 32 bits (Common/Encodable), and Serializer/Environments fills the
-- interfaces with the functions of utils over a runtime.
--
-- Not modelled: the search for nodes, the set-up of libp2p and of the sockets, the wiring of the RPC server, the reading
-- of the configuration and the command lines, which are calls of libraries; the generation of parameters, which draws
-- primes; metrics and logs, which change no state of the node; and generated protobuf code.
pub mod Prelude
pub mod Common
pub mod Calculator
pub mod Buffer
pub mod Merkle
pub mod TimeSync
pub mod TxPool
pub mod DataProcessor
pub mod Router
pub mod BlockSync
pub mod Chain
pub mod Vrf
pub mod Peer
pub mod Signing
pub mod Wire
pub mod Serializer
pub mod Rpc
pub mod Node
