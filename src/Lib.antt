-- ===== src/Lib.antt =====
-- This is the verification library of pacd, the node of the Pingancoin block chain.
--
-- The program's core is a tree of packages. internal/wire has the binary format of transactions,
-- headers and blocks; internal/consensus has the subsidy, the difficulty, the proof of work and the
-- rules on time; internal/txscript signs and verifies inputs; internal/blockchain keeps the chain and
-- its unspent outputs, and calls the other three on every block; internal/mining builds blocks that
-- the chain is asked to accept; internal/p2p frames the messages that carry blocks between nodes, and
-- its node decides whether a block extends the chain, waits as an orphan, joins a side branch or
-- brings a reorganization; internal/rpcserver keeps the memory pool and takes submitted blocks;
-- internal/wallet selects the outputs that a payment spends.
--
--   Base         tests, lists, integers, Go's results (value, error or run-time panic), words
--   Crypto       BLAKE-256, SHA-256, RIPEMD-160 and secp256k1 as parameters with documented laws
--   Wire         internal/wire: tx.go and hash.go in Tx and VarInt, block.go in Header, Block, Merkle
--   Chaincfg     internal/chaincfg/params.go: the record of parameters, and MiningOpen
--   Consensus    internal/consensus: subsidy.go, asert.go, pow.go and time.go
--   Address      internal/address: address.go in Script (hashes, payment and redeem scripts) and Encoded
--                (addresses), base58.go in Base58
--   Txscript     internal/txscript/p2pkh.go
--   Chain        internal/blockchain/chain.go: Utxo is the map of unspent outputs, Connect connects
--                transactions to a view of it, State validates and adds blocks, Reorg is Reorganize
--   Mining       internal/mining/miner.go
--   P2p          internal/p2p: message.go, version.go and sync.go
--   Node         internal/p2p/node.go: Headers is the exchange of headers, State the orphans and side
--                blocks, Side the branches and the reorganization to one, Connect is connectBlock,
--                Peers the table of peers with its ban scores, AddrBook the addresses to dial; HashMap
--                is a map with byte strings as keys
--   Mempool      internal/rpcserver/server.go: the memory pool
--   Server       internal/rpcserver/server.go: submitted and generated blocks; Steps has the calls of
--                the node and of the server on the chain that they share, as a step relation
--   Wallet       internal/wallet: selectUTXOs and BuildDraftTx (Draft) of txbuilder.go, isMature of
--                balance.go
--   Tests        data, runs of the definitions, and uses of the theorems at concrete inputs
--
-- Function names are the source's in snake case. A method that changes the chain returns the new
-- chain. A map of unspent outputs is an association list; its entries do not change, so the clones
-- that chain.go makes are the values themselves. A reader's state is the input that is left. The clock
-- is an argument wherever time.Now is called. int64 and uint32 arithmetic wraps where the source's
-- does; big.Int is an integer without a bound, and so is a time.Time in nanoseconds.
--
-- What the outside decides is an argument too: whether the file takes a block, and which orphan an
-- iteration over a map meets first. A lock is a step: what the source does under one lock is one
-- function here, and the order of the steps is left open. An operation that can fail and leave a
-- changed state returns the state beside its result.
--
-- Bounds and fuel: the loop of parsePushes takes a byte in each round, so the script's length is fuel
-- enough; the loop of CalcMerkleRoot halves the layer, so the number of transactions is; the number
-- of bytes of a big.Int is found with the number plus one; EstimateTotalSubsidy runs for at most as
-- many rounds as the base subsidy has atoms, where each reduction takes one. The recursion of connectOrphansLocked
-- takes an orphan out of the map each time and gets the number of orphans plus one; the walk of
-- sideBranchLocked sees a side block at most once and gets their number plus one. Other loops are
-- recursion on their list or counter. A slice of pointers that is made with a capacity above 2^45
-- panics, the limit of the runtime on one allocation; running out of memory below it is not modelled.
--
-- Not modelled: connections, goroutines, the dispatch of messages and the address book's file in the
-- node; HTTP and JSON in the server; the lines of the block store's file;
-- the Stratum bridge and the commands, which are network and command-line code around these parts;
-- the wallet's keys, its scan and the signing of its drafts; DifficultyRatio, which is shown and not compared.
pub mod Base
pub mod Crypto
pub mod Wire
pub mod Chaincfg
pub mod Consensus
pub mod Address
pub mod Txscript
pub mod Chain
pub mod P2p
pub mod Mining
pub mod Tests
pub mod Mempool
pub mod Server
pub mod Node
pub mod Wallet
