-- ===== src/Lib.antt =====
-- Verification of alg_bcDB, a database on a block chain: the agreement of the nodes, the blocks and
-- transactions of the data chain and of the table chain, the Merkle tree, the queue of blocks, the
-- pools of transactions, the cache with its permissions, the users and their commands, the services
-- between the nodes, the election of the node that keeps the accounts, and the byte conversions.
--
-- A signed-in user writes transactions, if the cache says that the user may, which wait in the pools
-- and go to the other nodes. A node proposes a block of data transactions and agrees with the other
-- nodes on one block per round; the node that keeps the accounts packs the transactions on tables.
-- Blocks go through a queue to the other nodes, which take them into their chains, in a key-value
-- store, take their transactions out of their pools, and update their caches: the permissions from
-- the table blocks, the lists of the blocks of a table from the data blocks. A value is looked up in
-- the cache, then along such a list, then in the data chain. The agreement reads the chain for the
-- seed of its sortition and for the block before, and the chains' checks read the Merkle tree. The
-- nodes of a cluster elect the one that keeps the accounts.
--
-- Prelude: Boolean tests, lists, byte sequences, association lists and integers over the native
-- numbers. A byte sequence is a list of numbers; a nil slice and an empty one are one value.
-- Conversions: util/util.go. `uint64_to_bytes` is `Uint64ToBytes`, and so on; `none` is a panic.
-- Merkle: MerkleTree/merkel.go. Shape is one level, Build the whole tree, Search `GetProve`. The
-- fuel of `get_merkle_root` is one more than the number of leaves, as every level but the last
-- halves the nodes.
-- BlockQueue: blockqueue/queue.go. The nodes lie on a heap, a list, with addresses into it. Fifo is
-- about calls that do not overlap, Race about two that do.
-- Bolt: the operations of github.com/boltdb/bolt as a record with the laws of its documentation.
-- DataChain: blockchain/blockchain_data. Signing is about transaction.go, block.go and
-- `CheckDataBlock` of util.go, Judging about its verdict; Store is blockchain.go and the searches of
-- util.go. The hash functions, gob and ecdsa are the fields of `Library`. The fuel of `get_by_round` is a number of
-- blocks; more than the tail's round is enough on a chain whose rounds count down. Samples has a
-- store and an encoding to run the definitions on.
-- Consensus: algorand/algorand.go, peer.go and message.go, with util/binomial.go, crypto.go and
-- parameter.go. Sortition has `subUsers` and `maxPriority`, Messages a peer's tables, Counting
-- `countVotes`, `processMsg` and `commonCoin`, Protocol `reduction`, `binaryBA` and `BA` over the
-- results of their counts, Support puts them on the votes. A loop of `binaryBA` has fuel for 7
-- iterations; each adds 2 to the step, which runs from 1 to below 12. The float e^-expected of the
-- binomial is a parameter, a rational.
-- Users: userManage/userManage.go. Accounts is about the files and sessions that belong together,
-- Sessions about a user who registers, signs in and signs out.
-- TxPool: the queue of txpool/txpool_data.go. The nodes between the sentinels are a list from the
-- tail to the head with their addresses. Order is about the list, Validity about the queue.
-- TablePool: txpool/txpool_table.go. Packing is `bookKeeperRun`, Block one turn of it and Packed a
-- run; its fuel is the number of turns and one for the end, and each turn takes at least one of the
-- nodes that are old enough.
-- Raft: Raft/raft.go and rpc.go. Election is the cluster as a step relation, where requests and
-- replies are taken in any order, and where `Vote` and `becomeCandidate` test and write in two steps;
-- the writes of one call come together. It has more steps than the code, such as a reply to a node
-- whose election is over. Votes counts them, Local is about one node, Moves and Safety about the
-- cluster, Race about calls of `Vote` that overlap, Stuck about a vote that is not taken back.
-- TableChain: blockchain/blockchain_table. Judging is about the check of a block, Store is the chain
-- in its bucket, with the buckets of the tables beside it; Samples encodes its blocks.
-- Cache: cache/cache.go. Tables is the permissions of cache/table-chain.go: Granted says what entries
-- give, Memory, Buckets and Ends are about `upDateByTables`, Restart and Equivalence about `init`,
-- whose fuel is a block each. HashChain is the rest of that file: Chained is what a bucket holds,
-- Blocks is about `upDateByData`, Visits and Found about the searches, whose fuel is one more than the
-- hashes. Lru is cache/cache_lru.go, its nodes on a heap: Segments and Valid say what a queue in order
-- is, Queue is about `queueIn`, Ring about `toTail`. Reads is about `GetOneValue`.
-- Grpc: the conversions of GRPC/util.go; Transport is about them. Services is GRPC/service.go, where
-- Blocks is about a distributed block; Synchronization is the two functions of that name on both
-- sides, whose fuel is one more than the newer blocks.
-- Cluster: Cluster/cluster.go, and the services on nodes. Joining is about joining, Repeats about the
-- removal of repeated nodes, whose fuel is one more than the nodes.
-- Commands: server/serverFuncs_cmd_bk1.go; Permitted is about what the permissions allow.
-- ServerExec: `Cmd` of serverExec/service.go; Refusing is about a client that is not signed in.
--
-- Not modelled: the clocks (a count is given the votes that have come in, and whether its timer has
-- fired; a run of a pool is given the time), the network and the loops that call the services of the
-- other nodes, logging and printing, the encodings of gob and protobuf, which are parameters, the
-- block proposal and the VRF seeds of a block, the packing of the data pool, which waits for them,
-- the cluster file, the command line of server/cmd.go, and the streams and the client of serverExec.
pub mod Prelude
pub mod Conversions
pub mod Merkle
pub mod BlockQueue
pub mod Bolt
pub mod DataChain
pub mod Consensus
pub mod Users
pub mod Raft
pub mod TxPool
pub mod TableChain
pub mod Cache
pub mod Grpc
pub mod Cluster
pub mod TablePool
pub mod Commands
pub mod ServerExec
