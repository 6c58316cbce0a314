-- ===== src/Lib.antt =====
-- Raftly, the Raft implementation of this repository, as a library of models and proofs.
--
-- The program. A node (raft/node.go) keeps a term, a vote, a role, a log in memory (raft/log.go), a
-- write-ahead log on disk (raft/persistence.go) and a record of each peer. Its handlers of messages
-- stand in raft/election.go (`handleRequestVote`, `handlePreVote`) and raft/replication.go
-- (`handleAppendEntries`); a leader sends from raft/replication.go (`replicateTo`, `maybeCommit`).
-- Each holds the node's mutex, so that each is one step here: a function from the state, the message
-- and what the step reads from its surroundings (`Env`: the clock, a random number) to the new state
-- and the reply.
--
-- Which file models what.
--   Common           tests on numbers and strings, lists, options
--   Log              raft/log.go: `RaftLog` and its methods; Log/Shape is well-formedness, Log/Keeps
--                    what the methods keep
--   Wal              raft/persistence.go: Wal/Ints the byte order, Wal/Crc the checksum, Wal/Record the
--                    records, Wal/Read the loop of `ReadAll`, Wal/File the buffered writer over a file
--                    whose system calls may fail after any number of bytes, Wal/Ops the methods,
--                    Wal/Recovery and Wal/Durable what is recovered
--   Utf8             the strings that JSON and protocol buffers carry unchanged
--   Message, Config  the messages and the configuration
--   Node             raft/node.go: the state, `becomeFollower`, `becomeCandidate`, `becomeLeader`, the
--                    timers; Node/Terms is what stepping down keeps
--   Election         raft/election.go: the handlers of vote requests, the comparison of logs
--   Campaign         raft/election.go: `campaign`, with what the other goroutines do between its locked
--                    sections as functions from states to states
--   Replication      raft/replication.go: the follower's side
--   Leader           raft/replication.go: the leader's side, in the two halves that the mutex makes of
--                    `replicateTo`
--   Proposals        raft/node.go: `Propose`; raft/replication.go: `applyCommitted`, in the two parts
--                    that the mutex makes of it
--   Lifecycle        raft/node.go: `NewRaftNode`, `Start`, `Stop`, the cases of `run`, `LogSnapshot`
--   Proxy            transport/proxy.go: the rules that decide on each message
--   Chaos            chaos/injector.go, chaos/partition.go, chaos/loss.go, chaos/delay.go: network faults
--   Cluster          transport/inmem.go: calls between the nodes of one process, through the proxy
--   Machine          the operations of a node as one step relation, and the runs that it makes
--   Kv               server/api.go: the key-value store behind the log, and the handlers of keys; Kv/Spec
--                    is the abstract store
--   Grpc             transport/grpc.go: the calls, the server's methods, the conversions of messages
--   Http             the calls from one node's server to the others', which the files of server/ share
--   ChaosApi         server/chaos.go: the rules of one node; ChaosApi/Fanout the requests that reach all
--                    nodes
--   ConfigApi        server/config.go: the timings of one node and of all
--   LogApi           server/log.go: the log of one node and of all
--   View             server/api.go: the status of a node, snapshots of the cluster, the stream of events
--   Crash            chaos/crash.go, scenarios/scenario.go: nodes that are stopped and made anew
--   Sample           small nodes and messages for the tests
--
-- Numbers. A `uint64` is a natural number, with `u64` for the wrap-around where the code adds or
-- subtracts. A signed `int` or a duration that comes from outside is 64 bits of two's complement,
-- with `is_positive` for the test `x > 0`. Go strings and byte slices are lists of bytes. The peers,
-- a map in Go, are a list with the IDs in it, in the order in which the map happens to be read.
--
-- Errors. A returned error is `none` or a false; a panic is `none` in the handlers and `panicked` in
-- `ReadAll`. Errors that the code passes over (`_ = n.wal.Sync()`) are passed over here.
--
-- Loops. `ReadAll` runs on fuel, one more than the file has bytes; each round takes at least eight
-- bytes, and `stuck` is the result when the fuel runs out. The loop of `replicateTo` over its
-- own log counts an index down. The other loops are over lists.
--
-- The disk. A system call that fails may leave any part of its bytes in the file; the writer then
-- keeps its error, as `bufio.Writer` does. What was written counts as kept: the model has no loss of
-- pages that were written but not synced.
--
-- Libraries. JSON, HTTP and gRPC are not the repository's. Kv takes the JSON codec of a command as a
-- parameter, and `CodecLaws` is what it relies on: a command in UTF-8 is decoded as it was encoded;
-- what becomes of a request that goes on to the leader is a parameter too, `Upstream`. An HTTP call
-- does not arrive, loses its response, or returns; a call over gRPC runs the server's method or is an
-- error, as for a string that is not UTF-8. In JSON every number becomes a `float64` where no type is
-- declared.
--
-- Not modelled: listening and shutting down, headers and the texts of errors, the metrics' registry,
-- the command line, the panic of `rand.Int63n` for an election timeout that is not positive (the
-- configuration is taken to have a positive one, and requests keep it so), the browser interface, the
-- scenarios' waiting and polling; the goroutines' order other than as a sequence of steps.
pub mod Common
pub mod Utf8
pub mod Log
pub mod Wal
pub mod Message
pub mod Config
pub mod Node
pub mod Election
pub mod Campaign
pub mod Replication
pub mod Leader
pub mod Proposals
pub mod Lifecycle
pub mod Proxy
pub mod Chaos
pub mod Cluster
pub mod Machine
pub mod Kv
pub mod Grpc
pub mod Http
pub mod ChaosApi
pub mod ConfigApi
pub mod LogApi
pub mod View
pub mod Crash
pub mod Sample
