-- ===== src/Lib.antt =====
-- KVstorageBaseRaft-cpp: a key-value store that a group of Raft nodes replicates.
--
-- A client (src/raftClerk/clerk.cc) calls the key-value servers (src/raftCore/kvServer.cc) one after
-- the other until the one that leads answers. A server hands each request as a command to its Raft
-- node (src/raftCore/raft.cc, `Start`) and waits in a queue for the index that the command has in the
-- log. The leader's heart beats replicate the log; what a majority has stored is committed, and each
-- node hands its committed commands, in order, through a channel to its server, which carries them out
-- on a skip list and answers who waits. When the stored state grows, the server takes a snapshot and
-- its node cuts the log; a leader sends the snapshot to a node that lacks compacted entries. Term, vote
-- and log go to a file through the persister (src/raftCore/Persister.cc).
--
-- Persister    src/raftCore/Persister.h and Persister.cc: `Save`, `SaveRaftState`, `ReadSnapshot`,
--              `ReadRaftState`, constructor and destructor on the two streams and their files.
-- Message      src/raftRpcPro/raftRPC.proto, src/raftCore/ApplyMsg.h, `Op` of src/common/util.h.
-- Archive      what Boost's archives and protobuf write and read, as an interface.
-- Raft         src/raftCore/raft.h and raft.cc: the state of a node and its helpers on the log.
--  Store       `persistData`, `readPersist`, `persist`.
--  Election    `RequestVote`, `doElection`, `sendRequestVote`, a round of `electionTimeOutTicker`.
--  Replication `AppendEntries`, `doHeartBeat`, `sendAppendEntries`, a round of
--              `leaderHeartBeatTicker`.
--  Snapshot    `Snapshot`, `InstallSnapshot`, `leaderSendSnapShot`.
--  Apply       `getApplyLogs`, a round of `applierTicker`, `leaderUpdateCommitIndex`.
--  Node        `init`, `Start`, and the handlers as steps in any order.
--  Group       nodes that ask each other for votes and send each other entries: calls in flight,
--              answers in any order, calls lost. Posts: the requests among a node's tasks.
--  Bystander   what a handler leaves of a node's elections, and the same for each part's handlers.
--  Group/Ledger, Group/Agreement: who wrote which entry, and where entries agree.
--  Group/Cluster, Group/Commits: the group with each request to append sent and answered once at most.
--  Tickers     a round of `electionTimeOutTicker` and of `leaderHeartBeatTicker` with its sleep, and
--              `getRandomizedElectionTimeout` of src/common/util.cc.
-- KvServer     src/raftCore/kvServer.h and kvServer.cc: `GetCommandFromRaft`, one round of
--              `ReadRaftApplyCommandLoop`, the snapshot of the store. Replay, Retry: runs of commands.
--  Startup     the constructor. Servers: the nodes that it and the client read.
--  Client      `Get` and `PutAppend`, before and after the wait for the log.
--  Reading     reads after writes. Install: what a snapshot leaves alone. Handed, Account: what Raft
--              has handed to a server, and what its queues and its table of requests hold of it. Round:
--              what its calls do to its node.
-- Rpc          src/raftCore/raftRpcUtil.cc, src/raftClerk/raftServerRpcUtil.cc and the service methods of
--              `Raft`: calls over the stubs that gRPC generates, which are parameters.
-- System       the nodes of a group with their servers: clients ask, nodes replicate, servers read the
--              channels of their nodes and answer. Refine: the nodes run as a group. Requested and
--              Answered: where commands and answers come from.
-- RpcConfig    src/rpc/rpcConfig.cc: `LoadConfigFile`, `Load`, `removeSpaces`.
-- Clerk        src/raftClerk/clerk.cc: `Get`, `PutAppend`, `Init`.
-- Launcher     example/raftCoreExample/raftKvDB.cpp: the configuration file that it writes.
-- Examples     concrete archives, nodes, groups, servers and files, and the theorems at work on them.
--  Lost        a run of five nodes in which a committed entry is not in the log of a later leader.
-- Base         shared names: tests on numbers, lists, integers, strings, and maps as lists of pairs.
--
-- A handler of a Raft node runs under the node's mutex and is one function from state to state;
-- `applierTicker` takes its messages under the mutex and pushes them one by one outside it. A server
-- locks its mutex several times in one call: `Start` and the registration of the wait are two steps,
-- while `GetCommandFromRaft`, and `Get` and `PutAppend` after the wait, are one step each, so that
-- runs in which something else happens between their locked parts are left out. A remote call is two
-- steps, the request and what is done when the call has returned; whether it went through and its
-- reply are arguments, as are the clock and the random time-outs. Indices and terms are natural
-- numbers; the values -1 and -100 that stand for "none" are `none`. A read or an erasure outside a
-- vector has undefined behaviour in the source and is `none` in the model.
--
-- Loops over a vector recurse on the list. `while` loops that count recurse on the number of rounds
-- left: `back_up` on the index, `apply_logs` on the distance to the commit index, `truncked_logs` on
-- the entries behind the snapshot, `removeSpaces` on the length of the text, which it reads once. The
-- loop of `Clerk::Init` has the source's bound as fuel. The library's `std::to_string` is written
-- out, with fuel above the number of digits. A client's request recurses on the answers of its calls,
-- and still waits where they run out.
--
-- Not modelled: the third-party skip list and channels and the generated gRPC stubs, whose operations
-- are parameters (a channel has room), the threads that the constructors start and their sleeps, a node
-- that restarts in a run of its group, the launcher's command line and processes, and logging. The `int`
-- of indices, terms, request numbers, times and ports has no upper bound, but where a theorem gives one.
-- The buffer of a persister's stream has room until the stream is closed. A server's snapshot that is no
-- archive makes the reader throw, which is `none`; that an entry, a command or a node state is none is
-- not modelled.
pub mod Base
pub mod Persister
pub mod Message
pub mod Archive
pub mod Raft
pub mod KvServer
pub mod Rpc
pub mod System
pub mod RpcConfig
pub mod Clerk
pub mod Launcher
pub mod Examples
