-- ===== src/Lib.antt =====
-- trans-db: a distributed transactional store. A coordinator routes SQL to shards; a shard is a Raft
-- group of replicas; a replica keeps a transaction manager over a lock manager, a write-ahead log
-- and a multi-version store in RocksDB. This library models the parts of a replica, the rows it
-- stores, the coordinator's commit and recovery over the shards, and the SQL parser.
--
-- What models what:
-- - Bytes: the fixed-width integers of all formats, little-endian (src/txn/wal.cpp AppendFixedLe*,
--   ConsumeLe*; src/raft/raft_log.cpp) and big-endian (src/storage/key_encoding.cpp). A byte is a
--   number below 256. Bytes.Crc: Crc32Ieee of src/txn/wal.cpp; its table is computed entry by entry.
--   Bytes.Framed: what logs of records behind their lengths have in common.
-- - Wal: src/txn/wal.h and src/txn/wal.cpp. Payload: the Serialize*Payload and Deserialize*Payload
--   functions. Record: WriteRecord and ParseRecordsFromBytes. Log: the object, with the bytes that
--   the stream has taken and how many of them are synced. Group: src/txn/group_commit.cpp, as critical
--   sections; Waits has any interleaving of them, with proofs. ReadBack, Replay, Torn and Durability
--   hold proofs.
-- - Storage: src/storage/key_encoding.cpp (Key) and src/storage/mvcc_store.cpp (Mvcc). RocksDB is the
--   record Rocks of Storage.Rocks: a map that is visited in bytewise order; a sorted list meets its
--   laws. Iterator: src/storage/mvcc_iterator.cpp, with what RocksDB's iterator still visits as its
--   state. Between has the rows that a range is to give. Order, Seek, Visible, Updates, Hidden, Scanned
--   and Advance hold proofs.
-- - Locks: src/txn/lock_manager.cpp. Acquire is split where it waits on the condition variable, so
--   that each definition is one critical section; Running has the two of ReleaseAll, which release_all
--   runs without a break, as the calls of a transaction do here. Steps has any interleaving of them.
--   Invariant and Release hold proofs.
-- - Txn: src/txn/txn_manager.cpp and src/txn/transaction.h. Calls: Begin, ImportPreparedTxn, Read,
--   Write, Delete, Prepare, Commit, Abort, CommitSingleShard, each run to its end; Write and Delete
--   start where Acquire has returned. Recover: Recover. A transaction is recovered at its last
--   record, which is the order that the source sorts by. Scan: Scan. Lifecycle, Effects and
--   Redo hold proofs.
-- - Raft.Log: src/raft/raft_log.cpp, the entries in memory, and in File the file's format and Load.
--   Index, Round and Merge hold proofs.
-- - Raft.Node: src/raft/raft_node.cpp. Node has the state, the role changes and the two handlers;
--   Election has StartElection, with the sections of other threads between two answers as functions;
--   Replicate has the leader's requests and answers, the commit index, the quorum check and the
--   proposals; Meta has the file of the term and the vote. Vote, Terms, Wins, Append and Commit hold
--   proofs.
-- - Machine: src/raft/raft_state_machine.cpp, the payloads of the Raft entries (Batch) and Apply over
--   the transaction manager (Apply), and the accessors of its maps (Maps). Of a PrepareResult the
--   flag is kept. Unpack and TwoPhase hold proofs.
-- - Row: SerializeRow of src/coordinator/executor.cpp and DeserializeStoredRow of
--   src/coordinator/row_codec.cpp; the lookup of columns there is in Sql.Catalog.
-- - Coord: src/coordinator/coordinator.cpp. Log: src/coordinator/coordinator_log.cpp. Outside: the
--   shards behind gRPC, the clock and the log's file, as a record of functions on a state of theirs.
--   Shards: RouteShard, GetStub, RotateStub and the loops over replicas. Calls: Begin, Read, Write,
--   Delete, Scan, DistributedJoinOnShard, Abort. Commit: Commit, SingleShardCommit, TwoPhaseCommit.
--   Recover: Recover. Participants: what the shards are taken to do, as laws. The threads of one call
--   (std::async) run one after the other; they share nothing but the shards, and each its own shard.
--   LogTrip, Keeps, Steps, Phases, Outcomes, Atomic, Answers, Resume and Bounds hold proofs.
-- - Sql: src/coordinator/parser.cpp and parser.h. Token and Lexer: Tokenize. Syntax: the statements.
--   Cursor: Peek, Advance, Match, Expect, with the tokens from pos_ on as the state. Parser and
--   Statement: the grammar. Catalog: src/coordinator/catalog.cpp. Rounds, Lexed, Loops, Quoted
--   and Tables hold proofs.
-- - Tests: the theorems at concrete inputs.
--
-- Bounds and fuel. Integers that the source wraps are taken modulo 2^32 or 2^64 where they are
-- written or counted (sequence numbers, transaction ids, hold counts); terms and log indexes are not
-- wrapped. The loops over a file's bytes run on fuel: parse_records_from_bytes gives one more than
-- there are bytes, and load takes it as an argument; each round takes at least one byte, so that more
-- fuel than bytes is never used up. The iterator's loop has one more round than there are entries,
-- the tokenizer's one more than there are bytes, and the parser's loops as many as there are tokens.
--
-- Not modelled. Clocks, threads and the network: what they decide is an argument. The answers of the
-- file system and of RocksDB are arguments too, but that a new leader's NOOP entry is written, and
-- that ReplayPut and Get do not fail. The meta file of a Raft node is what a process that does not
-- crash with its machine finds: PersistMeta does not sync it on POSIX. In a two-phase commit the
-- prepare calls end before the aborts are sent, where the source sends these at the first vote
-- against the commit while other prepare calls may still run. What a shard answers to a query is a
-- law of Participants: it may always be that it does not know. The logs here sync at once, as
-- without the batching window of src/txn/group_commit.cpp. The coordinator's constructor. The executor but for its row format, the joins, the servers, the wire
-- protocol and the transport.
pub mod Prelude
pub mod Bytes
pub mod Wal
pub mod Storage
pub mod Locks
pub mod Raft
pub mod Txn
pub mod Machine
pub mod Coord
pub mod Sql
pub mod Row
pub mod Tests
