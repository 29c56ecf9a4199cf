-- ===== src/Lib.antt =====
-- xraft: a Raft library in Rust, with Fetch replication in the manner of KRaft.
--
-- The parts and their modules:
--   * Types, Types/Rpc, Config: the data of xraft-core/src (consensus_state.rs, voter.rs, log_entry.rs,
--     follower_progress.rs, node_state.rs, snapshot.rs, rpc.rs, config.rs). A NodeId, a Term and an
--     offset are the u64 that they wrap, a ClusterId is the number of its UUID, an Instant a number of
--     ticks. A HashSet is a list without repetitions and a map a list of pairs.
--   * Node: xraft-core/src/raft_node.rs. Node/Traits holds the trait objects of a RaftNode (log store,
--     quorum state store, clock, transport, snapshots, state machine, listener) as one parameter; an
--     operation that returns an error may have changed its object. Node/State, Node/Election,
--     Node/Startup and Node/Dispatch are the methods, under their Rust names: a method is a function
--     from a node to a result and a node (Prelude/Exec), and an error keeps what was written before it.
--     Node/Runs is the step relation of a node: any message, timer or bootstrap, in any order.
--     Node/VoteOnce, Node/Terms, Node/Ballot, Node/Majority, Node/Leadership, Node/Formation,
--     Node/Bootstrap, Node/Lone, Node/Settled, Node/Stored, Node/Recovery and Node/Rejoin
--     hold the proofs.
--   * Cluster: several nodes of raft_node.rs on one network. A step is a step of one node, which takes
--     in a message that was sent to it, or a restart of one from what its stores hold; messages may be
--     lost, delayed, repeated and reordered. Each node has its own objects; the network is a
--     parameter that knows what was sent. Cluster/Honest, Calm, Campaigns and Handlers say what a
--     node sends, Cluster/History, Votes and Agreement what the votes of all nodes have in common.
--   * Replication: the follower's side of xraft-core/src/replication.rs. Replication/Parts holds the
--     objects that its methods are handed, and the methods of NodeState that keep the log in memory
--     (append_entries, truncate_suffix, entries_in_range, last_log_term): the repository calls them and
--     does not define them, so they are parameters. Replication/Follower are the timers and requests,
--     Replication/Fetch the handling of a response.
--   * Completion: xraft-core/src/deferred_completion.rs. The replication code completes and fails the
--     futures in it.
--   * Membership: xraft-core/src/membership.rs. Quorum counts voters.
--   * Storage: xraft-storage/src/memory_log_store.rs, memory_quorum_state.rs, memory_log.rs and the
--     search of segment_index.rs. The first two implement the traits that Node takes.
--     Storage/LogHistory treats whole histories of calls of the log store.
--   * Storage/SnapshotStore: xraft-storage/src/snapshot_store.rs, a directory of snapshots that are read
--     and written in chunks, with serde_json as a parameter.
--   * Storage/QuorumFile: xraft-storage/src/quorum_state_file.rs, a save step by step, any of which the
--     file system may fail. Storage/QuorumFile/Histories has the proofs.
--   * Storage/Segment and Storage/SegmentLog: xraft-storage/src/segment.rs and segment_log.rs. A file is the
--     list of its bytes; bincode and crc32c are parameters. Segment/Batches says what a sound file is,
--     Segment/Recovery, Reading, Append, Crash and Cutting treat the operations on it;
--     SegmentLog/Contents says what a series of segments holds, SegmentLog/Appending and Reopening
--     what happens to it.
--   * Storage/Epochs: xraft-storage/src/leader_epoch_checkpoint.rs, and the part of StorageEngine::open
--     (xraft-storage/src/lib.rs) that builds it from the log. Epochs/Scan holds the proofs.
--   * Election and EventLoop: xraft-core/src/election.rs and event_loop.rs, the second implementation of
--     elections, with pre-votes. The repository's NodeState does not define the methods that they call
--     (become_follower, become_candidate, become_leader, record_fetch and others): they are
--     parameters, with what their names and the comments at the calls say of the term and the vote as a
--     hypothesis (Election/Votes.Documented). EventLoop/Rpc has handle_rpc and the loop, which is given
--     the list of what wakes it. The batch of actions of a handler goes to an executor, a parameter.
--   * IoStage: the executor of xraft-core/src/io_action.rs. Its two groups of actions interleave as a list
--     of turns says.
--   * GroupStage: the second executor, xraft-core/src/io_stage.rs, with three groups on three objects.
--   * Simulator: xraft-transport/src/simulator.rs, the network with partitions, drops, delays and
--     reordering; the dice and the channels are parameters.
--   * TestStateMachine: xraft-test/src/test_state_machine.rs.
--   * InvariantChecker: xraft-test/src/invariant_checker.rs, the checks of a simulated cluster, each in a
--     module of its own: Leaders, AppendOnly (with Entries), Matching, Machines and Completeness.
--   * Codec: xraft-transport/src/codec.rs, with bincode as a parameter.
--   * Examples: the theorems at concrete inputs, in a world made of the stores in memory.
--
-- Bounds: u64 additions wrap around (u64_add). A step of a RaftNode that may start an election assumes
-- room for one more term in a u64. The binary search runs on fuel, as many rounds as there are entries,
-- and every round shrinks the range by one at least. The walks over a segment file and over a snapshot
-- run on one round more than there are bytes, and every round that goes on consumes twelve at least.
-- The transfer of a snapshot in chunks runs on one round more than it has bytes.
-- Positions in a file are plain numbers, since no file comes near 2^64 bytes.
--
-- Not modelled: the texts of error messages and the logging; the failures of the file system, but for
-- reads past the end of a file, missing files and failed saves of the quorum state, and the parsing
-- of file names; the channel transport; the snapshot coordinator, which uses types that the
-- repository does not have; changes of the voter set in a cluster; the test harness but for its state
-- machine and its checker. The modules of the repository disagree on some types (QuorumState,
-- VotersRecord, PendingMembershipChange): each model uses the type that its source file uses.
pub mod Prelude
pub mod Types
pub mod Config
pub mod Node
pub mod Quorum
pub mod Membership
pub mod Storage
pub mod Completion
pub mod Replication
pub mod Cluster
pub mod Codec
pub mod Election
pub mod EventLoop
pub mod IoStage
pub mod GroupStage
pub mod TestStateMachine
pub mod InvariantChecker
pub mod Simulator
pub mod Examples
