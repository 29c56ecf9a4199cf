-- ===== src/Node.antt =====
-- xraft-core/src/raft_node.rs: the consensus node, over the traits that it is given.
pub mod Traits
pub mod State
pub mod Election
pub mod Startup
pub mod Dispatch
pub mod VoteOnce
pub mod Formation
pub mod Bootstrap
pub mod Runs
pub mod Terms
pub mod Ballot
pub mod Leadership
pub mod Majority
pub mod Lone
pub mod Recovery
pub mod Stored
pub mod Settled
pub mod Rejoin
