-- ===== src/Replication.antt =====
-- xraft-core/src/replication.rs: the follower's side of replication by Fetch.
pub mod Parts
pub mod Follower
pub mod Fetch
pub mod Monotone
pub mod Committed
pub mod Refused
