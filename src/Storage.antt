-- ===== src/Storage.antt =====
-- The in-memory stores of xraft-storage: the log, the quorum state and the sparse index.
pub mod MemoryLog
pub mod LogLaws
pub mod FilterLog
pub mod Index
pub mod Quorum
pub mod QuorumFile
pub mod Segment
pub mod SegmentLog
pub mod Epochs
pub mod SnapshotStore
pub mod LogHistory
